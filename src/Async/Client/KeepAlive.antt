-- ===== src/Async/Client/KeepAlive.antt =====
-- The keep alive timer of messi/c_source/templates/async/client.c.
use messi.Base.{◌≡◌, false, arith}
use messi.Async.Client.State.{AsyncClient, disconnect_and_start_reconnect_timer}
use messi.Async.Client.Handlers.{on_keep_alive_timeout}

module _ {S2c : Type 0} where
  -- If the timer expires twice and no pong comes in between, the client is not connected any more.
  pub two_timeouts_disconnect :
      (c : AsyncClient S2c) → (on_keep_alive_timeout (on_keep_alive_timeout c)).is_connected ≡ false
  unfolding on_keep_alive_timeout disconnect_and_start_reconnect_timer
  two_timeouts_disconnect c = ground arith
