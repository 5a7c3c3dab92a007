-- ===== src/Async/Client/Reconnect.antt =====
-- What messi/c_source/templates/async/client.c carries over from one connection to the next, and what
-- is under way when the user stops the client.
use messi.Base.{Bool-cases, inl, inr, ◌≡◌, refl, ◌∙◌, Bool, true, false, arith}
use messi.Reason.{Reason}
use messi.Linux.Client.State.{connected, disconnected}
use messi.Async.Client.State.{
  AsyncClient, AsyncSetup, keep_alive, reconnect, timer_started, callback, call_made, expired,
  calls, disconnect_and_start_reconnect_timer, async_call_back,
}
use messi.Async.Client.Handlers.{
  on_stcp_connected, on_stcp_disconnected, async_client_start, async_on_disconnected,
}
use messi.Async.Client.Api.{async_client_stop}
use messi.Async.Client.Lifecycle.{
  happens, connecting, reconnect_runs, posted, IsUnderWay, Reach, call_is_made, reconnect_expires,
}
use messi.Async.Client.UnderWay.{Step-IsUnderWay, Reach-IsUnderWay}
use messi.Async.Client.Handling.{disconnect-Quiet, send_each-Quiet}

module _ {C2s S2c : Type 0} (setup : AsyncSetup C2s S2c) where
  connected-input : (r : Bool) (c : AsyncClient S2c) → (on_stcp_connected setup r c).input ≡ c.input
  unfolding on_stcp_connected async_call_back
  connected-input false c = refl
  connected-input true c =
      let d : AsyncClient S2c =
        calls (callback connected) (record (calls (timer_started keep_alive) c) {
          pong_received = true;
          is_connected = true;
        }) in
      (send_each-Quiet setup (setup.on_connected d) d).input

  on_disconnected-input : (c : AsyncClient S2c) → (async_on_disconnected setup c).input ≡ c.input
  unfolding async_on_disconnected async_call_back
  on_disconnected-input c =
      let d : AsyncClient S2c = calls (callback (disconnected c.disconnect_reason)) c in
      (send_each-Quiet setup (setup.on_disconnected c.disconnect_reason d) d).input

  -- From the loss of a connection to the end of the connect that follows, the input is never changed: the
  -- bytes of a frame that was cut off stand in front of the stream of the next connection.
  pub lost_connection_keeps_input :
      (r : Bool) (c : AsyncClient S2c)
      → (on_stcp_connected setup r
          (async_client_start (async_on_disconnected setup (on_stcp_disconnected c)))).input
        ≡ c.input
  unfolding on_stcp_disconnected async_client_start
  lost_connection_keeps_input r c =
      let lost = disconnect_and_start_reconnect_timer Reason.connection_closed c in
      connected-input r (async_client_start (async_on_disconnected setup lost))
      ∙ on_disconnected-input lost
      ∙ (disconnect-Quiet Reason.connection_closed c).input

  stop-IsUnderWay :
      (c : AsyncClient S2c) → posted c.log ≡ 1 → IsUnderWay c → IsUnderWay (async_client_stop c)
  unfolding async_client_stop
  stop-IsUnderWay c waits h =
      let one = h.one in
      elim (Bool-cases c.is_connected) [
        | inl on ↦ absurd (ground arith)
        | inr off ↦ record { one = ground arith; guarded = λ on. absurd (cc) }
      ]

  -- A client that is stopped while the call of `on_disconnected` is posted connects again: when the call is
  -- made the reconnect timer runs, and when that expires exactly one thing is under way, a connect.
  pub stopped_client_reconnects :
      {c : AsyncClient S2c}
      → Reach setup c
      → posted c.log ≡ 1
      → let told = async_on_disconnected setup (happens call_made (async_client_stop c)) in
        let again = async_client_start (happens (expired reconnect) told) in
        (reconnect_runs told.log ≡ 1) × IsUnderWay again × (connecting again.log ≡ 1)
  unfolding async_on_disconnected async_client_start async_client_stop
  stopped_client_reconnects {c} r waits =
      let stopped = stop-IsUnderWay c waits (Reach-IsUnderWay setup r) in
      let told = Step-IsUnderWay setup (call_is_made (omega arith)) stopped in
      let again = Step-IsUnderWay setup (reconnect_expires refl) told in
      let one = again.one in (refl, again, omega arith)
