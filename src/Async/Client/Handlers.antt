-- ===== src/Async/Client/Handlers.antt =====
-- What messi/c_source/templates/async/client.c does when the framework calls it.
use messi.Base.{ℕ, ◌-◌, List, [], ◌∷◌, Bool, true, false, Option, none, some, ◌==◌, if◌then◌else◌}
use messi.Header.{
  blank, header_create, header_bytes, header_size, server_to_client_user, ping, pong,
}
use messi.Input.{
  Input, Outcome, more, too_big, message, reset_input, received, message_type, message_payload,
}
use messi.Kernel.{Round, go_on, leave}
use messi.Reason.{message_decode_error, message_too_big, keep_alive_timeout, connection_closed}
use messi.Linux.Client.State.{Event, connected, disconnected}
use messi.Async.Client.State.{
  AsyncClient, AsyncSetup, keep_alive, reconnect, timer_started, connect_called, reading, written,
  calls, disconnect_and_start_reconnect_timer, async_call_back,
}

module _ {S2c : Type 0} where
  unfoldable pub async_handle_message_pong : AsyncClient S2c → AsyncClient S2c
  async_handle_message_pong c = record c { pong_received = true }

  unfoldable pub on_keep_alive_timeout : AsyncClient S2c → AsyncClient S2c
  unfolding disconnect_and_start_reconnect_timer
  on_keep_alive_timeout c =
      if c.pong_received
      then calls (written (header_bytes (header_create blank ping 0)))
          (record (calls (timer_started keep_alive) c) { pong_received = false })
      else disconnect_and_start_reconnect_timer keep_alive_timeout c

  unfoldable pub on_stcp_disconnected : AsyncClient S2c → AsyncClient S2c
  unfolding disconnect_and_start_reconnect_timer
  on_stcp_disconnected c = disconnect_and_start_reconnect_timer connection_closed c

  -- The reconnect timer calls this too.
  unfoldable pub async_client_start : AsyncClient S2c → AsyncClient S2c
  async_client_start c = calls (connect_called c.address c.port) c

  -- `async_stcp_client_read` is called, with the rest of the answers for the reads after it.
  abbrev pub async_asked : List (List ℕ) → AsyncClient S2c → AsyncClient S2c
  async_asked rs c = calls (reading c.input.size c.input.left) (record c { reads = rs })

module _ {C2s S2c : Type 0} (setup : AsyncSetup C2s S2c) where
  unfoldable pub async_on_disconnected : AsyncClient S2c → AsyncClient S2c
  unfolding async_call_back
  async_on_disconnected c = calls (timer_started reconnect) (
      async_call_back setup (disconnected c.disconnect_reason)
        (setup.on_disconnected c.disconnect_reason) c)

  -- `switch (message_p->messages.choice)`
  unfoldable pub async_handle_choice : S2c → AsyncClient S2c → AsyncClient S2c
  unfolding async_call_back
  async_handle_choice m c =
      if setup.to_client.known m
      then async_call_back setup (Event.received m) (setup.on_message m) c
      else c

  -- From the call of `NAME_server_to_client_decode` on.
  unfoldable pub async_handle_decoded : Option (ℕ × S2c) → ℕ → AsyncClient S2c → AsyncClient S2c
  unfolding async_handle_choice
  async_handle_decoded none size c = disconnect_and_start_reconnect_timer message_decode_error c
  async_handle_decoded (some (res, m)) size c =
      if res == size
      then async_handle_choice m c
      else disconnect_and_start_reconnect_timer message_decode_error c

  unfoldable pub async_handle_message_user : AsyncClient S2c → AsyncClient S2c
  unfolding async_handle_decoded
  async_handle_message_user c =
      let payload = message_payload c.input in
      if setup.to_client.new c.workspace_in_size
      then async_handle_decoded (setup.to_client.decode payload) (c.input.size - header_size) c
      else c

  unfoldable pub async_handle_message : ℕ → AsyncClient S2c → AsyncClient S2c
  unfolding async_handle_message_user async_handle_message_pong
  async_handle_message type c =
      if type == server_to_client_user
      then async_handle_message_user c
      else if type == pong
      then async_handle_message_pong c
      else c

  -- The result is 0 if it is `true`.
  unfoldable pub on_stcp_connected : Bool → AsyncClient S2c → AsyncClient S2c
  unfolding async_call_back
  on_stcp_connected true c =
      async_call_back setup connected setup.on_connected
        (record (calls (timer_started keep_alive) c) { pong_received = true; is_connected = true })
  on_stcp_connected false c = calls (timer_started reconnect) c

  -- The loop's body behind the read, once the bytes are in the buffer.
  unfoldable pub async_after_received : Input × Outcome → AsyncClient S2c → Round (AsyncClient S2c)
  unfolding async_handle_message disconnect_and_start_reconnect_timer
  async_after_received (i, more) c = go_on (record c { input = i })
  async_after_received (i, too_big) c =
      leave (disconnect_and_start_reconnect_timer message_too_big (record c { input = i }))
  async_after_received (i, message) c =
      let c' = async_handle_message (message_type i) (record c { input = i }) in
      go_on (record c' { input = reset_input c'.input })

  -- One round of `while (true)`, with the bytes that were read.
  unfoldable pub async_round : List ℕ → AsyncClient S2c → Round (AsyncClient S2c)
  unfolding async_after_received
  async_round [] c = leave c
  async_round (b ∷ bytes) c = async_after_received (received c.input (b ∷ bytes)) c

  -- The answers of the coming reads are used up one by one; behind them a read gives no bytes.
  unfoldable pub on_stcp_input_loop : List (List ℕ) → AsyncClient S2c → AsyncClient S2c
  unfolding async_round
  on_stcp_input_loop [] c = async_asked [] c
  on_stcp_input_loop (bytes ∷ rs) c = elim (async_round bytes (async_asked rs c)) [
    | go_on c' ↦ on_stcp_input_loop rs c'
    | leave c' ↦ c'
  ]

  unfoldable pub on_stcp_input : AsyncClient S2c → AsyncClient S2c
  unfolding on_stcp_input_loop
  on_stcp_input c = on_stcp_input_loop c.reads c
