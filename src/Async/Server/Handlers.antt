-- ===== src/Async/Server/Handlers.antt =====
-- What messi/c_source/templates/async/server.c does when the framework calls it.
use messi.Base.{
  ℕ, ◌-◌, List, [], ◌∷◌, Bool, true, false, Option, none, some, ◌==◌, ◌&&◌, if◌then◌else◌,
}
use messi.Header.{
  blank, header_size, header_bytes, header_set_size, client_to_server_user, ping, pong,
}
use messi.Input.{
  Input, Outcome, more, too_big, message, reset_input, received, message_type, message_payload,
}
use messi.Kernel.{Round, go_on, leave}
use messi.Linux.Server.State.{ServerEvent, client_connected, client_disconnected}
use messi.Async.Server.State.{
  AsyncServer, AsyncServerSetup, timer_started, written, reading, requests, set_input_of,
  async_server_call_back,
}

module _ {C2s : Type 0} where
  unfoldable pub async_client_reset_input : ℕ → AsyncServer C2s → AsyncServer C2s
  unfolding set_input_of
  async_client_reset_input i s = set_input_of i (reset_input (s.clients i).input) s

  unfoldable pub async_handle_message_ping : ℕ → AsyncServer C2s → Bool × AsyncServer C2s
  async_handle_message_ping i s = (
    true,
    requests (written i (header_bytes (header_set_size (record blank { type = pong }) 0)))
        (requests (timer_started i) s),
  )

  -- `async_stcp_server_client_read` is called, with the rest of the answers for the reads after it.
  abbrev pub async_server_asked : List (List ℕ) → ℕ → AsyncServer C2s → AsyncServer C2s
  async_server_asked rs i s =
      let v = (s.clients i).input in requests (reading i v.size v.left) (record s { reads = rs })

  -- `if (res == 0)`: else the loop is left, and the disconnect is commented out.
  unfoldable pub async_after_handled : ℕ → Bool × AsyncServer C2s → Round (AsyncServer C2s)
  unfolding async_client_reset_input
  async_after_handled i (true, s) = go_on (async_client_reset_input i s)
  async_after_handled i (false, s) = leave s

module _ {C2s S2c : Type 0} (setup : AsyncServerSetup C2s S2c) where
  -- The callback is reached through `self_p->server_p`.
  unfoldable pub on_stcp_client_connected : ℕ → AsyncServer C2s → AsyncServer C2s
  unfolding async_client_reset_input async_server_call_back
  on_stcp_client_connected i s =
      let s' = async_client_reset_input i s in
      if (s.clients i).server_p && s.has_on_client_connected
      then async_server_call_back setup (client_connected i) (setup.on_client_connected i) s'
      else record s' { fault = true }

  unfoldable pub on_stcp_client_disconnected : ℕ → AsyncServer C2s → AsyncServer C2s
  unfolding async_server_call_back
  on_stcp_client_disconnected i s =
      if (s.clients i).server_p && s.has_on_client_disconnected
      then async_server_call_back setup (client_disconnected i) (setup.on_client_disconnected i) s
      else record s { fault = true }

  -- `switch (message_p->messages.choice)`, with the current client set and cleared around it.
  unfoldable pub async_server_handle_choice : ℕ → C2s → AsyncServer C2s → AsyncServer C2s
  unfolding async_server_call_back
  async_server_handle_choice i m s =
      let s1 = record s { current_client_p = some i } in
      let s2 =
        if setup.to_server.known m
        then async_server_call_back setup (ServerEvent.received i m) (setup.on_message i m) s1
        else s1 in
      record s2 { current_client_p = none }

  -- From the call of `NAME_client_to_server_decode` on. The result is whether it is 0.
  unfoldable pub async_server_handle_decoded :
      Option (ℕ × C2s) → ℕ → ℕ → AsyncServer C2s → Bool × AsyncServer C2s
  unfolding async_server_handle_choice
  async_server_handle_decoded none size i s = (false, s)
  async_server_handle_decoded (some (res, m)) size i s =
      if res == size then (true, async_server_handle_choice i m s) else (false, s)

  -- The workspace is reached through `server_p`.
  unfoldable pub async_server_handle_message_user : ℕ → AsyncServer C2s → Bool × AsyncServer C2s
  unfolding async_server_handle_decoded
  async_server_handle_message_user i s =
      let input = (s.clients i).input in
      if (s.clients i).server_p
      then (if setup.to_server.new s.workspace_in_size
          then async_server_handle_decoded (setup.to_server.decode (message_payload input))
              (input.size - header_size) i s
          else (false, s))
      else (false, record s { fault = true })

  unfoldable pub async_server_handle_message : ℕ → ℕ → AsyncServer C2s → Bool × AsyncServer C2s
  unfolding async_server_handle_message_user async_handle_message_ping
  async_server_handle_message type i s =
      if type == client_to_server_user
      then async_server_handle_message_user i s
      else if type == ping
      then async_handle_message_ping i s
      else (false, s)

  -- The loop's body behind the read, once the bytes are in the buffer.
  unfoldable pub async_server_after_received :
      ℕ → Input × Outcome → AsyncServer C2s → Round (AsyncServer C2s)
  unfolding async_server_handle_message async_after_handled set_input_of
  async_server_after_received i (v, more) s = go_on (set_input_of i v s)
  async_server_after_received i (v, too_big) s = leave (set_input_of i v s)
  async_server_after_received i (v, message) s =
      async_after_handled i (async_server_handle_message (message_type v) i (set_input_of i v s))

  -- One round of `while (true)`, with the bytes that were read.
  unfoldable pub async_in_round : List ℕ → ℕ → AsyncServer C2s → Round (AsyncServer C2s)
  unfolding async_server_after_received
  async_in_round [] i s = leave s
  async_in_round (b ∷ bytes) i s =
      async_server_after_received i (received (s.clients i).input (b ∷ bytes)) s

  -- The answers of the coming reads are used up one by one; behind them a read gives no bytes.
  unfoldable pub on_stcp_client_input_loop : List (List ℕ) → ℕ → AsyncServer C2s → AsyncServer C2s
  unfolding async_in_round
  on_stcp_client_input_loop [] i s = async_server_asked [] i s
  on_stcp_client_input_loop (bytes ∷ rs) i s =
      elim (async_in_round bytes i (async_server_asked rs i s)) [
        | go_on s' ↦ on_stcp_client_input_loop rs i s'
        | leave s' ↦ s'
      ]

  unfoldable pub on_stcp_client_input : ℕ → AsyncServer C2s → AsyncServer C2s
  unfolding on_stcp_client_input_loop
  on_stcp_client_input i s = on_stcp_client_input_loop s.reads i s
