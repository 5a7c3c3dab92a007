-- ===== src/Linux/Server/Messages.antt =====
-- The messages from a client: `client_reset_input`, `client_start_keep_alive_timer`, `handle_message`
-- and `process_client_socket` of messi/c_source/templates/linux/server.c.
use messi.Base.{ℕ, ◌-◌, List, [], ◌∷◌, Bool, true, false, Option, none, some, ◌==◌, if◌then◌else◌}
use messi.Header.{
  blank, header_size, header_bytes, header_set_size, client_to_server_user, ping, pong,
}
use messi.Input.{
  Input, Outcome, more, too_big, message, reset_input, received, message_type, message_payload,
}
use messi.Kernel.{
  Round, go_on, leave, ReadReply, got, again, failed, closed, reading, armed, note, attempt,
}
use messi.Linux.Client.Socket.{read_reply}
use messi.Linux.Server.State.{Server, ServerEvent, set_client, client_pending_disconnect}
use messi.Linux.Server.Output.{client_write, process_client_socket_out}
use messi.Linux.Server.Send.{ServerSetup, server_call_back}

module _ {C2s : Type 0} where
  unfoldable pub set_input : ℕ → Input → Server C2s → Server C2s
  unfolding set_client
  set_input i v s = set_client i (record (s.clients i) { input = v }) s

  unfoldable pub client_reset_input : ℕ → Server C2s → Server C2s
  unfolding set_input
  client_reset_input i s = set_input i (reset_input (s.clients i).input) s

  unfoldable pub client_start_keep_alive_timer : ℕ → Server C2s → Bool × Server C2s
  client_start_keep_alive_timer i s =
      let (started, w) = attempt (armed (s.clients i).keep_alive_timer_fd 3) s.world in
      (started, record s { world = w })

  -- The result is whether it is 0. The four bytes of a pong are written.
  unfoldable pub handle_message_ping : ℕ → Server C2s → Bool × Server C2s
  unfolding client_start_keep_alive_timer
  handle_message_ping i s =
      let (started, s') = client_start_keep_alive_timer i s in
      if started
      then (
        true,
        client_write i (header_bytes (header_set_size (record blank { type = pong }) 0)) s',
      )
      else (false, s')

  -- `if (res == 0)`, with the result of `handle_message`.
  unfoldable pub after_handled : ℕ → Bool × Server C2s → Round (Server C2s)
  unfolding client_reset_input
  after_handled i (true, s) = go_on (client_reset_input i s)
  after_handled i (false, s) = leave (client_pending_disconnect i s)

  -- `read` is called, with the rest of the answers for the reads after it.
  abbrev pub server_asked : List ReadReply → ℕ → Server C2s → Server C2s
  server_asked rs i s =
      let c = s.clients i in
      record s {
        world =
            note (reading c.client_fd c.input.size c.input.left) (record (s.world) { reads = rs });
      }

module _ {C2s S2c : Type 0} (setup : ServerSetup C2s S2c) where
  -- `switch (message_p->messages.choice)`, with the current client set and cleared around it.
  unfoldable pub server_handle_choice : ℕ → C2s → Server C2s → Server C2s
  server_handle_choice i m s =
      let s1 = record s { current_client_p = some i } in
      let s2 =
        if setup.to_server.known m
        then server_call_back setup (ServerEvent.received i m) (setup.on_message i m) s1
        else s1 in
      record s2 { current_client_p = none }

  -- From the call of `NAME_client_to_server_decode` on.
  unfoldable pub server_handle_decoded : Option (ℕ × C2s) → ℕ → ℕ → Server C2s → Bool × Server C2s
  unfolding server_handle_choice
  server_handle_decoded none size i s = (false, s)
  server_handle_decoded (some (res, m)) size i s =
      if res == size then (true, server_handle_choice i m s) else (false, s)

  unfoldable pub server_handle_message_user : ℕ → Server C2s → Bool × Server C2s
  unfolding server_handle_decoded
  server_handle_message_user i s =
      let input = (s.clients i).input in
      if setup.to_server.new s.workspace_in_size
      then server_handle_decoded (setup.to_server.decode (message_payload input))
          (input.size - header_size) i s
      else (false, s)

  unfoldable pub server_handle_message : ℕ → ℕ → Server C2s → Bool × Server C2s
  unfolding server_handle_message_user handle_message_ping
  server_handle_message type i s =
      if type == client_to_server_user
      then server_handle_message_user i s
      else if type == ping
      then handle_message_ping i s
      else (false, s)

  -- The loop's body behind `read`, once the bytes are in the buffer.
  unfoldable pub server_after_received : ℕ → Input × Outcome → Server C2s → Round (Server C2s)
  unfolding server_handle_message after_handled set_input
  server_after_received i (v, more) s = go_on (set_input i v s)
  server_after_received i (v, too_big) s = leave (client_pending_disconnect i (set_input i v s))
  server_after_received i (v, message) s =
      after_handled i (server_handle_message (message_type v) i (set_input i v s))

  -- One round of `while (true)`, with the answer of `read`.
  unfoldable pub in_round : ReadReply → ℕ → Server C2s → Round (Server C2s)
  unfolding server_after_received
  in_round again i s = leave s
  in_round failed i s = leave (client_pending_disconnect i s)
  in_round closed i s = leave (client_pending_disconnect i s)
  in_round (got bytes) i s = server_after_received i (received (s.clients i).input bytes) s

  unfoldable pub in_loop : List ReadReply → ℕ → Server C2s → Server C2s
  unfolding in_round
  in_loop [] i s =
      elim (in_round (read_reply (s.clients i).client_fd again) i (server_asked [] i s)) [
        | go_on s' ↦ s'
        | leave s' ↦ s'
      ]
  in_loop (r ∷ rs) i s =
      elim (in_round (read_reply (s.clients i).client_fd r) i (server_asked rs i s)) [
        | go_on s' ↦ in_loop rs i s'
        | leave s' ↦ s'
      ]

  unfoldable pub process_client_socket_in : ℕ → Server C2s → Server C2s
  unfolding in_loop
  process_client_socket_in i s = in_loop s.world.reads i s

  -- The events are `EPOLLOUT` and `EPOLLIN`.
  unfoldable pub process_client_socket : (out in_ : Bool) → ℕ → Server C2s → Server C2s
  unfolding process_client_socket_in process_client_socket_out
  process_client_socket out in_ i s =
      let s' = if out then process_client_socket_out i s else s in
      if in_ then process_client_socket_in i s' else s'
