-- ===== src/Linux/Client/Socket.antt =====
-- The messages from the server: `process_socket` of messi/c_source/templates/linux/client.c and what
-- it calls.
use messi.Base.{ℕ, ◌-◌, List, [], ◌∷◌, true, Option, none, some, ◌==◌, if◌then◌else◌}
use messi.Header.{header_size, server_to_client_user, pong}
use messi.Input.{
  Input, Outcome, more, too_big, message, reset_input, received, message_type, message_payload,
}
use messi.Kernel.{Round, go_on, leave, Fd, ReadReply, got, again, failed, closed, reading, note}
use messi.Reason.{message_decode_error, message_too_big, connection_closed}
use messi.Linux.Client.State.{Client, Setup, Event, pending_disconnect, call_back}

-- `read`: what a socket answers, or `EBADF` on the descriptor -1.
abbrev pub read_reply : Fd → ReadReply → ReadReply
read_reply none r = failed
read_reply (some fd) r = r

module _ {C2s S2c : Type 0} (setup : Setup C2s S2c) where
  -- `switch (message_p->messages.choice)`
  unfoldable pub handle_choice : S2c → Client S2c → Client S2c
  handle_choice m c =
      if setup.to_client.known m
      then call_back setup (Event.received m) (setup.on_message m) c
      else c

  -- From the call of `NAME_server_to_client_decode` on.
  unfoldable pub handle_decoded : Option (ℕ × S2c) → ℕ → Client S2c → Client S2c
  unfolding handle_choice
  handle_decoded none size c = pending_disconnect message_decode_error c
  handle_decoded (some (res, m)) size c =
      if res == size then handle_choice m c else pending_disconnect message_decode_error c

  unfoldable pub handle_message_user : Client S2c → Client S2c
  unfolding handle_decoded
  handle_message_user c =
      let payload = message_payload c.input in
      if setup.to_client.new c.workspace_in_size
      then handle_decoded (setup.to_client.decode payload) (c.input.size - header_size) c
      else c

  unfoldable pub handle_message_pong : Client S2c → Client S2c
  handle_message_pong c = record c { pong_received = true }

  unfoldable pub handle_message : ℕ → Client S2c → Client S2c
  unfolding handle_message_user handle_message_pong
  handle_message type c =
      if type == server_to_client_user
      then handle_message_user c
      else if type == pong
      then handle_message_pong c
      else c

  -- The loop's body behind `read`, once the bytes are in the buffer.
  unfoldable pub after_received : Input × Outcome → Client S2c → Round (Client S2c)
  unfolding handle_message
  after_received (i, more) c = go_on (record c { input = i })
  after_received (i, too_big) c =
      leave (pending_disconnect message_too_big (record c { input = i }))
  after_received (i, message) c =
      let c' = handle_message (message_type i) (record c { input = i }) in
      go_on (record c' { input = reset_input c'.input })

  -- `read` is called, with the rest of the answers for the reads after it.
  abbrev pub asked : List ReadReply → Client S2c → Client S2c
  asked rs c = record c {
    world = note (reading c.server_fd c.input.size c.input.left) (record (c.world) { reads = rs });
  }

  -- One round of `while (true)`, with the answer of `read`.
  unfoldable pub round : ReadReply → Client S2c → Round (Client S2c)
  unfolding after_received
  round again c = leave c
  round failed c = leave (pending_disconnect connection_closed c)
  round closed c = leave (pending_disconnect connection_closed c)
  round (got bytes) c = after_received (received c.input bytes) c

  -- The answers of the coming reads are used up one by one; behind them `read` says `EAGAIN`.
  unfoldable pub process_socket_loop : List ReadReply → Client S2c → Client S2c
  unfolding round
  process_socket_loop [] c = elim (round (read_reply c.server_fd again) (asked [] c)) [
    | go_on c' ↦ c'
    | leave c' ↦ c'
  ]
  process_socket_loop (r ∷ rs) c = elim (round (read_reply c.server_fd r) (asked rs c)) [
    | go_on c' ↦ process_socket_loop rs c'
    | leave c' ↦ c'
  ]

  unfoldable pub process_socket : Client S2c → Client S2c
  unfolding process_socket_loop
  process_socket c = process_socket_loop c.world.reads c
