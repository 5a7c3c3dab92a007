-- ===== src/Linux/Server/Rules/Events.antt =====
-- The proof rule for what comes from a client of messi/c_source/templates/linux/server.c: the reads and
-- writes of its socket. What each step on the client keeps, and the handling of a decoded message, is
-- kept by all of `process_client_socket`.
use messi.Header.{header_size, header_bytes, header_set_size, blank, pong}
use messi.Base.{
  ℕ, ◌-◌, List, [], ◌∷◌, Bool, true, false, Option, none, some, ◌==◌, if◌then◌else◌, if_cases,
}
use messi.Input.{
  Input, Outcome, more, too_big, message, reset_input, received, message_type, message_payload,
}
use messi.Kernel.{Round, go_on, leave, ReadReply, got, again, failed, closed}
use messi.Linux.Client.Socket.{read_reply}
use messi.Linux.Server.State.{Server}
use messi.Linux.Server.Output.{client_write, process_client_socket_out}
use messi.Linux.Server.Send.{ServerSetup}
use messi.Linux.Server.Messages.{
  set_input, client_reset_input, client_start_keep_alive_timer, handle_message_ping, after_handled,
  server_asked, server_handle_choice, server_handle_decoded, server_handle_message_user,
  server_handle_message, server_after_received, in_round, in_loop, process_client_socket_in,
  process_client_socket,
}
use messi.Linux.Server.Rules.{client_write-KeptAt}
use messi.Linux.Server.Rules.Out.{OutKept, process_client_socket_out-Kept}

pub record EventKept {C2s S2c : Type 0} (setup : ServerSetup C2s S2c) (i : ℕ)
    (P : Server C2s → Type 0) : Type 0 where
  pub out : OutKept i P
  pub by_input : (v : Input) (s : Server C2s) → P s → P (set_input i v s)
  pub by_timer : (s : Server C2s) → P s → P (client_start_keep_alive_timer i s).1
  pub by_read : (rs : List ReadReply) (s : Server C2s) → P s → P (server_asked rs i s)
  pub by_choice : (m : C2s) (s : Server C2s) → P s → P (server_handle_choice setup i m s)

module _ {C2s S2c : Type 0} (setup : ServerSetup C2s S2c) (P : Server C2s → Type 0) (i : ℕ)
    (kept : EventKept setup i P) where
  abbrev ponged : Bool × Server C2s → Bool × Server C2s
  ponged (started, s) =
      if started
      then (
        true,
        client_write i (header_bytes (header_set_size (record blank { type = pong }) 0)) s,
      )
      else (false, s)

  ponged-Kept : (r : Bool × Server C2s) → P r.1 → P (ponged r).1
  ponged-Kept (true, s) h = client_write-KeptAt P i kept.out.client _ s h
  ponged-Kept (false, s) h = h

  handle_message_ping-Kept : (s : Server C2s) → P s → P (handle_message_ping i s).1
  unfolding handle_message_ping
  handle_message_ping-Kept s h = ponged-Kept (client_start_keep_alive_timer i s) (kept.by_timer s h)

  abbrev RoundKeeps : Round (Server C2s) → Type 0
  RoundKeeps (go_on s) = P s
  RoundKeeps (leave s) = P s

  after_handled-Kept : (r : Bool × Server C2s) → P r.1 → RoundKeeps (after_handled i r)
  unfolding after_handled client_reset_input
  after_handled-Kept (true, s) h = kept.by_input (reset_input (s.clients i).input) s h
  after_handled-Kept (false, s) h = kept.out.client.by_disconnect s h

  handle_decoded-Kept :
      (o : Option (ℕ × C2s)) (size : ℕ) (s : Server C2s)
      → P s
      → P (server_handle_decoded setup o size i s).1
  unfolding server_handle_decoded
  handle_decoded-Kept none size s h = h
  handle_decoded-Kept (some (res, m)) size s h =
      if_cases (λ (r : Bool × Server C2s). P r.1) (res == size) _ _ (λ k. kept.by_choice m s h)
        (λ k. h)

  handle_message-Kept :
      (type : ℕ) (s : Server C2s) → P s → P (server_handle_message setup type i s).1
  unfolding server_handle_message server_handle_message_user
  handle_message-Kept type s h =
      let Q : Bool × Server C2s → Type 0 = λ r. P r.1 in
      if_cases Q (type == 1) _ _
        (λ k.
          if_cases Q (setup.to_server.new s.workspace_in_size) _ _
            (λ k'.
              handle_decoded-Kept (setup.to_server.decode (message_payload (s.clients i).input))
                ((s.clients i).input.size - header_size) s h)
            (λ k'. h))
        (λ k. if_cases Q (type == 3) _ _ (λ k'. handle_message_ping-Kept s h) (λ k'. h))

  after_received-Kept :
      (r : Input × Outcome) (s : Server C2s) → P s → RoundKeeps (server_after_received setup i r s)
  unfolding server_after_received
  after_received-Kept (v, more) s h = kept.by_input v s h
  after_received-Kept (v, too_big) s h =
      kept.out.client.by_disconnect (set_input i v s) (kept.by_input v s h)
  after_received-Kept (v, message) s h =
      after_handled-Kept (server_handle_message setup (message_type v) i (set_input i v s))
        (handle_message-Kept (message_type v) (set_input i v s) (kept.by_input v s h))

  in_round-Kept : (r : ReadReply) (s : Server C2s) → P s → RoundKeeps (in_round setup r i s)
  unfolding in_round
  in_round-Kept again s h = h
  in_round-Kept failed s h = kept.out.client.by_disconnect s h
  in_round-Kept closed s h = kept.out.client.by_disconnect s h
  in_round-Kept (got bytes) s h = after_received-Kept (received (s.clients i).input bytes) s h

  last_round-Kept :
      (r : Round (Server C2s)) → RoundKeeps r → P (elim r [ go_on s ↦ s | leave s ↦ s ])
  last_round-Kept (go_on s) h = h
  last_round-Kept (leave s) h = h

  next_rounds-Kept :
      (rs : List ReadReply) (r : Round (Server C2s))
      → ((s : Server C2s) → P s → P (in_loop setup rs i s))
      → RoundKeeps r
      → P (elim r [ go_on s ↦ in_loop setup rs i s | leave s ↦ s ])
  next_rounds-Kept rs (go_on s) ih h = ih s h
  next_rounds-Kept rs (leave s) ih h = h

  in_loop-Kept : (rs : List ReadReply) (s : Server C2s) → P s → P (in_loop setup rs i s)
  unfolding in_loop
  in_loop-Kept [] s h = last_round-Kept _ (
      in_round-Kept (read_reply (s.clients i).client_fd again) (server_asked [] i s)
        (kept.by_read [] s h))
  in_loop-Kept (r ∷ rs) s h = next_rounds-Kept rs _ (in_loop-Kept rs) (
      in_round-Kept (read_reply (s.clients i).client_fd r) (server_asked rs i s)
        (kept.by_read rs s h))

  pub process_client_socket-Kept :
      (out in_ : Bool) (s : Server C2s) → P s → P (process_client_socket setup out in_ i s)
  unfolding process_client_socket process_client_socket_in
  process_client_socket-Kept out in_ s h =
      let s' = if out then process_client_socket_out i s else s in
      let h' : P s' =
        if_cases P out _ _ (λ k. process_client_socket_out-Kept P i kept.out s h) (λ k. h) in
      if_cases P in_ _ _ (λ k. in_loop-Kept s'.world.reads s' h') (λ k. h')
