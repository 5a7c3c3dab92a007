-- ===== src/Linux/Client/Rules.antt =====
-- Proof rules for messi/c_source/templates/linux/client.c: a predicate that calls, a pending disconnect,
-- and writes to the input and to `pong_received` keep is kept by sending, by the user's callbacks, and by
-- all that comes from the server or from the keep alive timer.
use messi.Base.{ℕ, ◌-◌, List, [], ◌∷◌, Bool, true, Option, none, some, ◌==◌, length, if_cases}
use messi.Header.{header_size, blank, header_create, header_bytes, ping}
use messi.Input.{Input, Outcome, more, too_big, message, received, message_type, message_payload}
use messi.Kernel.{
  Round, go_on, leave, World, ReadReply, got, again, failed, closed, callback, note, check, write,
}
use messi.Reason.{Reason, general_error}
use messi.Linux.Client.State.{
  Client, Setup, Event, pending_disconnect, wrote_all, write_all, send_encoded, client_send,
  send_each, call_back,
}
use messi.Linux.Client.Socket.{
  read_reply, handle_choice, handle_decoded, handle_message_user, handle_message_pong,
  handle_message, after_received, asked, round, process_socket_loop, process_socket,
}
use messi.Linux.Client.Connect.{start_keep_alive_timer, send_ping, process_keep_alive_timer}

pub record ClientKept {S2c : Type 0} (P : Client S2c → Type 0) : Type 0 where
  pub by_call : (c : Client S2c) (w : World (Event S2c)) → P c → P (record c { world = w })
  pub by_disconnect : (r : Reason) (c : Client S2c) → P c → P (pending_disconnect r c)
  pub by_input : (v : Input) (c : Client S2c) → P c → P (record c { input = v })
  pub by_pong : (b : Bool) (c : Client S2c) → P c → P (record c { pong_received = b })

module _ {S2c : Type 0} (P : Client S2c → Type 0) (kept : ClientKept P) where
  write_all-Kept : (bytes : List ℕ) (r : Reason) (c : Client S2c) → P c → P (write_all bytes r c).1
  unfolding write_all
  write_all-Kept bytes r c h =
      let (reply, w) = write c.server_fd bytes c.world in
      let c' : Client S2c = record c { world = w } in
      if_cases (λ (x : Bool × Client S2c). P x.1) (wrote_all reply (length bytes)) _ _
        (λ k. kept.by_call c w h) (λ k. kept.by_disconnect r c' (kept.by_call c w h))

  send_encoded-Kept : (o : Option (List ℕ)) (c : Client S2c) → P c → P (send_encoded o c)
  unfolding send_encoded
  send_encoded-Kept none c h = kept.by_disconnect _ c h
  send_encoded-Kept (some payload) c h = write_all-Kept _ _ c h

  timer_started-Kept : (c : Client S2c) → P c → P (start_keep_alive_timer c).1
  unfolding start_keep_alive_timer
  timer_started-Kept c h = kept.by_call c _ h

  send_ping-Kept : (c : Client S2c) → P c → P (send_ping c)
  unfolding send_ping
  send_ping-Kept c h =
      let (started, c') = start_keep_alive_timer c in
      let h' = timer_started-Kept c h in
      let ping_bytes = header_bytes (header_create blank ping 0) in
      let (whole, c'') = write_all ping_bytes general_error c' in
      let h'' = write_all-Kept ping_bytes general_error c' h' in
      if_cases P started _ _ (λ k. if_cases P whole _ _ (λ k'. kept.by_pong _ c'' h'') (λ k'. h''))
        (λ k. kept.by_disconnect _ c' h')

  pub process_keep_alive_timer-Kept : (c : Client S2c) → P c → P (process_keep_alive_timer c)
  unfolding process_keep_alive_timer
  process_keep_alive_timer-Kept c h =
      let (expired, w) = check c.world in
      let c' : Client S2c = record c { world = w } in
      let h' = kept.by_call c w h in
      if_cases P expired _ _
        (λ k.
          if_cases P c.pong_received _ _ (λ k'. send_ping-Kept c' h')
            (λ k'. kept.by_disconnect _ c' h'))
        (λ k. kept.by_disconnect _ c' h')

  module _ {C2s : Type 0} (setup : Setup C2s S2c) where
    send_each-Kept : (ms : List C2s) (c : Client S2c) → P c → P (send_each setup ms c)
    unfolding send_each client_send
    send_each-Kept [] c h = h
    send_each-Kept (m ∷ ms) c h =
        send_each-Kept ms (client_send setup m c) (send_encoded-Kept _ c h)

    pub call_back-Kept :
        (e : Event S2c) (sends : Client S2c → List C2s) (c : Client S2c)
        → P c
        → P (call_back setup e sends c)
    unfolding call_back
    call_back-Kept e sends c h =
        let c' : Client S2c = record c { world = note (callback e) c.world } in
        send_each-Kept (sends c') c' (kept.by_call c _ h)

    handle_decoded-Kept :
        (o : Option (ℕ × S2c)) (size : ℕ) (c : Client S2c) → P c → P (handle_decoded setup o size c)
    unfolding handle_decoded handle_choice
    handle_decoded-Kept none size c h = kept.by_disconnect _ c h
    handle_decoded-Kept (some (res, m)) size c h =
        if_cases P (res == size) _ _
          (λ k.
            if_cases P (setup.to_client.known m) _ _
              (λ k'. call_back-Kept (Event.received m) (setup.on_message m) c h) (λ k'. h))
          (λ k. kept.by_disconnect _ c h)

    handle_message-Kept : (type : ℕ) (c : Client S2c) → P c → P (handle_message setup type c)
    unfolding handle_message handle_message_user handle_message_pong
    handle_message-Kept type c h =
        if_cases P (type == 2) _ _
          (λ k.
            if_cases P (setup.to_client.new c.workspace_in_size) _ _
              (λ k'.
                handle_decoded-Kept (setup.to_client.decode (message_payload c.input))
                  (c.input.size - header_size) c h)
              (λ k'. h))
          (λ k. if_cases P (type == 4) _ _ (λ k'. kept.by_pong true c h) (λ k'. h))

    abbrev RoundKeeps : Round (Client S2c) → Type 0
    RoundKeeps (go_on c) = P c
    RoundKeeps (leave c) = P c

    after_received-Kept :
        (r : Input × Outcome) (c : Client S2c) → P c → RoundKeeps (after_received setup r c)
    unfolding after_received
    after_received-Kept (v, more) c h = kept.by_input v c h
    after_received-Kept (v, too_big) c h =
        kept.by_disconnect _ (record c { input = v }) (kept.by_input v c h)
    after_received-Kept (v, message) c h =
        kept.by_input _ (handle_message setup (message_type v) (record c { input = v }))
          (handle_message-Kept (message_type v) (record c { input = v }) (kept.by_input v c h))

    round-Kept : (r : ReadReply) (c : Client S2c) → P c → RoundKeeps (round setup r c)
    unfolding round
    round-Kept again c h = h
    round-Kept failed c h = kept.by_disconnect _ c h
    round-Kept closed c h = kept.by_disconnect _ c h
    round-Kept (got bytes) c h = after_received-Kept (received c.input bytes) c h

    last_round-Kept :
        (r : Round (Client S2c)) → RoundKeeps r → P (elim r [ go_on c ↦ c | leave c ↦ c ])
    last_round-Kept (go_on c) h = h
    last_round-Kept (leave c) h = h

    next_rounds-Kept :
        (rs : List ReadReply) (r : Round (Client S2c))
        → ((c : Client S2c) → P c → P (process_socket_loop setup rs c))
        → RoundKeeps r
        → P (elim r [ go_on c ↦ process_socket_loop setup rs c | leave c ↦ c ])
    next_rounds-Kept rs (go_on c) ih h = ih c h
    next_rounds-Kept rs (leave c) ih h = h

    loop-Kept : (rs : List ReadReply) (c : Client S2c) → P c → P (process_socket_loop setup rs c)
    unfolding process_socket_loop
    loop-Kept [] c h =
        last_round-Kept _
          (round-Kept (read_reply c.server_fd again) (asked setup [] c) (kept.by_call c _ h))
    loop-Kept (r ∷ rs) c h =
        next_rounds-Kept rs _ (loop-Kept rs)
          (round-Kept (read_reply c.server_fd r) (asked setup rs c) (kept.by_call c _ h))

    pub process_socket-Kept : (c : Client S2c) → P c → P (process_socket setup c)
    unfolding process_socket
    process_socket-Kept c h = loop-Kept c.world.reads c h
