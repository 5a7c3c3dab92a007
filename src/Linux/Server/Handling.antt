-- ===== src/Linux/Server/Handling.antt =====
-- What `handle_message` of messi/c_source/templates/linux/server.c does with a whole frame.
use messi.Base.{
  ℕ, ◌-◌, ◌≡◌, refl, sym, ap, ◌∙◌, List, [], ◌∷◌, ◌++◌, Bool, true, false, Option, none, some, ◌==◌,
  if◌then◌else◌, length, drop, append-nil, Bool-cases, inl, inr, eq→==,
}
use messi.Header.{header_at, client_to_server_user, blank, header_bytes, header_set_size, pong}
use messi.Input.{message_payload}
use messi.Kernel.{attempt, callback, note}
use messi.Protocol.Messages.{decoded, messages_in}
use messi.Linux.Server.State.{Server, ServerEvent}
use messi.Linux.Server.Output.{client_write}
use messi.Linux.Server.Send.{ServerSetup, server_call_back}
use messi.Linux.Server.Messages.{
  client_start_keep_alive_timer, handle_message_ping, server_handle_choice, server_handle_decoded,
  server_handle_message_user, server_handle_message,
}
use messi.Linux.Server.Rules.{client_write-Kept, act_each-Kept}
use messi.Linux.Server.Spares.{is_open, given_from, Spares, Spares-refl, Spares-Kept}

module _ {C2s : Type 0} (i : ℕ) where
  -- The result of handling a frame with these messages: if it is 0, they were handed to the user.
  pub record Hands (s : Server C2s) (ms : List C2s) (r : Bool × Server C2s) : Type 0 where
    pub input : (r.1.clients i).input ≡ (s.clients i).input
    pub workspace : r.1.workspace_in_size ≡ s.workspace_in_size
    pub said : r.0 ≡ true → given_from i r.1.world.log ≡ given_from i s.world.log ++ ms
    pub up : is_open (r.1.clients i).client_fd ≡ true → is_open (s.clients i).client_fd ≡ true

  Hands-failed : (s : Server C2s) (ms : List C2s) → Hands s ms (false, s)
  Hands-failed s ms = record {
    input = refl;
    workspace = refl;
    said = λ h. absurd (cc);
    up = λ h. h;
  }

  -- Nothing is handed to the user.
  Hands-Spares : (s s' : Server C2s) (b : Bool) → Spares i s s' → Hands s [] (b, s')
  Hands-Spares s s' b h = record {
    input = h.input;
    workspace = h.workspace;
    said = λ e. h.said ∙ sym (append-nil (given_from i s.world.log));
    up = h.up;
  }

  timer-Spares : (s : Server C2s) → Spares i s (client_start_keep_alive_timer i s).1
  unfolding client_start_keep_alive_timer attempt
  timer-Spares s = elim (Bool-cases (s.world.statuses 0)) [
    | inl k ↦ record { input = refl; workspace = refl; said = rw k refl; up = λ h. h }
    | inr k ↦ record { input = refl; workspace = refl; said = rw k refl; up = λ h. h }
  ]

  abbrev ponged : Bool × Server C2s → Bool × Server C2s
  ponged (started, s) =
      if started
      then (
        true,
        client_write i (header_bytes (header_set_size (record blank { type = pong }) 0)) s,
      )
      else (false, s)

  ponged-Hands : (s : Server C2s) (r : Bool × Server C2s) → Spares i s r.1 → Hands s [] (ponged r)
  ponged-Hands s (true, s') h =
      Hands-Spares s _ true (client_write-Kept (Spares i s) (Spares-Kept i s) i _ s' h)
  ponged-Hands s (false, s') h = Hands-Spares s s' false h

  other_message-Hands :
      (ping? : Bool) (s : Server C2s)
      → Hands s [] (if ping? then handle_message_ping i s else (false, s))
  unfolding handle_message_ping
  other_message-Hands true s = ponged-Hands s (client_start_keep_alive_timer i s) (timer-Spares s)
  other_message-Hands false s = Hands-failed s []

module _ {C2s S2c : Type 0} (setup : ServerSetup C2s S2c) (i : ℕ) where
  handle_choice-Hands :
      (m : C2s) (s : Server C2s)
      → Hands i s
          (if setup.to_server.known m then m ∷ [] else [])
          (true, server_handle_choice setup i m s)
  unfolding server_handle_choice server_call_back note
  handle_choice-Hands m s = elim (Bool-cases (setup.to_server.known m)) [
    | inl k ↦
        let s1 : Server C2s = record s { current_client_p = some i } in
        let noted : Server C2s = record s1 {
          world = note (callback (ServerEvent.received i m)) s1.world;
        } in
        let q =
          act_each-Kept (Spares i noted) (Spares-Kept i noted) setup (setup.on_message i m noted)
            noted (Spares-refl i noted) in
        rw k (record {
          input = q.input;
          workspace = q.workspace;
          said = λ h.
              q.said
              ∙ ap (λ (b : Bool). given_from i s.world.log ++ (if b then m ∷ [] else []))
                  (eq→== i i refl);
          up = q.up;
        })
    | inr k ↦ rw k (record {
      input = refl;
      workspace = refl;
      said = λ h. sym (append-nil (given_from i s.world.log));
      up = λ h. h;
    })
  ]

  handle_decoded-Hands :
      (r : Option (ℕ × C2s)) (size : ℕ) (s : Server C2s)
      → Hands i s
          (decoded setup.to_server client_to_server_user r size)
          (server_handle_decoded setup r size i s)
  unfolding server_handle_decoded
  handle_decoded-Hands none size s = Hands-failed i s []
  handle_decoded-Hands (some (res, m)) size s = elim (Bool-cases (res == size)) [
    | inl k ↦ rw k (handle_choice-Hands m s)
    | inr k ↦ rw k (Hands-failed i s [])
  ]

  handle_message_user-Hands :
      (s : Server C2s) (f : List ℕ)
      → message_payload (s.clients i).input ≡ drop 4 f
      → (s.clients i).input.size ≡ length f
      → Hands i s
          (if setup.to_server.new s.workspace_in_size
            then decoded setup.to_server client_to_server_user
                (setup.to_server.decode (drop 4 f))
                (length f - 4)
            else [])
          (server_handle_message_user setup i s)
  unfolding server_handle_message_user
  handle_message_user-Hands s f p n =
      rw (← p, ← n)
        (elim (Bool-cases (setup.to_server.new s.workspace_in_size)) [
          | inl k ↦ rw k (
              handle_decoded-Hands (setup.to_server.decode (message_payload (s.clients i).input))
                ((s.clients i).input.size - 4) s)
          | inr k ↦ rw k (Hands-failed i s [])
        ])

  pub handle_message-Hands :
      (s : Server C2s) (f : List ℕ) (type : ℕ)
      → type ≡ (header_at f).type
      → message_payload (s.clients i).input ≡ drop 4 f
      → (s.clients i).input.size ≡ length f
      → Hands i s
          (messages_in setup.to_server client_to_server_user s.workspace_in_size f)
          (server_handle_message setup type i s)
  unfolding server_handle_message messages_in
  handle_message-Hands s f type t p n = rw (← t) (elim (Bool-cases (type == 1)) [
    | inl k ↦ rw k (handle_message_user-Hands s f p n)
    | inr k ↦ rw k (other_message-Hands i (type == 3) s)
  ])
