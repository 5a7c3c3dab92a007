-- ===== src/Linux/Client/Handling.antt =====
-- What `handle_message` of messi/c_source/templates/linux/client.c does with a whole frame.
use messi.Base.{
  ℕ, ◌-◌, ◌≡◌, refl, sym, List, [], ◌∷◌, ◌++◌, Bool, true, false, Option, none, some, arith, ◌==◌,
  if◌then◌else◌, length, drop, append-nil, Bool-cases, inl, inr,
}
use messi.Header.{header_at, server_to_client_user}
use messi.Input.{message_type, message_payload}
use messi.Kernel.{callback, note}
use messi.Protocol.Messages.{decoded, messages_in}
use messi.Linux.Client.State.{Client, Setup, Event, pending_disconnect, call_back}
use messi.Linux.Client.Socket.{
  handle_choice, handle_decoded, handle_message_user, handle_message_pong, handle_message,
}
use messi.Linux.Client.Callbacks.{deliveries, send_each-Quiet}

module _ {C2s S2c : Type 0} (setup : Setup C2s S2c) where
  -- `c'` is `c` after the messages `ms` were handed to the user; nothing else is known of it.
  pub record Hands (c : Client S2c) (ms : List S2c) (c' : Client S2c) : Type 0 where
    pub input : c'.input ≡ c.input
    pub workspace : c'.workspace_in_size ≡ c.workspace_in_size
    pub said : deliveries c'.world.log ≡ deliveries c.world.log ++ ms
    pub pending : c.pending_disconnect ≡ false

  Hands-nothing : (c : Client S2c) → c.pending_disconnect ≡ false → Hands c [] c
  Hands-nothing c up = record {
    input = refl;
    workspace = refl;
    said = sym (append-nil (deliveries c.world.log));
    pending = up;
  }

  handle_choice-Hands :
      (m : S2c) (c : Client S2c)
      → (handle_choice setup m c).pending_disconnect ≡ false
      → Hands c (if setup.to_client.known m then m ∷ [] else []) (handle_choice setup m c)
  unfolding handle_choice call_back note
  handle_choice-Hands m c up = elim (Bool-cases (setup.to_client.known m)) [
    | inl k ↦
        let noted : Client S2c = record c {
          world = record (c.world) { log = callback (Event.received m) ∷ c.world.log };
        } in
        let q = send_each-Quiet setup (setup.on_message m noted) noted in
        rw k (record {
          input = q.input;
          workspace = q.workspace;
          said = q.said;
          pending = q.pending (rw k at up);
        })
    | inr k ↦ rw k (Hands-nothing c (rw k at up))
  ]

  handle_decoded-Hands :
      (r : Option (ℕ × S2c)) (size : ℕ) (c : Client S2c)
      → (handle_decoded setup r size c).pending_disconnect ≡ false
      → Hands c
          (decoded setup.to_client server_to_client_user r size)
          (handle_decoded setup r size c)
  unfolding handle_decoded pending_disconnect
  handle_decoded-Hands none size c up = absurd (ground arith)
  handle_decoded-Hands (some (res, m)) size c up = elim (Bool-cases (res == size)) [
    | inl k ↦ rw k (handle_choice-Hands m c (rw k at up))
    | inr k ↦ absurd (ground arith)
  ]

  handle_message_user-Hands :
      (c : Client S2c) (f : List ℕ)
      → (handle_message_user setup c).pending_disconnect ≡ false
      → message_payload c.input ≡ drop 4 f
      → c.input.size ≡ length f
      → Hands c
          (if setup.to_client.new c.workspace_in_size
            then decoded setup.to_client server_to_client_user
                (setup.to_client.decode (drop 4 f))
                (length f - 4)
            else [])
          (handle_message_user setup c)
  unfolding handle_message_user
  handle_message_user-Hands c f up p s =
      rw (← p, ← s)
        (elim (Bool-cases (setup.to_client.new c.workspace_in_size)) [
          | inl k ↦ rw k (
              handle_decoded-Hands (setup.to_client.decode (message_payload c.input))
                (c.input.size - 4) c (rw k at up))
          | inr k ↦ rw k (Hands-nothing c (rw k at up))
        ])

  other_message-Hands :
      (pong? : Bool) (c : Client S2c)
      → (if pong? then handle_message_pong setup c else c).pending_disconnect ≡ false
      → Hands c [] (if pong? then handle_message_pong setup c else c)
  unfolding handle_message_pong
  other_message-Hands true c up = record {
    input = refl;
    workspace = refl;
    said = sym (append-nil (deliveries c.world.log));
    pending = up;
  }
  other_message-Hands false c up = Hands-nothing c up

  pub handle_message-Hands :
      (c : Client S2c) (f : List ℕ)
      → (handle_message setup (message_type c.input) c).pending_disconnect ≡ false
      → message_type c.input ≡ (header_at f).type
      → message_payload c.input ≡ drop 4 f
      → c.input.size ≡ length f
      → Hands c
          (messages_in setup.to_client server_to_client_user c.workspace_in_size f)
          (handle_message setup (message_type c.input) c)
  unfolding handle_message messages_in
  handle_message-Hands c f up t p s = rw (← t) (elim (Bool-cases (message_type c.input == 2)) [
    | inl k ↦ rw k (handle_message_user-Hands c f (rw k at up) p s)
    | inr k ↦ rw k (other_message-Hands (message_type c.input == 4) c (rw k at up))
  ])

  handle_decoded-input :
      (r : Option (ℕ × S2c)) (size : ℕ) (c : Client S2c)
      → (handle_decoded setup r size c).input ≡ c.input
  unfolding handle_decoded call_back pending_disconnect
  handle_decoded-input none size c = ground arith
  handle_decoded-input (some (res, m)) size c =
      let noted : Client S2c = record c { world = note (callback (Event.received m)) c.world } in
      ground (arith, (send_each-Quiet setup (setup.on_message m noted) noted).input)

  pub handle_message-input :
      (type : ℕ) (c : Client S2c) → (handle_message setup type c).input ≡ c.input
  unfolding handle_message handle_message_user handle_message_pong
  handle_message-input type c = ground (
    arith,
    handle_decoded-input (setup.to_client.decode (message_payload c.input)) (c.input.size - 4) c,
  )

  handle_decoded-workspace :
      (r : Option (ℕ × S2c)) (size : ℕ) (c : Client S2c)
      → (handle_decoded setup r size c).workspace_in_size ≡ c.workspace_in_size
  unfolding handle_decoded call_back pending_disconnect
  handle_decoded-workspace none size c = ground arith
  handle_decoded-workspace (some (res, m)) size c =
      let noted : Client S2c = record c { world = note (callback (Event.received m)) c.world } in
      ground (arith, (send_each-Quiet setup (setup.on_message m noted) noted).workspace)

  pub handle_message-workspace :
      (type : ℕ) (c : Client S2c)
      → (handle_message setup type c).workspace_in_size ≡ c.workspace_in_size
  unfolding handle_message handle_message_user handle_message_pong
  handle_message-workspace type c = ground (
    arith,
    handle_decoded-workspace (setup.to_client.decode (message_payload c.input)) (c.input.size - 4)
        c,
  )
