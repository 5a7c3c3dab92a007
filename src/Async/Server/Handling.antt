-- ===== src/Async/Server/Handling.antt =====
-- What `handle_message` of messi/c_source/templates/async/server.c does with a whole frame.
use messi.Base.{
  ℕ, ◌-◌, ◌≡◌, refl, sym, ap, ◌∙◌, List, [], ◌∷◌, ◌++◌, Bool, true, false, Option, none, some, ◌==◌,
  if◌then◌else◌, length, drop, append-nil, Bool-cases, inl, inr, eq→==,
}
use messi.Header.{header_at, client_to_server_user}
use messi.Input.{message_payload}
use messi.Protocol.Messages.{decoded, messages_in}
use messi.Linux.Server.State.{ServerEvent}
use messi.Async.Server.State.{
  AsyncServer, AsyncServerSetup, callback, requests, async_server_call_back,
}
use messi.Async.Server.Handlers.{
  async_handle_message_ping, async_server_handle_choice, async_server_handle_decoded,
  async_server_handle_message_user, async_server_handle_message,
}
use messi.Async.Server.Acting.{deliveries_from, act_each-OnlyCalls}

module _ {C2s S2c : Type 0} (setup : AsyncServerSetup C2s S2c) (i : ℕ) where
  -- The result of handling a frame with these messages: if it is 0, they were handed to the user.
  pub record Hands (s : AsyncServer C2s) (ms : List C2s) (r : Bool × AsyncServer C2s) : Type 0 where
    pub clients : r.1.clients ≡ s.clients
    pub workspace : r.1.workspace_in_size ≡ s.workspace_in_size
    pub said : r.0 ≡ true → deliveries_from i r.1.log ≡ deliveries_from i s.log ++ ms

  Hands-failed : (s : AsyncServer C2s) (ms : List C2s) → Hands s ms (false, s)
  Hands-failed s ms = record { clients = refl; workspace = refl; said = λ h. absurd (cc) }

  handle_choice-Hands :
      (m : C2s) (s : AsyncServer C2s)
      → Hands s
          (if setup.to_server.known m then m ∷ [] else [])
          (true, async_server_handle_choice setup i m s)
  unfolding async_server_handle_choice async_server_call_back
  handle_choice-Hands m s = elim (Bool-cases (setup.to_server.known m)) [
    | inl k ↦
        let noted : AsyncServer C2s =
          requests (callback (ServerEvent.received i m)) (record s { current_client_p = some i }) in
        let q = act_each-OnlyCalls setup (setup.on_message i m noted) noted in
        rw k (record {
          clients = ap (λ (t : AsyncServer C2s). t.clients) q.same;
          workspace = ap (λ (t : AsyncServer C2s). t.workspace_in_size) q.same;
          said = λ h.
              q.said i
              ∙ ap (λ (b : Bool). deliveries_from i s.log ++ (if b then m ∷ [] else []))
                  (eq→== i i refl);
        })
    | inr k ↦ rw k (record {
      clients = refl;
      workspace = refl;
      said = λ h. sym (append-nil (deliveries_from i s.log));
    })
  ]

  handle_decoded-Hands :
      (r : Option (ℕ × C2s)) (size : ℕ) (s : AsyncServer C2s)
      → Hands s
          (decoded setup.to_server client_to_server_user r size)
          (async_server_handle_decoded setup r size i s)
  unfolding async_server_handle_decoded
  handle_decoded-Hands none size s = Hands-failed s []
  handle_decoded-Hands (some (res, m)) size s = elim (Bool-cases (res == size)) [
    | inl k ↦ rw k (handle_choice-Hands m s)
    | inr k ↦ rw k (Hands-failed s [])
  ]

  handle_message_user-Hands :
      (s : AsyncServer C2s) (f : List ℕ)
      → (s.clients i).server_p ≡ true
      → message_payload (s.clients i).input ≡ drop 4 f
      → (s.clients i).input.size ≡ length f
      → Hands s
          (if setup.to_server.new s.workspace_in_size
            then decoded setup.to_server client_to_server_user
                (setup.to_server.decode (drop 4 f))
                (length f - 4)
            else [])
          (async_server_handle_message_user setup i s)
  unfolding async_server_handle_message_user
  handle_message_user-Hands s f there p n =
      rw (← p, ← n, there)
        (elim (Bool-cases (setup.to_server.new s.workspace_in_size)) [
          | inl k ↦ rw k (
              handle_decoded-Hands (setup.to_server.decode (message_payload (s.clients i).input))
                ((s.clients i).input.size - 4) s)
          | inr k ↦ rw k (Hands-failed s [])
        ])

  other_message-Hands :
      (ping? : Bool) (s : AsyncServer C2s)
      → Hands s [] (if ping? then async_handle_message_ping i s else (false, s))
  unfolding async_handle_message_ping
  other_message-Hands true s = record {
    clients = refl;
    workspace = refl;
    said = λ h. sym (append-nil (deliveries_from i s.log));
  }
  other_message-Hands false s = Hands-failed s []

  pub handle_message-Hands :
      (s : AsyncServer C2s) (f : List ℕ) (type : ℕ)
      → (s.clients i).server_p ≡ true
      → type ≡ (header_at f).type
      → message_payload (s.clients i).input ≡ drop 4 f
      → (s.clients i).input.size ≡ length f
      → Hands s
          (messages_in setup.to_server client_to_server_user s.workspace_in_size f)
          (async_server_handle_message setup type i s)
  unfolding async_server_handle_message messages_in
  handle_message-Hands s f type there t p n = rw (← t) (elim (Bool-cases (type == 1)) [
    | inl k ↦ rw k (handle_message_user-Hands s f there p n)
    | inr k ↦ rw k (other_message-Hands (type == 3) s)
  ])
