-- ===== src/Async/Client/Handling.antt =====
-- What `handle_message` of messi/c_source/templates/async/client.c does with a whole frame.
use messi.Base.{
  ℕ, ◌-◌, ◌≡◌, refl, sym, ◌∙◌, List, [], ◌∷◌, ◌++◌, Bool, true, false, Option, none, some, arith,
  ◌==◌, if◌then◌else◌, length, drop, append-nil, Bool-cases, inl, inr,
}
use messi.Header.{header_at, header_size, server_to_client_user}
use messi.Input.{message_type, message_payload}
use messi.Protocol.Messages.{decoded, messages_in}
use messi.Reason.{Reason}
use messi.Linux.Client.State.{size_sub, Event, connected, disconnected}
use messi.Async.Client.State.{
  AsyncClient, AsyncSetup, AsyncCall, callback, calls, disconnect_and_start_reconnect_timer,
  async_send_encoded, async_client_send, async_send_each, async_call_back,
}
use messi.Async.Client.Handlers.{
  async_handle_message_pong, async_handle_choice, async_handle_decoded, async_handle_message_user,
  async_handle_message,
}

module _ {S2c : Type 0} where
  abbrev received_of : Event S2c → List S2c
  received_of connected = []
  received_of (disconnected r) = []
  received_of (Event.received m) = m ∷ []

  -- The messages that the user was given, oldest first.
  abbrev pub async_deliveries : List (AsyncCall S2c) → List S2c
  async_deliveries [] = []
  async_deliveries (callback e ∷ log) = async_deliveries log ++ received_of e
  async_deliveries (_ ∷ log) = async_deliveries log

  abbrev pub async_said : AsyncClient S2c → List S2c
  async_said c = async_deliveries c.log

  abbrev pub IsConnected : AsyncClient S2c → Type 0
  IsConnected c = c.is_connected ≡ true

  -- What sending leaves alone. A client that is connected afterwards was connected before.
  pub record Quiet (c c' : AsyncClient S2c) : Type 0 where
    pub input : c'.input ≡ c.input
    pub workspace : c'.workspace_in_size ≡ c.workspace_in_size
    pub said : async_deliveries c'.log ≡ async_deliveries c.log
    pub up : c'.is_connected ≡ true → c.is_connected ≡ true

  pub disconnect-Quiet :
      (r : Reason) (c : AsyncClient S2c) → Quiet c (disconnect_and_start_reconnect_timer r c)
  unfolding disconnect_and_start_reconnect_timer
  disconnect-Quiet r c = ground arith

  pub disconnect-down :
      (r : Reason) (c : AsyncClient S2c)
      → IsConnected (disconnect_and_start_reconnect_timer r c)
      → ⊥
  unfolding disconnect_and_start_reconnect_timer
  disconnect-down r c up = ground arith

  send_encoded-Quiet :
      (o : Option (List ℕ)) (c : AsyncClient S2c) → Quiet c (async_send_encoded o c)
  unfolding async_send_encoded
  send_encoded-Quiet none c = disconnect-Quiet _ c
  send_encoded-Quiet (some p) c = record {
    input = refl;
    workspace = refl;
    said = refl;
    up = λ h. h;
  }

module _ {C2s S2c : Type 0} (setup : AsyncSetup C2s S2c) where
  pub send_each-Quiet : (ms : List C2s) (c : AsyncClient S2c) → Quiet c (async_send_each setup ms c)
  unfolding async_send_each async_client_send
  send_each-Quiet [] c = record { input = refl; workspace = refl; said = refl; up = λ h. h }
  send_each-Quiet (m ∷ ms) c =
      let q =
        send_encoded-Quiet (setup.to_server.encode m (size_sub c.encoded_out_size header_size)) c in
      let r = send_each-Quiet ms (async_client_send setup m c) in
      record {
        input = r.input ∙ q.input;
        workspace = r.workspace ∙ q.workspace;
        said = r.said ∙ q.said;
        up = λ h. q.up (r.up h);
      }

  -- `c'` is `c` after the messages `ms` were handed to the user.
  pub record Hands (c : AsyncClient S2c) (ms : List S2c) (c' : AsyncClient S2c) : Type 0 where
    pub input : c'.input ≡ c.input
    pub workspace : c'.workspace_in_size ≡ c.workspace_in_size
    pub said : c'.is_connected ≡ true → async_deliveries c'.log ≡ async_deliveries c.log ++ ms
    pub up : c'.is_connected ≡ true → c.is_connected ≡ true

  Hands-nothing : (c : AsyncClient S2c) → Hands c [] c
  Hands-nothing c = record {
    input = refl;
    workspace = refl;
    said = λ h. sym (append-nil (async_deliveries c.log));
    up = λ h. h;
  }

  Hands-disconnect :
      (r : Reason) (c : AsyncClient S2c) (ms : List S2c)
      → Hands c ms (disconnect_and_start_reconnect_timer r c)
  Hands-disconnect r c ms =
      let q = disconnect-Quiet r c in
      record {
        input = q.input;
        workspace = q.workspace;
        said = λ up. absurd (disconnect-down r c up);
        up = q.up;
      }

  handle_choice-Hands :
      (m : S2c) (c : AsyncClient S2c)
      → Hands c (if setup.to_client.known m then m ∷ [] else []) (async_handle_choice setup m c)
  unfolding async_handle_choice async_call_back
  handle_choice-Hands m c = elim (Bool-cases (setup.to_client.known m)) [
    | inl k ↦
        let noted : AsyncClient S2c = calls (callback (Event.received m)) c in
        let q = send_each-Quiet (setup.on_message m noted) noted in
        rw k (record { input = q.input; workspace = q.workspace; said = λ up. q.said; up = q.up })
    | inr k ↦ rw k (Hands-nothing c)
  ]

  handle_decoded-Hands :
      (r : Option (ℕ × S2c)) (size : ℕ) (c : AsyncClient S2c)
      → Hands c
          (decoded setup.to_client server_to_client_user r size)
          (async_handle_decoded setup r size c)
  unfolding async_handle_decoded
  handle_decoded-Hands none size c = Hands-disconnect _ c []
  handle_decoded-Hands (some (res, m)) size c = elim (Bool-cases (res == size)) [
    | inl k ↦ rw k (handle_choice-Hands m c)
    | inr k ↦ rw k (Hands-disconnect _ c [])
  ]

  handle_message_user-Hands :
      (c : AsyncClient S2c) (f : List ℕ)
      → message_payload c.input ≡ drop 4 f
      → c.input.size ≡ length f
      → Hands c
          (if setup.to_client.new c.workspace_in_size
            then decoded setup.to_client server_to_client_user
                (setup.to_client.decode (drop 4 f))
                (length f - 4)
            else [])
          (async_handle_message_user setup c)
  unfolding async_handle_message_user
  handle_message_user-Hands c f p s =
      rw (← p, ← s)
        (elim (Bool-cases (setup.to_client.new c.workspace_in_size)) [
          | inl k ↦ rw k (
              handle_decoded-Hands (setup.to_client.decode (message_payload c.input))
                (c.input.size - 4) c)
          | inr k ↦ rw k (Hands-nothing c)
        ])

  other_message-Hands :
      (pong? : Bool) (c : AsyncClient S2c)
      → Hands c [] (if pong? then async_handle_message_pong c else c)
  unfolding async_handle_message_pong
  other_message-Hands true c = record {
    input = refl;
    workspace = refl;
    said = λ h. sym (append-nil (async_deliveries c.log));
    up = λ h. h;
  }
  other_message-Hands false c = Hands-nothing c

  pub handle_message-Hands :
      (c : AsyncClient S2c) (f : List ℕ)
      → message_type c.input ≡ (header_at f).type
      → message_payload c.input ≡ drop 4 f
      → c.input.size ≡ length f
      → Hands c
          (messages_in setup.to_client server_to_client_user c.workspace_in_size f)
          (async_handle_message setup (message_type c.input) c)
  unfolding async_handle_message messages_in
  handle_message-Hands c f t p s = rw (← t) (elim (Bool-cases (message_type c.input == 2)) [
    | inl k ↦ rw k (handle_message_user-Hands c f p s)
    | inr k ↦ rw k (other_message-Hands (message_type c.input == 4) c)
  ])
