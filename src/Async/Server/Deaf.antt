-- ===== src/Async/Server/Deaf.antt =====
-- A message that the server of messi/c_source/templates/async/server.c does not handle.
use messi.Base.{
  ℕ, ◌≤◌, ◌≡◌, refl, ap, ◌∙◌, subst, List, [], ◌∷◌, ◌++◌, Bool, true, false, arith, length,
}
use messi.Input.{Outcome, message, received, message_type, message_payload}
use messi.Input.Overrun.{message_left}
use messi.Input.Receive.{Continues, held, received_lem}
use messi.Kernel.{Round, go_on, leave}
use messi.Async.Server.State.{
  AsyncServer, AsyncServerClient, AsyncServerSetup, reading, set_input_of,
}
use messi.Async.Server.Handlers.{
  async_server_asked, async_server_handle_message, async_after_handled, async_server_after_received,
  async_in_round, on_stcp_client_input_loop, on_stcp_client_input,
}
use messi.Async.Server.Handling.{handle_message-Hands}
use messi.Async.Server.Rounds.{input_of, IsListening, set_input_of_at, ServerFitsReads}

module _ {C2s S2c : Type 0} (setup : AsyncServerSetup C2s S2c) (i : ℕ) where
  -- With nothing left to read, input from the client changes nothing.
  nothing_left :
      (rs : List (List ℕ)) (s : AsyncServer C2s)
      → (s.clients i).input.left ≡ 0
      → ServerFitsReads setup i rs s
      → ((on_stcp_client_input_loop setup rs i s).clients ≡ s.clients)
        × ((on_stcp_client_input_loop setup rs i s).log
            ≡ reading i (s.clients i).input.size 0 ∷ s.log)
  unfolding on_stcp_client_input_loop async_in_round
  nothing_left [] s e fits = (refl, rw e)
  nothing_left ([] ∷ rs) s e fits = (refl, rw e)
  nothing_left ((b ∷ bytes) ∷ rs) s e fits = absurd (omega arith)

  after_handled-leave :
      (r : Bool × AsyncServer C2s) → r.0 ≡ false → async_after_handled i r ≡ leave r.1
  unfolding async_after_handled
  after_handled-leave (true, s) h = absurd (cc)
  after_handled-leave (false, s) h = refl

  abbrev loop_after : List (List ℕ) → Round (AsyncServer C2s) → AsyncServer C2s
  loop_after rs (go_on s) = on_stcp_client_input_loop setup rs i s
  loop_after rs (leave s) = s

  -- The result of handling the frame that these bytes complete.
  abbrev pub handled : List ℕ → AsyncServer C2s → Bool × AsyncServer C2s
  handled bytes s =
      let v = (received (input_of i s) bytes).0 in
      async_server_handle_message setup (message_type v) i (set_input_of i v s)

  loop_leaves :
      (b : ℕ) (bytes : List ℕ) (rs : List (List ℕ)) (s : AsyncServer C2s)
      → (received (input_of i s) (b ∷ bytes)).1 ≡ message
      → (handled (b ∷ bytes) (async_server_asked rs i s)).0 ≡ false
      → on_stcp_client_input_loop setup ((b ∷ bytes) ∷ rs) i s
        ≡ (handled (b ∷ bytes) (async_server_asked rs i s)).1
  unfolding on_stcp_client_input_loop async_in_round async_server_after_received
  loop_leaves b bytes rs s m f =
      let asked = async_server_asked rs i s in
      let v = (received (input_of i s) (b ∷ bytes)).0 in
      ap (loop_after rs) (
        ap (λ (o : Outcome). async_server_after_received setup i (v, o) asked) m
        ∙ after_handled-leave (handled (b ∷ bytes) asked) f)

  handled-clients :
      (bytes : List ℕ) (s : AsyncServer C2s)
      → (s.clients i).server_p ≡ true
      → Continues (input_of i s) bytes message (received (input_of i s) bytes).0
      → (handled bytes s).1.clients ≡ (set_input_of i (received (input_of i s) bytes).0 s).clients
  handled-clients bytes s there h =
      let v = (received (input_of i s) bytes).0 in
      let new = set_input_of_at i v s in
      (handle_message-Hands setup i (set_input_of i v s) (held (input_of i s) ++ bytes)
        (message_type v) (ap (λ (c : AsyncServerClient). c.server_p) new ∙ there) h.1
        (ap (λ (c : AsyncServerClient). message_payload c.input) new ∙ h.2)
        (ap (λ (c : AsyncServerClient). c.input.size) new ∙ h.3)).clients

  -- Let a read complete a frame that the server does not handle: its type is not known, or its payload
  -- is not decoded. The loop is left, and the client stays connected with nothing left to read: whatever
  -- it sends afterwards, the server asks for 0 bytes, and neither handles a message, nor answers, nor
  -- disconnects it.
  pub unhandled_message_deafens :
      (b : ℕ) (bytes : List ℕ) (rs later : List (List ℕ)) (s : AsyncServer C2s)
      → s.reads ≡ (b ∷ bytes) ∷ rs
      → (s.clients i).server_p ≡ true
      → IsListening i s
      → length (b ∷ bytes) ≤ (input_of i s).left
      → (received (input_of i s) (b ∷ bytes)).1 ≡ message
      → (handled (b ∷ bytes) (async_server_asked rs i s)).0 ≡ false
      → ServerFitsReads setup i later (record (on_stcp_client_input setup i s) { reads = later })
      → let s1 = on_stcp_client_input setup i s in
        let s2 = on_stcp_client_input setup i (record s1 { reads = later }) in
        (s2.clients ≡ s1.clients) × (s2.log ≡ reading i (input_of i s1).size 0 ∷ s1.log)
  unfolding on_stcp_client_input
  unhandled_message_deafens b bytes rs later s e there ok high m f fits =
      let asked = async_server_asked rs i s in
      let v = (received (input_of i s) (b ∷ bytes)).0 in
      let whole : Continues (input_of i s) (b ∷ bytes) message v =
        subst (λ (o : Outcome). Continues (input_of i s) (b ∷ bytes) o v) m
          (received_lem (input_of i s) (b ∷ bytes) ok (omega arith) high) in
      let s1 = on_stcp_client_input setup i s in
      let ended : s1 ≡ (handled (b ∷ bytes) asked).1 =
        ap (λ (rs' : List (List ℕ)). on_stcp_client_input_loop setup rs' i s) e
        ∙ loop_leaves b bytes rs s m f in
      let none_left : (s1.clients i).input.left ≡ 0 =
        ap (λ (t : AsyncServer C2s). (t.clients i).input.left) ended
        ∙ ap (λ (g : ℕ → AsyncServerClient). (g i).input.left)
            (handled-clients (b ∷ bytes) asked there whole)
        ∙ ap (λ (c : AsyncServerClient). c.input.left) (set_input_of_at i v asked)
        ∙ message_left (input_of i s) (b ∷ bytes) m in
      nothing_left later (record s1 { reads = later }) none_left fits
