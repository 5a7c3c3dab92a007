-- ===== src/Async/Server/Rounds.antt =====
-- What one round of the loop of `on_stcp_client_input` of messi/c_source/templates/async/server.c does,
-- compared with the stream of bytes.
use messi.Base.{
  ℕ, ◌+◌, ◌≤◌, ◌<◌, ◌≡◌, refl, sym, ap, ◌∙◌, subst, List, [], ◌∷◌, ◌++◌, Bool, true, false, arith,
  length, eq→==,
}
use messi.Header.{client_to_server_user}
use messi.Input.{
  Input, Outcome, more, too_big, message, reset_input, received, message_type, message_payload,
}
use messi.Input.Overrun.{too_big_overruns, message_left}
use messi.Input.Receive.{IsReading, Continues, held, reset_input-IsReading, room_for_header}
use messi.Input.Reading.{Reads, Reads-more, Reads-message, RoundReads}
use messi.Kernel.{Round, go_on, leave}
use messi.Protocol.Messages.{messages_in}
use messi.Async.Server.State.{AsyncServer, AsyncServerSetup, AsyncServerClient, set_input_of}
use messi.Async.Server.Handlers.{
  async_client_reset_input, async_server_asked, async_server_handle_message, async_after_handled,
  async_server_after_received, async_in_round,
}
use messi.Async.Server.Acting.{deliveries_from}
use messi.Async.Server.Handling.{Hands, handle_message-Hands}

-- What ends the reading of a client: the count that is left reaches past the buffer, or is 0 until the
-- input is reset.
abbrev pub Ends : Outcome → Input → Type 0
Ends more v = Unit
Ends too_big v = v.buf_size < v.size + v.left
Ends message v = v.left ≡ 0

pub received-Ends :
    (v : Input) (bytes : List ℕ) (o : Outcome)
    → IsReading v
    → length bytes ≤ v.left
    → (received v bytes).1 ≡ o
    → Ends o (received v bytes).0
received-Ends v bytes more ok high e = tt
received-Ends v bytes too_big ok high e = too_big_overruns v bytes ok high e
received-Ends v bytes message ok high e = message_left v bytes e

module _ {C2s : Type 0} (i : ℕ) where
  abbrev pub input_of : AsyncServer C2s → Input
  input_of s = (s.clients i).input

  abbrev pub said_by : AsyncServer C2s → List C2s
  said_by s = deliveries_from i s.log

  -- The input of the client is between two reads.
  abbrev pub IsListening : AsyncServer C2s → Type 0
  IsListening s = IsReading (s.clients i).input

  pub set_input_of_at :
      (v : Input) (s : AsyncServer C2s)
      → (set_input_of i v s).clients i ≡ record (s.clients i) { input = v }
  unfolding set_input_of
  set_input_of_at v s = rw (eq→== i i refl)

module _ {C2s S2c : Type 0} (setup : AsyncServerSetup C2s S2c) (i : ℕ) where
  -- The bytes that a run of the loop reads, and the contract of the read, which gives no more bytes
  -- than it is asked for.
  abbrev pub server_bytes_read : List (List ℕ) → List ℕ
  server_bytes_read [] = []
  server_bytes_read ([] ∷ rs) = []
  server_bytes_read ((b ∷ bytes) ∷ rs) = (b ∷ bytes) ++ server_bytes_read rs

  abbrev pub ServerFitsRound : (AsyncServer C2s → Type 0) → Round (AsyncServer C2s) → Type 0
  ServerFitsRound P (go_on s) = P s
  ServerFitsRound P (leave s) = Unit

  abbrev pub ServerFitsReads : List (List ℕ) → AsyncServer C2s → Type 0
  ServerFitsReads [] s = Unit
  ServerFitsReads ([] ∷ rs) s = Unit
  ServerFitsReads ((b ∷ bytes) ∷ rs) s =
      (length (b ∷ bytes) ≤ (s.clients i).input.left)
      × ServerFitsRound (ServerFitsReads rs)
          (async_in_round setup (b ∷ bytes) i (async_server_asked rs i s))

  module _ (w : ℕ) where
    abbrev pub IsFixed : AsyncServer C2s → Type 0
    IsFixed s = ((s.clients i).server_p ≡ true) × (s.workspace_in_size ≡ w)

    abbrev pub ServerReads : AsyncServer C2s → List ℕ → List (List ℕ) → AsyncServer C2s → Type 0
    ServerReads =
        Reads (input_of i) (said_by i) (IsListening i) IsFixed
          (messages_in setup.to_server client_to_server_user w)

    abbrev pub Done : AsyncServer C2s → List ℕ → Round (AsyncServer C2s) → Type 0
    Done =
        RoundReads (input_of i) (said_by i) (IsListening i) IsFixed
          (messages_in setup.to_server client_to_server_user w)

    after_handled-Done :
        (s : AsyncServer C2s) (bytes : List ℕ) (v : Input) (r : Bool × AsyncServer C2s)
        → IsFixed s
        → IsReading (input_of i s)
        → Continues (input_of i s) bytes message v
        → v.left ≡ 0
        → Hands setup i
            (set_input_of i v s)
            (messages_in setup.to_server client_to_server_user w (held (input_of i s) ++ bytes))
            r
        → Done s bytes (async_after_handled i r)
    unfolding async_after_handled async_client_reset_input
    after_handled-Done s bytes v (true, s') (there, e) ok h none_left hands =
        let held_v : s'.clients i ≡ record (s.clients i) { input = v } =
          ap (λ (f : ℕ → AsyncServerClient). f i) hands.clients ∙ set_input_of_at i v s in
        let d = set_input_of i (reset_input (s'.clients i).input) s' in
        let reset : input_of i d ≡ reset_input v =
          ap (λ (c : AsyncServerClient). c.input)
            (set_input_of_at i (reset_input (s'.clients i).input) s')
          ∙ ap (λ (c : AsyncServerClient). reset_input c.input) held_v in
        let fixed : IsFixed d = (
          ap (λ (c : AsyncServerClient). c.server_p)
                (set_input_of_at i (reset_input (s'.clients i).input) s')
              ∙ ap (λ (c : AsyncServerClient). c.server_p) held_v
              ∙ there,
          hands.workspace ∙ e,
        ) in
        (
          subst IsReading (sym reset)
              (reset_input-IsReading v h.4 (omega (arith, h.5, room_for_header ok))),
          fixed,
          λ up. (
            (held (input_of i s) ++ bytes) ∷ [],
            Reads-message _ _ _ _ _ s d bytes v ok h reset (hands.said refl) fixed ok,
          ),
        )
    after_handled-Done s bytes v (false, s') fixed ok h none_left hands = λ up.
        let gone : (s'.clients i).input.left ≡ v.left =
          ap (λ (f : ℕ → AsyncServerClient). (f i).input.left) hands.clients
          ∙ ap (λ (c : AsyncServerClient). c.input.left) (set_input_of_at i v s) in
        absurd (omega (arith, none_left, gone, up.waits))

    pub after_received-Done :
        (s : AsyncServer C2s) (bytes : List ℕ) (o : Outcome) (v : Input)
        → IsFixed s
        → IsReading (input_of i s)
        → Continues (input_of i s) bytes o v
        → Ends o v
        → Done s bytes (async_server_after_received setup i (v, o) s)
    unfolding async_server_after_received
    after_received-Done s bytes more v (there, e) ok h ends =
        let s' = set_input_of i v s in
        let new = set_input_of_at i v s in
        let kept : input_of i s' ≡ v = ap (λ (c : AsyncServerClient). c.input) new in
        let fixed : IsFixed s' = (ap (λ (c : AsyncServerClient). c.server_p) new ∙ there, e) in
        (
          subst IsReading (sym kept) h.0,
          fixed,
          λ up. ([], Reads-more _ _ _ _ _ s s' bytes v h kept refl fixed ok),
        )
    after_received-Done s bytes too_big v fixed ok h ends = λ up.
        let big : IsReading v =
          subst IsReading (ap (λ (c : AsyncServerClient). c.input) (set_input_of_at i v s)) up in
        absurd (omega (arith, big.room))
    after_received-Done s bytes message v (there, e) ok h ends =
        let s1 = set_input_of i v s in
        let new : s1.clients i ≡ record (s.clients i) { input = v } = set_input_of_at i v s in
        let kept : input_of i s1 ≡ v = ap (λ (c : AsyncServerClient). c.input) new in
        after_handled-Done s bytes v (async_server_handle_message setup (message_type v) i s1)
          (there, e) ok h ends
          (subst
            (λ (n : ℕ).
              Hands setup i s1
                (messages_in setup.to_server client_to_server_user n (held (input_of i s) ++ bytes))
                (async_server_handle_message setup (message_type v) i s1))
            e
            (handle_message-Hands setup i s1 (held (input_of i s) ++ bytes) (message_type v)
              (ap (λ (c : AsyncServerClient). c.server_p) new ∙ there) h.1
              (ap message_payload kept ∙ h.2) (ap (λ (j : Input). j.size) kept ∙ h.3)))
