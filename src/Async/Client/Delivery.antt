-- ===== src/Async/Client/Delivery.antt =====
-- In-order delivery by the async client: what `on_stcp_input` of
-- messi/c_source/templates/async/client.c hands to the user, compared with the stream of bytes.
use messi.Base.{
  ℕ, ◌≤◌, ◌≡◌, refl, sym, ap, ◌∙◌, subst, List, [], ◌∷◌, ◌++◌, true, arith, length, All,
}
use messi.Header.{server_to_client_user}
use messi.Input.{Input, Outcome, more, too_big, message, reset_input, received, message_type}
use messi.Input.Frames.{concat}
use messi.Input.Receive.{
  IsReading, Continues, held, received_lem, reset_input-IsReading, room_for_header,
}
use messi.Input.Reading.{
  Reads, Reads-nothing, Reads-more, Reads-message, RoundReads, RoundReads-then, Reads-frames,
  Reads-trans,
}
use messi.Kernel.{Round, go_on, leave}
use messi.Protocol.{CodecLaws}
use messi.Protocol.Messages.{
  Encoded, frames_sent, messages_sent, messages_in, messages_in-sent, frames_sent-IsFrame,
}
use messi.Async.Client.State.{AsyncClient, AsyncSetup}
use messi.Async.Client.Handlers.{
  async_handle_message, async_after_received, async_asked, async_round, on_stcp_input_loop,
  on_stcp_input,
}
use messi.Async.Client.Handling.{async_said, IsConnected, disconnect-down, handle_message-Hands}

module _ {C2s S2c : Type 0} (setup : AsyncSetup C2s S2c) where
  -- The bytes that a run of the loop reads, and the contract of the read, which gives no more bytes
  -- than it is asked for.
  abbrev pub async_bytes_read : List (List ℕ) → List ℕ
  async_bytes_read [] = []
  async_bytes_read ([] ∷ rs) = []
  async_bytes_read ((b ∷ bytes) ∷ rs) = (b ∷ bytes) ++ async_bytes_read rs

  abbrev pub AsyncFitsRound : (AsyncClient S2c → Type 0) → Round (AsyncClient S2c) → Type 0
  AsyncFitsRound P (go_on c) = P c
  AsyncFitsRound P (leave c) = Unit

  abbrev pub AsyncFitsReads : List (List ℕ) → AsyncClient S2c → Type 0
  AsyncFitsReads [] c = Unit
  AsyncFitsReads ([] ∷ rs) c = Unit
  AsyncFitsReads ((b ∷ bytes) ∷ rs) c =
      (length (b ∷ bytes) ≤ c.input.left)
      × AsyncFitsRound (AsyncFitsReads rs) (async_round setup (b ∷ bytes) (async_asked rs c))

  module _ (w : ℕ) where
    abbrev AsyncReads : AsyncClient S2c → List ℕ → List (List ℕ) → AsyncClient S2c → Type 0
    AsyncReads =
        Reads (λ c. c.input) async_said IsConnected (λ c. c.workspace_in_size ≡ w)
          (messages_in setup.to_client server_to_client_user w)

    abbrev Done : AsyncClient S2c → List ℕ → Round (AsyncClient S2c) → Type 0
    Done =
        RoundReads (λ c. c.input) async_said IsConnected (λ c. c.workspace_in_size ≡ w)
          (messages_in setup.to_client server_to_client_user w)

    after_received-Done :
        (c : AsyncClient S2c) (bytes : List ℕ) (o : Outcome) (i : Input)
        → c.workspace_in_size ≡ w
        → IsReading c.input
        → Continues c.input bytes o i
        → Done c bytes (async_after_received setup (i, o) c)
    unfolding async_after_received
    after_received-Done c bytes more i e ok h = (
      h.0,
      e,
      λ up. ([], Reads-more _ _ _ _ _ c (record c { input = i }) bytes i h refl refl e up),
    )
    after_received-Done c bytes too_big i e ok h = disconnect-down _ (record c { input = i })
    after_received-Done c bytes message i e ok (frame, t, p, s, storage, same) =
        let c' : AsyncClient S2c = record c { input = i } in
        let hands = handle_message-Hands setup c' (held c.input ++ bytes) t p s in
        let d = async_handle_message setup (message_type i) c' in
        let d' : AsyncClient S2c = record d { input = reset_input d.input } in
        let fixed : d'.workspace_in_size ≡ w = hands.workspace ∙ e in
        let reset : d'.input ≡ reset_input i = ap reset_input hands.input in
        (
          subst IsReading (sym reset)
              (reset_input-IsReading i storage (omega (arith, same, room_for_header ok))),
          fixed,
          λ up. (
            (held c.input ++ bytes) ∷ [],
            Reads-message _ _ _ _ _ c d' bytes i ok (frame, t, p, s, storage, same) reset
                (hands.said up
                  ∙ ap
                      (λ (v : ℕ).
                        async_said c
                        ++ messages_in setup.to_client server_to_client_user v
                            (held c.input ++ bytes))
                      e)
                fixed (hands.up up),
          ),
        )

    loop-Reads :
        (rs : List (List ℕ)) (c : AsyncClient S2c)
        → c.workspace_in_size ≡ w
        → IsReading c.input
        → AsyncFitsReads rs c
        → IsConnected (on_stcp_input_loop setup rs c)
        → (fs : List (List ℕ)) × AsyncReads c
            (async_bytes_read rs)
            fs
            (on_stcp_input_loop setup rs c)
    unfolding on_stcp_input_loop async_round
    loop-Reads [] c e ok fits up =
        ([], Reads-nothing _ _ _ _ _ c (async_asked [] c) ok refl refl e up)
    loop-Reads ([] ∷ rs) c e ok fits up =
        ([], Reads-nothing _ _ _ _ _ c (async_asked rs c) ok refl refl e up)
    loop-Reads ((b ∷ bytes) ∷ rs) c e ok (high, fits) up =
        let asked_c = async_asked rs c in
        let (fs, h) =
          RoundReads-then _ _ _ _ _ (on_stcp_input_loop setup rs) asked_c (b ∷ bytes)
            (async_bytes_read rs) (async_round setup (b ∷ bytes) asked_c)
            (λ c' ready fixed same up'.
              loop-Reads rs c' fixed ready (subst (AsyncFitsRound (AsyncFitsReads rs)) same fits)
                up')
            (after_received-Done asked_c (b ∷ bytes) (received c.input (b ∷ bytes)).1
              (received c.input (b ∷ bytes)).0 e ok
              (received_lem c.input (b ∷ bytes) ok (omega arith) high))
            up in
        (
          fs,
          Reads-trans _ _ _ _ _ c asked_c (on_stcp_input_loop setup ((b ∷ bytes) ∷ rs) c) []
              ((b ∷ bytes) ++ async_bytes_read rs) [] fs
              (Reads-nothing _ _ _ _ _ c asked_c ok refl refl e h.up) h,
        )

  -- In-order delivery. Let the input be between two reads, and let a read give no more bytes than it is
  -- asked for. If the client is connected when `on_stcp_input` returns, then the bytes held before it and
  -- those that it read are a sequence of whole frames, followed by the bytes held now; the user was given
  -- exactly the messages of these frames, in their order, behind those given before; and the input is
  -- between two reads again.
  on_stcp_input-Reads :
      (c : AsyncClient S2c)
      → IsReading c.input
      → AsyncFitsReads c.reads c
      → IsConnected (on_stcp_input setup c)
      → (fs : List (List ℕ)) × AsyncReads c.workspace_in_size c
          (async_bytes_read c.reads)
          fs
          (on_stcp_input setup c)
  unfolding on_stcp_input
  on_stcp_input-Reads c ok fits up = loop-Reads c.workspace_in_size c.reads c refl ok fits up

  -- The messages that the server sent arrive, each once and in order. Let the generated code decode what
  -- it encodes, and let the client have room to decode. If what `on_stcp_input` reads from a frame boundary
  -- on, in whatever pieces, is the frames of some messages that the client knows, of at most 2^24 - 1 bytes
  -- each, and the client is connected at its end, then the user was given exactly these messages, in the
  -- order sent, and the input is at a frame boundary again.
  pub on_stcp_input-sent :
      (laws : CodecLaws setup.to_client) (c : AsyncClient S2c) (room : ℕ)
      (sent : List (S2c × List ℕ))
      → IsReading c.input
      → held c.input ≡ []
      → setup.to_client.new c.workspace_in_size ≡ true
      → All (Encoded setup.to_client room) sent
      → AsyncFitsReads c.reads c
      → async_bytes_read c.reads ≡ concat (frames_sent server_to_client_user sent)
      → IsConnected (on_stcp_input setup c)
      → (async_said (on_stcp_input setup c) ≡ async_said c ++ messages_sent sent)
        × (held (on_stcp_input setup c).input ≡ [])
  on_stcp_input-sent laws c room sent ok fresh new h fits stream up =
      let (fs, r) = on_stcp_input-Reads c ok fits up in
      let (told, rest) =
        Reads-frames _ _ _ _ _ c (on_stcp_input setup c) (async_bytes_read c.reads) fs
          (frames_sent server_to_client_user sent) r fresh
          (frames_sent-IsFrame setup.to_client server_to_client_user room sent h) stream in
      (
        told
            ∙ ap (◌++◌ (async_said c)) (
                messages_in-sent setup.to_client server_to_client_user laws room c.workspace_in_size
                  new sent h),
        rest,
      )
