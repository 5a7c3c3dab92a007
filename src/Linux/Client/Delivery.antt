-- ===== src/Linux/Client/Delivery.antt =====
-- In-order delivery by the Linux client: what `process_socket` of
-- messi/c_source/templates/linux/client.c hands to the user, compared with the stream of bytes.
use messi.Base.{
  ℕ, ◌≤◌, ◌<◌, ◌≡◌, refl, sym, ap, ◌∙◌, subst, List, [], ◌∷◌, ◌++◌, false, none, some, arith,
  length, All,
}
use messi.Header.{server_to_client_user}
use messi.Input.{Input, Outcome, more, too_big, message, reset_input, received, message_type}
use messi.Input.Frames.{IsFrame, concat}
use messi.Input.Receive.{
  IsReading, Continues, room_for_header, held, received_lem, reset_input-IsReading,
}
use messi.Input.Reading.{
  bytes_read, each_frame, Reads, Reads-nothing, Reads-more, Reads-message, Reads-trans, RoundReads,
  RoundReads-then, Reads-frames,
}
use messi.Kernel.{Round, go_on, leave, Fd, ReadReply, got, again, failed, closed, note}
use messi.Protocol.Messages.{messages_in}
use messi.Linux.Client.State.{Client, Setup, pending_disconnect}
use messi.Linux.Client.Socket.{
  read_reply, handle_message, after_received, asked, round, process_socket_loop, process_socket,
}
use messi.Linux.Client.Callbacks.{deliveries}
use messi.Linux.Client.Handling.{
  handle_message-Hands, handle_message-input, handle_message-workspace,
}

module _ {C2s S2c : Type 0} (setup : Setup C2s S2c) where
  abbrev pub input_of : Client S2c → Input
  input_of c = c.input

  abbrev pub told : Client S2c → List S2c
  told c = deliveries c.world.log

  abbrev pub IsUp : Client S2c → Type 0
  IsUp c = c.pending_disconnect ≡ false

  -- The contract of `read`: while data comes, it is at least one byte and at most as many as were asked
  -- for.
  abbrev pub FitsRound : (Client S2c → Type 0) → Round (Client S2c) → Type 0
  FitsRound P (go_on c) = P c
  FitsRound P (leave c) = Unit

  abbrev pub FitsReads : List ReadReply → Client S2c → Type 0
  FitsReads [] c = Unit
  FitsReads (got bytes ∷ rs) c =
      (0 < length bytes)
      × (length bytes ≤ c.input.left)
      × FitsRound (FitsReads rs)
          (round setup (read_reply c.server_fd (got bytes)) (asked setup rs c))
  FitsReads (_ ∷ rs) c = Unit

  module _ (w : ℕ) where
    abbrev pub IsFixed : Client S2c → Type 0
    IsFixed c = c.workspace_in_size ≡ w

    abbrev pub messages : List ℕ → List S2c
    messages = messages_in setup.to_client server_to_client_user w

    -- What a run of the loop has done when no disconnect is pending at its end.
    abbrev pub ReadsWith : Client S2c → List ℕ → List (List ℕ) → Client S2c → Type 0
    ReadsWith = Reads input_of told IsUp IsFixed messages

    abbrev Done : Client S2c → List ℕ → Round (Client S2c) → Type 0
    Done = RoundReads input_of told IsUp IsFixed messages

    after_received-Done :
        (c : Client S2c) (bytes : List ℕ) (o : Outcome) (i : Input)
        → IsFixed c
        → IsReading c.input
        → Continues c.input bytes o i
        → Done c bytes (after_received setup (i, o) c)
    unfolding after_received pending_disconnect reset_input
    after_received-Done c bytes more i e ok h = (
      h.0,
      e,
      λ up. ([], Reads-more _ _ _ _ _ c (record c { input = i }) bytes i h refl refl e up),
    )
    after_received-Done c bytes too_big i e ok h = λ up. absurd (ground arith)
    after_received-Done c bytes message i e ok h =
        let c' : Client S2c = record c { input = i } in
        let after = handle_message setup (message_type i) c' in
        let d = record after { input = reset_input after.input } in
        let reset : d.input ≡ reset_input i =
          ap reset_input (handle_message-input setup (message_type i) c') in
        let fixed = handle_message-workspace setup (message_type i) c' ∙ e in
        (
          subst IsReading (sym reset)
              (reset_input-IsReading i h.4 (omega (arith, h.5, room_for_header ok))),
          fixed,
          λ up.
              let hands = handle_message-Hands setup c' (held c.input ++ bytes) up h.1 h.2 h.3 in
              let said =
                hands.said
                ∙ ap
                    (λ (n : ℕ).
                      told c
                      ++ messages_in setup.to_client server_to_client_user n
                          (held c.input ++ bytes))
                    e in
              (
                (held c.input ++ bytes) ∷ [],
                Reads-message _ _ _ _ _ c d bytes i ok h reset said fixed hands.pending,
              ),
        )

    abbrev Arrives : Client S2c → List ℕ → Client S2c → Type 0
    Arrives c bytes c' = IsUp c' → (fs : List (List ℕ)) × ReadsWith c bytes fs c'

    asked-Arrives :
        (rs : List ReadReply) (c : Client S2c)
        → IsFixed c
        → IsReading c.input
        → Arrives c [] (asked setup rs c)
    unfolding note
    asked-Arrives rs c e ok up =
        ([], Reads-nothing _ _ _ _ _ c (asked setup rs c) ok refl refl e up)

    abbrev after : List ReadReply → Round (Client S2c) → Client S2c
    after rs (go_on c) = process_socket_loop setup rs c
    after rs (leave c) = c

    got-Arrives :
        (fd : Fd) (bytes : List ℕ) (rs : List ReadReply) (c : Client S2c)
        → ((c' : Client S2c)
            → IsFixed c'
            → IsReading c'.input
            → FitsReads rs c'
            → Arrives c' (bytes_read rs) (process_socket_loop setup rs c'))
        → IsFixed c
        → IsReading c.input
        → 0 < length bytes
        → length bytes ≤ c.input.left
        → let r = round setup (read_reply fd (got bytes)) (asked setup rs c) in
          FitsRound (FitsReads rs) r → Arrives c (bytes ++ bytes_read rs) (after rs r)
    unfolding round note pending_disconnect
    got-Arrives none bytes rs c ih e ok low high fits up = absurd (ground arith)
    got-Arrives (some fd) bytes rs c ih e ok low high fits up =
        let d = asked setup rs c in
        let r = round setup (got bytes) d in
        let (fs, h) =
          RoundReads-then _ _ _ _ _ (process_socket_loop setup rs) d bytes (bytes_read rs) r
            (λ c' ready e' same up'.
              ih c' e' ready (subst (FitsRound (FitsReads rs)) same fits) up')
            (after_received-Done d bytes (received c.input bytes).1 (received c.input bytes).0 e ok
              (received_lem c.input bytes ok low high))
            up in
        (
          fs,
          Reads-trans _ _ _ _ _ c d (after rs r) [] (bytes ++ bytes_read rs) [] fs
              (Reads-nothing _ _ _ _ _ c d ok refl refl e h.up) h,
        )

    again-Arrives :
        (fd : Fd) (rs : List ReadReply) (c : Client S2c)
        → IsFixed c
        → IsReading c.input
        → Arrives c [] (after rs (round setup (read_reply fd again) (asked setup rs c)))
    unfolding round pending_disconnect
    again-Arrives none rs c e ok up = absurd (ground arith)
    again-Arrives (some fd) rs c e ok up = asked-Arrives rs c e ok up

    nil-Arrives :
        (fd : Fd) (c : Client S2c)
        → IsFixed c
        → IsReading c.input
        → Arrives c [] (elim (round setup (read_reply fd again) (asked setup [] c)) [
          | go_on d ↦ d
          | leave d ↦ d
        ])
    unfolding round pending_disconnect
    nil-Arrives none c e ok up = absurd (ground arith)
    nil-Arrives (some fd) c e ok up = asked-Arrives [] c e ok up

    loop-Arrives :
        (rs : List ReadReply) (c : Client S2c)
        → IsFixed c
        → IsReading c.input
        → FitsReads rs c
        → Arrives c (bytes_read rs) (process_socket_loop setup rs c)
    unfolding process_socket_loop round pending_disconnect
    loop-Arrives [] c e ok fits up = nil-Arrives c.server_fd c e ok up
    loop-Arrives (got bytes ∷ rs) c e ok (low, high, fits) up =
        got-Arrives c.server_fd bytes rs c (loop-Arrives rs) e ok low high fits up
    loop-Arrives (again ∷ rs) c e ok fits up = again-Arrives c.server_fd rs c e ok up
    loop-Arrives (failed ∷ rs) c e ok fits up = absurd (ground arith)
    loop-Arrives (closed ∷ rs) c e ok fits up = absurd (ground arith)

  -- The bytes that were held before a run of the loop and those that it read are the frames that it
  -- handled, followed by the bytes held now, and the user was given the messages of these frames, in
  -- their order.
  abbrev pub Read : Client S2c → List ℕ → List (List ℕ) → Client S2c → Type 0
  Read c = ReadsWith c.workspace_in_size c

  abbrev pub messages_of : ℕ → List (List ℕ) → List S2c
  messages_of workspace = each_frame (messages workspace)

  -- In-order delivery. Let the input be between two reads, and let `read` keep its contract. If no
  -- disconnect is pending when `process_socket` returns, then the bytes held before it and those that
  -- it read are a sequence of whole frames, followed by the bytes held now; the user was given exactly
  -- the messages of these frames, in their order, behind those given before; and the input is between
  -- two reads again.
  pub process_socket-Read :
      (c : Client S2c)
      → IsReading c.input
      → FitsReads c.world.reads c
      → (process_socket setup c).pending_disconnect ≡ false
      → (fs : List (List ℕ)) × Read c (bytes_read c.world.reads) fs (process_socket setup c)
  unfolding process_socket
  process_socket-Read c ok = loop-Arrives c.workspace_in_size c.world.reads c refl ok

  -- However the bytes of some whole frames are cut into reads: if they are what `process_socket` reads
  -- from a frame boundary on, and no disconnect is pending at its end, then the user was given exactly
  -- the messages of these frames, in their order, and the input is at a frame boundary again.
  pub process_socket-frames :
      (c : Client S2c) (gs : List (List ℕ))
      → IsReading c.input
      → held c.input ≡ []
      → FitsReads c.world.reads c
      → All IsFrame gs
      → bytes_read c.world.reads ≡ concat gs
      → (process_socket setup c).pending_disconnect ≡ false
      → (deliveries (process_socket setup c).world.log
          ≡ deliveries c.world.log ++ messages_of c.workspace_in_size gs)
        × (held (process_socket setup c).input ≡ [])
  process_socket-frames c gs ok fresh fits frames stream up =
      let (fs, h) = process_socket-Read c ok fits up in
      Reads-frames _ _ _ _ _ c (process_socket setup c) (bytes_read c.world.reads) fs gs h fresh
        frames stream
