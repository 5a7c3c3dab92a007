-- ===== src/Linux/Server/Delivery.antt =====
-- In-order delivery by the Linux server: what `process_client_socket_in` of
-- messi/c_source/templates/linux/server.c hands to the user, compared with the stream of bytes.
pub mod Tests
use messi.Base.{
  ℕ, ◌≤◌, ◌<◌, ◌≡◌, refl, sym, ap, ◌∙◌, subst, List, [], ◌∷◌, ◌++◌, true, none, some, length, All,
  arith,
}
use messi.Header.{client_to_server_user}
use messi.Input.{received}
use messi.Input.Frames.{concat}
use messi.Input.Receive.{IsReading, held, received_lem}
use messi.Input.Reading.{
  bytes_read, Reads-nothing, Reads-trans, RoundReads-then, Reads-frames, Reads-same,
}
use messi.Kernel.{Round, go_on, leave, Fd, ReadReply, got, again, failed, closed, note}
use messi.Protocol.{CodecLaws}
use messi.Protocol.Messages.{
  Encoded, frames_sent, messages_sent, messages_in-sent, frames_sent-IsFrame,
}
use messi.Linux.Client.Socket.{read_reply}
use messi.Linux.Server.State.{Server}
use messi.Linux.Server.Send.{ServerSetup}
use messi.Linux.Server.Messages.{server_asked, in_round, in_loop, process_client_socket_in}
use messi.Linux.Server.Rounds.{
  input_of, given_by, HasFd, disconnected-down, FitsRound, FitsReads, IsFixed, ServerReads,
  after_received-Done,
}

module _ {C2s S2c : Type 0} (setup : ServerSetup C2s S2c) (i w : ℕ) where
  abbrev Arrives : Server C2s → List ℕ → Server C2s → Type 0
  Arrives s bytes s' = HasFd i s' → (fs : List (List ℕ)) × ServerReads setup i w s bytes fs s'

  asked-Arrives :
      (rs : List ReadReply) (s : Server C2s)
      → IsFixed setup i w s
      → IsReading (input_of i s)
      → Arrives s [] (server_asked rs i s)
  unfolding note
  asked-Arrives rs s e ok up =
      ([], Reads-nothing _ _ _ _ _ s (server_asked rs i s) ok refl refl e up)

  abbrev after : List ReadReply → Round (Server C2s) → Server C2s
  after rs (go_on s) = in_loop setup rs i s
  after rs (leave s) = s

  got-Arrives :
      (fd : Fd) (bytes : List ℕ) (rs : List ReadReply) (s : Server C2s)
      → ((s' : Server C2s)
          → IsFixed setup i w s'
          → IsReading (input_of i s')
          → FitsReads setup i rs s'
          → Arrives s' (bytes_read rs) (in_loop setup rs i s'))
      → IsFixed setup i w s
      → IsReading (input_of i s)
      → 0 < length bytes
      → length bytes ≤ (input_of i s).left
      → let r = in_round setup (read_reply fd (got bytes)) i (server_asked rs i s) in
        FitsRound setup i (FitsReads setup i rs) r → Arrives s (bytes ++ bytes_read rs) (after rs r)
  unfolding in_round note
  got-Arrives none bytes rs s ih e ok low high fits up =
      absurd (disconnected-down i (server_asked rs i s) up)
  got-Arrives (some fd) bytes rs s ih e ok low high fits up =
      let asked = server_asked rs i s in
      let v = input_of i s in
      let r = in_round setup (got bytes) i asked in
      let (fs, h) =
        RoundReads-then _ _ _ _ _ (in_loop setup rs i) asked bytes (bytes_read rs) r
          (λ s' ready e' same up'.
            ih s' e' ready (subst (FitsRound setup i (FitsReads setup i rs)) same fits) up')
          (after_received-Done setup i w asked bytes (received v bytes).1 (received v bytes).0 e ok
            (received_lem v bytes ok low high))
          up in
      (
        fs,
        Reads-trans _ _ _ _ _ s asked (after rs r) [] (bytes ++ bytes_read rs) [] fs
            (Reads-nothing _ _ _ _ _ s asked ok refl refl e h.up) h,
      )

  again-Arrives :
      (fd : Fd) (rs : List ReadReply) (s : Server C2s)
      → IsFixed setup i w s
      → IsReading (input_of i s)
      → Arrives s [] (after rs (in_round setup (read_reply fd again) i (server_asked rs i s)))
  unfolding in_round
  again-Arrives none rs s e ok up = absurd (disconnected-down i (server_asked rs i s) up)
  again-Arrives (some fd) rs s e ok up = asked-Arrives rs s e ok up

  nil-Arrives :
      (fd : Fd) (s : Server C2s)
      → IsFixed setup i w s
      → IsReading (input_of i s)
      → Arrives s [] (elim (in_round setup (read_reply fd again) i (server_asked [] i s)) [
        | go_on s' ↦ s'
        | leave s' ↦ s'
      ])
  unfolding in_round
  nil-Arrives none s e ok up = absurd (disconnected-down i (server_asked [] i s) up)
  nil-Arrives (some fd) s e ok up = asked-Arrives [] s e ok up

  failed-Arrives :
      (fd : Fd) (r : ReadReply) (rs : List ReadReply) (s : Server C2s)
      → in_round setup r i (server_asked rs i s) ≡ in_round setup failed i (server_asked rs i s)
      → Arrives s [] (after rs (in_round setup (read_reply fd r) i (server_asked rs i s)))
  unfolding in_round
  failed-Arrives none r rs s e up = absurd (disconnected-down i (server_asked rs i s) up)
  failed-Arrives (some fd) r rs s e up =
      absurd (disconnected-down i (server_asked rs i s) (subst (λ t. HasFd i (after rs t)) e up))

  in_loop-Arrives :
      (rs : List ReadReply) (s : Server C2s)
      → IsFixed setup i w s
      → IsReading (input_of i s)
      → FitsReads setup i rs s
      → Arrives s (bytes_read rs) (in_loop setup rs i s)
  unfolding in_loop in_round
  in_loop-Arrives [] s e ok fits up = nil-Arrives (s.clients i).client_fd s e ok up
  in_loop-Arrives (got bytes ∷ rs) s e ok (low, high, fits) up =
      got-Arrives (s.clients i).client_fd bytes rs s (in_loop-Arrives rs) e ok low high fits up
  in_loop-Arrives (again ∷ rs) s e ok fits up = again-Arrives (s.clients i).client_fd rs s e ok up
  in_loop-Arrives (failed ∷ rs) s e ok fits up =
      failed-Arrives (s.clients i).client_fd failed rs s refl up
  in_loop-Arrives (closed ∷ rs) s e ok fits up =
      failed-Arrives (s.clients i).client_fd closed rs s refl up

module _ {C2s S2c : Type 0} (setup : ServerSetup C2s S2c) (i : ℕ) where
  -- The messages that a client sent arrive, each once and in order, whatever the user's callbacks write and
  -- whomever they disconnect. Let the generated code decode what it encodes, and let the server have room
  -- to decode. If what `process_client_socket_in` reads from a frame boundary on, in whatever pieces, is
  -- the frames of some messages that the server knows, of at most 2^24 - 1 bytes each, and the client has
  -- a descriptor at its end, then the user was given exactly these messages from the client, in the
  -- order sent, and the input is at a frame boundary again.
  pub process_client_socket_in-sent :
      (laws : CodecLaws setup.to_server) (s : Server C2s) (room : ℕ) (sent : List (C2s × List ℕ))
      → IsReading (input_of i s)
      → held (input_of i s) ≡ []
      → setup.to_server.new s.workspace_in_size ≡ true
      → All (Encoded setup.to_server room) sent
      → FitsReads setup i s.world.reads s
      → bytes_read s.world.reads ≡ concat (frames_sent client_to_server_user sent)
      → HasFd i (process_client_socket_in setup i s)
      → (given_by i (process_client_socket_in setup i s) ≡ given_by i s ++ messages_sent sent)
        × (held (input_of i (process_client_socket_in setup i s)) ≡ [])
  unfolding process_client_socket_in
  process_client_socket_in-sent laws s room sent ok fresh new h fits stream up =
      let w = s.workspace_in_size in
      let (fs, r) = in_loop-Arrives setup i w s.world.reads s refl ok fits up in
      let (told, rest) =
        Reads-frames _ _ _ _ _ s (process_client_socket_in setup i s) (bytes_read s.world.reads) fs
          (frames_sent client_to_server_user sent) r fresh
          (frames_sent-IsFrame setup.to_server client_to_server_user room sent h) stream in
      (
        told
            ∙ ap (◌++◌ (given_by i s))
                (messages_in-sent setup.to_server client_to_server_user laws room w new sent h),
        rest,
      )

  -- The server after the client's socket gave these answers.
  abbrev pub after_reads : List ReadReply → Server C2s → Server C2s
  after_reads rs s =
      process_client_socket_in setup i (record s { world = record (s.world) { reads = rs } })

  after_reads-Reads :
      (rs : List ReadReply) (s : Server C2s)
      → IsReading (input_of i s)
      → FitsReads setup i rs (record s { world = record (s.world) { reads = rs } })
      → HasFd i (after_reads rs s)
      → (fs : List (List ℕ)) × ServerReads setup i s.workspace_in_size s
          (bytes_read rs)
          fs
          (after_reads rs s)
  unfolding process_client_socket_in
  after_reads-Reads rs s ok fits up =
      let s' : Server C2s = record s { world = record (s.world) { reads = rs } } in
      let w = s.workspace_in_size in
      let (fs, h) = in_loop-Arrives setup i w rs s' refl ok fits up in
      (
        fs,
        Reads-trans _ _ _ _ _ s s' (in_loop setup rs i s') [] (bytes_read rs) [] fs
            (Reads-nothing _ _ _ _ _ s s' ok refl refl refl h.up) h,
      )

  -- How the stream is cut into reads makes no difference: if the same bytes come from a client in two ways,
  -- both within the contract of `read`, and it has a descriptor at the end of each, then the user was
  -- given the same messages from it, and the same bytes are held.
  pub cut_makes_no_difference :
      (s : Server C2s) (rs rs' : List ReadReply)
      → IsReading (input_of i s)
      → bytes_read rs ≡ bytes_read rs'
      → FitsReads setup i rs (record s { world = record (s.world) { reads = rs } })
      → FitsReads setup i rs' (record s { world = record (s.world) { reads = rs' } })
      → HasFd i (after_reads rs s)
      → HasFd i (after_reads rs' s)
      → (given_by i (after_reads rs s) ≡ given_by i (after_reads rs' s))
        × (held (input_of i (after_reads rs s)) ≡ held (input_of i (after_reads rs' s)))
  cut_makes_no_difference s rs rs' ok same fits fits' up up' =
      let (fs, h) = after_reads-Reads rs s ok fits up in
      let (gs, k) = after_reads-Reads rs' s ok fits' up' in
      Reads-same _ _ _ _ _ s (after_reads rs s) (after_reads rs' s) (bytes_read rs) fs gs h (
        subst (λ (bs : List ℕ). ServerReads setup i s.workspace_in_size s bs gs (after_reads rs' s))
          (sym same) k)
