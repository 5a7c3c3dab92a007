-- ===== src/Async/Server/Delivery.antt =====
-- In-order delivery by the async server: what `on_stcp_client_input` of
-- messi/c_source/templates/async/server.c hands to the user, compared with the stream of bytes.
use messi.Base.{ℕ, ◌≡◌, refl, ap, ◌∙◌, subst, List, [], ◌∷◌, ◌++◌, true, arith, All}
use messi.Header.{client_to_server_user}
use messi.Input.{received}
use messi.Input.Frames.{concat}
use messi.Input.Receive.{IsReading, held, received_lem}
use messi.Input.Reading.{Reads-nothing, Reads-trans, RoundReads-then, Reads-frames}
use messi.Protocol.{CodecLaws}
use messi.Protocol.Messages.{
  Encoded, frames_sent, messages_sent, messages_in-sent, frames_sent-IsFrame,
}
use messi.Async.Server.State.{AsyncServer, AsyncServerSetup}
use messi.Async.Server.Handlers.{
  async_server_asked, async_in_round, on_stcp_client_input_loop, on_stcp_client_input,
}
use messi.Async.Server.Rounds.{
  received-Ends, input_of, said_by, IsListening, server_bytes_read, ServerFitsRound,
  ServerFitsReads, IsFixed, ServerReads, after_received-Done,
}

module _ {C2s S2c : Type 0} (setup : AsyncServerSetup C2s S2c) (i : ℕ) where
  module _ (w : ℕ) where
    loop-Reads :
        (rs : List (List ℕ)) (s : AsyncServer C2s)
        → IsFixed setup i w s
        → IsReading (input_of i s)
        → ServerFitsReads setup i rs s
        → IsListening i (on_stcp_client_input_loop setup rs i s)
        → (fs : List (List ℕ)) × ServerReads setup i w s
            (server_bytes_read setup i rs)
            fs
            (on_stcp_client_input_loop setup rs i s)
    unfolding on_stcp_client_input_loop async_in_round
    loop-Reads [] s fixed ok fits up =
        ([], Reads-nothing _ _ _ _ _ s (async_server_asked [] i s) ok refl refl fixed ok)
    loop-Reads ([] ∷ rs) s fixed ok fits up =
        ([], Reads-nothing _ _ _ _ _ s (async_server_asked rs i s) ok refl refl fixed ok)
    loop-Reads ((b ∷ bytes) ∷ rs) s fixed ok (high, fits) up =
        let v = (s.clients i).input in
        let asked = async_server_asked rs i s in
        let (fs, h) =
          RoundReads-then _ _ _ _ _ (on_stcp_client_input_loop setup rs i) asked (b ∷ bytes)
            (server_bytes_read setup i rs) (async_in_round setup (b ∷ bytes) i asked)
            (λ s' ready fixed' same up'.
              loop-Reads rs s' fixed' ready
                (subst (ServerFitsRound setup i (ServerFitsReads setup i rs)) same fits) up')
            (after_received-Done setup i w asked (b ∷ bytes) (received v (b ∷ bytes)).1
              (received v (b ∷ bytes)).0 fixed ok (received_lem v (b ∷ bytes) ok (omega arith) high)
              (received-Ends v (b ∷ bytes) (received v (b ∷ bytes)).1 ok high refl))
            up in
        (
          fs,
          Reads-trans _ _ _ _ _ s asked (on_stcp_client_input_loop setup ((b ∷ bytes) ∷ rs) i s) []
              ((b ∷ bytes) ++ server_bytes_read setup i rs) [] fs
              (Reads-nothing _ _ _ _ _ s asked ok refl refl fixed ok) h,
        )

  -- The messages that a client sent arrive, each once and in order. Let the generated code decode what it
  -- encodes, let the server have room to decode, and let the client's `server_p` lead to the server. If
  -- what `on_stcp_client_input` reads from a frame boundary on, in whatever pieces, is the frames of some
  -- messages that the server knows, of at most 2^24 - 1 bytes each, and the client's input is between two
  -- reads at its end, then the user was given exactly these messages from the client, in the order sent,
  -- and the input is at a frame boundary again.
  pub on_stcp_client_input-sent :
      (laws : CodecLaws setup.to_server) (s : AsyncServer C2s) (room : ℕ)
      (sent : List (C2s × List ℕ))
      → (s.clients i).server_p ≡ true
      → IsListening i s
      → held (input_of i s) ≡ []
      → setup.to_server.new s.workspace_in_size ≡ true
      → All (Encoded setup.to_server room) sent
      → ServerFitsReads setup i s.reads s
      → server_bytes_read setup i s.reads ≡ concat (frames_sent client_to_server_user sent)
      → IsListening i (on_stcp_client_input setup i s)
      → (said_by i (on_stcp_client_input setup i s) ≡ said_by i s ++ messages_sent sent)
        × (held (input_of i (on_stcp_client_input setup i s)) ≡ [])
  unfolding on_stcp_client_input
  on_stcp_client_input-sent laws s room sent there ok fresh new h fits stream up =
      let (fs, r) = loop-Reads s.workspace_in_size s.reads s (there, refl) ok fits up in
      let (told, rest) =
        Reads-frames _ _ _ _ _ s (on_stcp_client_input setup i s)
          (server_bytes_read setup i s.reads) fs (frames_sent client_to_server_user sent) r fresh
          (frames_sent-IsFrame setup.to_server client_to_server_user room sent h) stream in
      (
        told
            ∙ ap (◌++◌ (said_by i s)) (
                messages_in-sent setup.to_server client_to_server_user laws room s.workspace_in_size
                  new sent h),
        rest,
      )
