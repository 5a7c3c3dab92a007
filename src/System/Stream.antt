-- ===== src/System/Stream.antt =====
-- What `NAME_server_send` and `process_client_socket_out` of messi/c_source/templates/linux/server.c put on
-- the wire to a client.
use messi.Base.{
  ℕ, ◌<◌, ◌^◌, ◌≡◌, refl, sym, ap, ap₂, ◌∙◌, subst, List, [], ◌∷◌, ◌++◌, true, Option, none, some,
  arith, All, All-append, append_assoc, append-nil,
}
use messi.Header.{server_to_client_user}
use messi.Input.Frames.{concat, concat-append, frame}
use messi.Kernel.Counts.{written}
use messi.Protocol.{CodecLaws}
use messi.Protocol.Messages.{
  Encoded, frames_sent, messages_sent, frames_sent-append, messages_sent-append,
}
use messi.Linux.Server.State.{Server}
use messi.Linux.Server.Output.{process_client_socket_out}
use messi.Linux.Server.Output.Stream.{stream, queued}
use messi.Linux.Server.Output.Write.{client_write-stream}
use messi.Linux.Server.Output.Flush.{process_client_socket_out-stream}
use messi.Linux.Server.Send.{ServerSetup, framed, encode_user_message, send_bytes, server_send}
use messi.Linux.Server.Rules.{server_send-KeptAt}
use messi.Linux.Server.Rules.Out.{process_client_socket_out-Kept}
use messi.Linux.Server.Spares.{is_open}
use messi.System.ClientToServer.{payload_room}
use messi.System.Follows.{
  HasMemory, Follows, Follows-trans, Follows-refl, Follows-KeptAt, Follows-OutKept,
}

allocated : (o : Option ℕ) → is_open o ≡ true → (a : ℕ) × (o ≡ some a)
allocated none e = absurd (cc)
allocated (some a) e = (a, refl)

-- What the server does for a client: it sends a message, or writes what waits, when the socket has room.
pub data Step (S2c : Type 0) : Type 0 where
  sends : S2c → Step S2c
  flushes : Step S2c

abbrev pub fits : {S2c : Type 0} → Option (List ℕ) → S2c → List S2c
fits none m = []
fits (some payload) m = m ∷ []

module _ {C2s S2c : Type 0} (setup : ServerSetup C2s S2c) (i : ℕ) where
  abbrev pub do_step : Step S2c → Server C2s → Server C2s
  do_step (sends m) s = server_send setup i m s
  do_step flushes s = process_client_socket_out i s

  abbrev pub do_steps : List (Step S2c) → Server C2s → Server C2s
  do_steps [] s = s
  do_steps (t ∷ ts) s = do_steps ts (do_step t s)

  pub do_step-Follows : (t : Step S2c) (s : Server C2s) → Follows i s (do_step t s)
  do_step-Follows (sends m) s =
      server_send-KeptAt (Follows i s) i (Follows-KeptAt i s) setup m s (Follows-refl i s)
  do_step-Follows flushes s =
      process_client_socket_out-Kept (Follows i s) i (Follows-OutKept i s) s (Follows-refl i s)

  do_steps-Follows : (ts : List (Step S2c)) (s : Server C2s) → Follows i s (do_steps ts s)
  do_steps-Follows [] s = Follows-refl i s
  do_steps-Follows (t ∷ ts) s =
      Follows-trans i s (do_step t s) (do_steps ts (do_step t s)) (do_step-Follows t s)
        (do_steps-Follows ts (do_step t s))

  -- The messages that fit the server's buffer; the others are not sent.
  abbrev pub fitting : ℕ → List (Step S2c) → List S2c
  fitting room [] = []
  fitting room (sends m ∷ ts) = fits (setup.to_client.encode m room) m ++ fitting room ts
  fitting room (flushes ∷ ts) = fitting room ts

  abbrev pub KnowsAll : List (Step S2c) → Type 0
  KnowsAll [] = Unit
  KnowsAll (sends m ∷ ts) = (setup.to_client.known m ≡ true) × KnowsAll ts
  KnowsAll (flushes ∷ ts) = KnowsAll ts

  -- What the steps put behind what the client at this descriptor gets: the frames of the messages.
  pub record Streamed (fd room : ℕ) (ms : List S2c) (s s' : Server C2s) : Type 0 where
    pub sent : List (S2c × List ℕ)
    pub same : messages_sent sent ≡ ms
    pub encoded : All (Encoded setup.to_client room) sent
    pub log : stream fd i s' ≡ stream fd i s ++ concat (frames_sent server_to_client_user sent)

  pub Streamed-nothing :
      (fd room : ℕ) (s s' : Server C2s) → stream fd i s' ≡ stream fd i s → Streamed fd room [] s s'
  Streamed-nothing fd room s s' e = record {
    sent = [];
    same = refl;
    encoded = tt;
    log = e ∙ sym (append-nil (stream fd i s));
  }

  pub Streamed-append :
      (fd room : ℕ) (xs ys : List S2c) (a b c : Server C2s)
      → Streamed fd room xs a b
      → Streamed fd room ys b c
      → Streamed fd room (xs ++ ys) a c
  Streamed-append fd room xs ys a b c h k = record {
    sent = h.sent ++ k.sent;
    same = messages_sent-append h.sent k.sent ∙ ap₂ (◌++◌ {A = S2c}) h.same k.same;
    encoded = All-append (Encoded setup.to_client room) h.sent k.sent h.encoded k.encoded;
    log =
        k.log
        ∙ ap (λ t. t ++ concat (frames_sent server_to_client_user k.sent)) h.log
        ∙ append_assoc (stream fd i a) (concat (frames_sent server_to_client_user h.sent))
            (concat (frames_sent server_to_client_user k.sent))
        ∙ ap (◌++◌ (stream fd i a)) (
            sym (
              ap concat (frames_sent-append server_to_client_user h.sent k.sent)
              ∙ concat-append (frames_sent server_to_client_user h.sent)
                  (frames_sent server_to_client_user k.sent)));
  }

  module _ (laws : CodecLaws setup.to_client) (fd : ℕ) where
    sends-Streamed :
        (m : S2c) (room : ℕ) (s : Server C2s) (o : Option (List ℕ))
        → setup.to_client.encode m room ≡ o
        → setup.to_client.known m ≡ true
        → room < 2 ^ 24
        → (s.clients i).client_fd ≡ some fd
        → is_open (s.world.fds 0) ≡ true
        → ((send_bytes setup (framed setup o) i s).clients i).client_fd ≡ some fd
        → Streamed fd room (fits o m) s (send_bytes setup (framed setup o) i s)
    unfolding frame
    sends-Streamed m room s none e known small here memory up = Streamed-nothing fd room s s refl
    sends-Streamed m room s (some payload) e known small here memory up =
        let (a, at) = allocated (s.world.fds 0) memory in
        record {
          sent = (m, payload) ∷ [];
          same = refl;
          encoded = ((e, known, omega (arith, laws.encode_fits m room payload e)), tt);
          log =
              client_write-stream fd a i (frame server_to_client_user payload) s here at up
              ∙ ap (◌++◌ (stream fd i s)) (sym (append-nil (frame server_to_client_user payload)));
        }

    pub do_step-Streamed :
        (t : Step S2c) (s : Server C2s)
        → KnowsAll (t ∷ [])
        → payload_room s.encoded_out_size < 2 ^ 24
        → (s.clients i).client_fd ≡ some fd
        → HasMemory s
        → ((do_step t s).clients i).client_fd ≡ some fd
        → Streamed fd
            (payload_room s.encoded_out_size)
            (fitting (payload_room s.encoded_out_size) (t ∷ []))
            s
            (do_step t s)
    unfolding server_send encode_user_message
    do_step-Streamed (sends m) s known small here memory up =
        let room = payload_room s.encoded_out_size in
        subst (λ ms. Streamed fd room ms s (do_step (sends m) s))
          (sym (append-nil (fits (setup.to_client.encode m room) m)))
          (sends-Streamed m room s (setup.to_client.encode m room) refl known.0 small here
            (memory 0) up)
    do_step-Streamed flushes s known small here memory up =
        Streamed-nothing fd (payload_room s.encoded_out_size) s (do_step flushes s)
          (process_client_socket_out-stream fd i s here up)

    KnowsAll-split :
        (t : Step S2c) (ts : List (Step S2c)) → KnowsAll (t ∷ ts) → KnowsAll (t ∷ []) × KnowsAll ts
    KnowsAll-split (sends m) ts k = ((k.0, tt), k.1)
    KnowsAll-split flushes ts k = (tt, k)

    fitting-cons :
        (room : ℕ) (t : Step S2c) (ts : List (Step S2c))
        → fitting room (t ∷ ts) ≡ fitting room (t ∷ []) ++ fitting room ts
    fitting-cons room (sends m) ts =
        ap (λ ms. ms ++ fitting room ts) (sym (append-nil (fits (setup.to_client.encode m room) m)))
    fitting-cons room flushes ts = refl

    pub do_steps-Streamed :
        (ts : List (Step S2c)) (s : Server C2s) (room : ℕ)
        → payload_room s.encoded_out_size ≡ room
        → KnowsAll ts
        → room < 2 ^ 24
        → (s.clients i).client_fd ≡ some fd
        → HasMemory s
        → ((do_steps ts s).clients i).client_fd ≡ some fd
        → Streamed fd room (fitting room ts) s (do_steps ts s)
    do_steps-Streamed [] s room r known small here memory up = Streamed-nothing fd room s s refl
    do_steps-Streamed (t ∷ ts) s room r known small here memory up =
        let s' = do_step t s in
        let (one, rest) = KnowsAll-split t ts known in
        let here' = (do_steps-Follows ts s').fd fd up in
        let h = do_step-Follows t s in
        subst (λ ms. Streamed fd room ms s (do_steps ts s')) (sym (fitting-cons room t ts))
          (Streamed-append fd room (fitting room (t ∷ [])) (fitting room ts) s s' (do_steps ts s')
            (subst (λ k. Streamed fd k (fitting k (t ∷ [])) s s') r
              (do_step-Streamed t s one (subst (λ k. k < 2 ^ 24) (sym r) small) here memory here'))
            (do_steps-Streamed ts s' room (ap payload_room h.room ∙ r) rest small here'
              (h.memory memory) up))

  pub written-all :
      (fd : ℕ) (s : Server C2s) → (s.clients i).output ≡ [] → stream fd i s ≡ written fd s.world.log
  written-all fd s e =
      ap (λ q. written fd s.world.log ++ queued q) e ∙ append-nil (written fd s.world.log)
