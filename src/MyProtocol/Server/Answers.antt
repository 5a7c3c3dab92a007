-- ===== src/MyProtocol/Server/Answers.antt =====
-- What the server of examples/my_protocol/server/linux/main.c answers to the messages of its client.
use messi.Base.{
  ℕ, ◌+◌, ◌<◌, ◌^◌, ◌≡◌, refl, sym, ap, ◌∙◌, List, [], ◌∷◌, ◌++◌, true, none, some, Option, ltb,
  if◌then◌else◌, arith, append-nil, append_assoc, Bool-cases, inl, inr, subst,
}
use messi.Kernel.{note}
use messi.Protocol.{Codec, CodecLaws}
use messi.Linux.Server.State.{Server}
use messi.Linux.Server.Messages.{server_handle_choice}
use messi.Linux.Server.Rules.{server_send-KeptAt, Kept-KeptAt}
use messi.Linux.Server.Spares.{Spares, Spares-refl, Spares-Kept}
use messi.System.ClientToServer.{payload_room}
use messi.System.Follows.{HasMemory, Follows, Follows-refl}
use messi.System.Stream.{
  sends, do_step-Follows, do_step-Streamed, Streamed, Streamed-nothing, Streamed-append, fitting,
  fits,
}
use messi.MyProtocol.{ToServer, ToClient, foo_req, bar_ind, fie_rsp, foo_rsp, fie_req}
use messi.MyProtocol.Server.{bar_inds, count, my_server}
use messi.MyProtocol.Server.Replies.{
  handle_each, told, replied, answer_to, idle_again, choice_replies, count-told, listed, sends_each,
  GoesOn, choice-Follows, handle_each-Follows,
}

-- The protocol's answers, after this many `bar_ind` messages: `foo_rsp` to each `foo_req`, and `fie_req` to each
-- `bar_ind` but the first.
abbrev pub answers_after : ℕ → List ToServer → List ToClient
answers_after n [] = []
answers_after n (foo_req ∷ ms) = foo_rsp ∷ answers_after n ms
answers_after n (bar_ind ∷ ms) =
    (if ltb (1 + n) 2 then [] else fie_req ∷ []) ++ answers_after (1 + n) ms
answers_after n (fie_rsp ∷ ms) = answers_after n ms

module _ (to_server : Codec ToServer) (to_client : Codec ToClient) where
  module _ (laws : CodecLaws to_client) (known : (r : ToClient) → to_client.known r ≡ true)
      (fd : ℕ) where
    abbrev Gets : ℕ → List ToClient → Server ToServer → Server ToServer → Type 0
    Gets room rs =
        Streamed (my_server to_server to_client) 0 fd room
          (fitting (my_server to_server to_client) 0 room (sends_each rs))

    -- What the client has gotten by now.
    abbrev HasClient : Server ToServer → Type 0
    HasClient s = (s.clients 0).client_fd ≡ some fd

    -- One answer.
    record Answered (room : ℕ) (o : Option ToClient) (s s' : Server ToServer) : Type 0 where
      gets :
          Streamed
            (my_server to_server to_client)
            0
            fd
            room
            (fitting (my_server to_server to_client) 0 room (listed o))
            s
            s'
      follows : Follows 0 s s'
      counted : count s' ≡ count s

    replied-Answered :
        (o : Option ToClient) (s : Server ToServer)
        → payload_room s.encoded_out_size < 2 ^ 24
        → HasClient s
        → HasMemory s
        → HasClient (replied to_server to_client o s)
        → Answered (payload_room s.encoded_out_size) o s (replied to_server to_client o s)
    replied-Answered none s small here memory up = record {
      gets = Streamed-nothing (my_server to_server to_client) 0 fd _ s s refl;
      follows = Follows-refl 0 s;
      counted = refl;
    }
    replied-Answered (some r) s small here memory up = record {
      gets =
          do_step-Streamed (my_server to_server to_client) 0 laws fd (sends r) s (known r, tt) small
            here memory up;
      follows = do_step-Follows (my_server to_server to_client) 0 (sends r) s;
      counted =
          ap bar_inds
            (server_send-KeptAt (Spares 0 s) 0 (Kept-KeptAt (Spares 0 s) 0 (Spares-Kept 0 s))
              (my_server to_server to_client) r s (Spares-refl 0 s)).said;
    }

    -- One message.
    record Handled (room n : ℕ) (m : ToServer) (s s' : Server ToServer) : Type 0 where
      gets : Gets room (answers_after n (m ∷ [])) s s'
      counted : count s' ≡ bar_inds (m ∷ []) + n

    -- The specification gives what the callback answers.
    answers_listed :
        (n room : ℕ) (m : ToServer)
        → fitting (my_server to_server to_client) 0 room (sends_each (answers_after n (m ∷ [])))
          ≡ fitting
              (my_server to_server to_client)
              0
              room
              (listed (answer_to m (bar_inds (m ∷ []) + n)))
    answers_listed n room foo_req = refl
    answers_listed n room bar_ind = elim (Bool-cases (ltb (1 + n) 2)) [
      | inl k ↦ rw k refl
      | inr k ↦ rw k refl
    ]
    answers_listed n room fie_rsp = refl

    choice-Handled :
        (m : ToServer) (s : Server ToServer) (room n : ℕ)
        → payload_room s.encoded_out_size ≡ room
        → count s ≡ n
        → to_server.known m ≡ true
        → (m ≡ fie_rsp → ⊥)
        → room < 2 ^ 24
        → HasClient s
        → HasMemory s
        → HasClient (server_handle_choice (my_server to_server to_client) 0 m s)
        → Handled room n m s (server_handle_choice (my_server to_server to_client) 0 m s)
    unfolding note
    choice-Handled m s room n r e known go small here memory up =
        let t = told m s in
        let o = answer_to m (count t) in
        let counts : count t ≡ bar_inds (m ∷ []) + n =
          count-told m s ∙ ap (λ k. bar_inds (m ∷ []) + k) e in
        let same = choice_replies to_server to_client m s go known in
        let h =
          replied-Answered o t (subst (λ k. k < 2 ^ 24) (sym r) small) here memory
            (subst HasClient same up) in
        subst (Handled room n m s) (sym same) (record {
          gets =
              subst
                (λ ms.
                  Streamed (my_server to_server to_client) 0 fd room ms s
                    (idle_again (replied to_server to_client o t)))
                (ap (λ k. fitting (my_server to_server to_client) 0 room (listed (answer_to m k)))
                    counts
                  ∙ sym (answers_listed n room m))
                (subst
                  (λ k.
                    Streamed (my_server to_server to_client) 0 fd k
                      (fitting (my_server to_server to_client) 0 k (listed o)) s
                      (idle_again (replied to_server to_client o t)))
                  r
                  (record {
                    sent = h.gets.sent;
                    same = h.gets.same;
                    encoded = h.gets.encoded;
                    log = h.gets.log;
                  }));
          counted = h.counted ∙ counts;
        })

    answers_split :
        (n : ℕ) (m : ToServer) (ms : List ToServer)
        → answers_after n (m ∷ ms)
          ≡ answers_after n (m ∷ []) ++ answers_after (bar_inds (m ∷ []) + n) ms
    answers_split n foo_req ms = ap (λ k. foo_rsp ∷ answers_after k ms) (omega arith)
    answers_split n bar_ind ms =
        ap (λ xs. xs ++ answers_after (1 + n) ms)
          (sym (append-nil (if ltb (1 + n) 2 then [] else fie_req ∷ [])))
    answers_split n fie_rsp ms = ap (λ k. answers_after k ms) (omega arith)

    fitting-append :
        (room : ℕ) (xs ys : List ToClient)
        → fitting (my_server to_server to_client) 0 room (sends_each (xs ++ ys))
          ≡ fitting (my_server to_server to_client) 0 room (sends_each xs)
            ++ fitting (my_server to_server to_client) 0 room (sends_each ys)
    fitting-append room [] ys = refl
    fitting-append room (x ∷ xs) ys =
        ap (◌++◌ (fits (to_client.encode x room) x)) (fitting-append room xs ys)
        ∙ sym (
            append_assoc (fits (to_client.encode x room) x)
              (fitting (my_server to_server to_client) 0 room (sends_each xs))
              (fitting (my_server to_server to_client) 0 room (sends_each ys)))

    -- The server keeps to its protocol. Let the generated code decode what it encodes and know the two
    -- messages to the client, and let the messages that are handled be known and not be `fie_rsp`, which ends
    -- the program. Let the server have a descriptor of its client, before and after, memory for every
    -- allocation, and room for a payload of less than 2^24 bytes. Then what the client was written and
    -- what waits for it is what that was before, followed by the frames of the answers of the protocol
    -- that fit the server's buffer: `foo_rsp` to each `foo_req`, and `fie_req` to each `bar_ind` but the first
    -- that the server has ever got, in the order of the messages.
    pub handle_each-answers :
        (ms : List ToServer) (s : Server ToServer) (room n : ℕ)
        → payload_room s.encoded_out_size ≡ room
        → count s ≡ n
        → GoesOn to_server to_client ms
        → room < 2 ^ 24
        → (s.clients 0).client_fd ≡ some fd
        → HasMemory s
        → ((handle_each to_server to_client ms s).clients 0).client_fd ≡ some fd
        → Streamed
            (my_server to_server to_client)
            0
            fd
            room
            (fitting (my_server to_server to_client) 0 room (sends_each (answers_after n ms)))
            s
            (handle_each to_server to_client ms s)
    handle_each-answers [] s room n r e go small here memory up =
        Streamed-nothing (my_server to_server to_client) 0 fd room s s refl
    handle_each-answers (m ∷ ms) s room n r e (knows, go, rest) small here memory up =
        let s' = server_handle_choice (my_server to_server to_client) 0 m s in
        let f = choice-Follows to_server to_client m s go knows in
        let here' = (handle_each-Follows to_server to_client ms s' rest).fd fd up in
        let h = choice-Handled m s room n r e knows go small here memory here' in
        let n' = bar_inds (m ∷ []) + n in
        subst
          (λ rs.
            Streamed (my_server to_server to_client) 0 fd room rs s
              (handle_each to_server to_client ms s'))
          (sym (
            ap (λ rs. fitting (my_server to_server to_client) 0 room (sends_each rs))
              (answers_split n m ms)
            ∙ fitting-append room (answers_after n (m ∷ [])) (answers_after n' ms)))
          (Streamed-append (my_server to_server to_client) 0 fd room _ _ s s'
            (handle_each to_server to_client ms s') h.gets
            (handle_each-answers ms s' room n' (ap payload_room f.room ∙ r) h.counted rest small
              here' (f.memory memory) up))
