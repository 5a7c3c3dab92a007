-- ===== src/Linux/Server/Output/Write.antt =====
-- `client_write` of messi/c_source/templates/linux/server.c keeps the order of the bytes.
use messi.Base.{
  none-some, ℕ, if_cases, ap₂, ◌≡◌, refl, sym, ap, ◌∙◌, List, [], ◌∷◌, ◌++◌, append-nil,
  append_assoc, some, ◌==◌, ==→eq, take, drop, length, take-append-drop, ltb,
}
use messi.Kernel.{
  next_write, later_writes, Fd, Round, go_on, leave, WriteReply, sent, again, failed, note_wrote,
}
use messi.Kernel.Counts.{written}
use messi.Linux.Server.State.{Server, OutputItem, client_pending_disconnect}
use messi.Linux.Server.Output.{
  write_round, wrote_to, write_reply, client_write_loop, write_behind, client_write,
}
use messi.Linux.Server.Output.Stream.{
  queued, take-length, written_wrote, write_fds, write_answers, write_reply_lem, write_log, stream,
  pending-fd, client_output_append-stream,
}

module _ {C2s : Type 0} where
  module _ (fd a i : ℕ) where
    -- The state of the loop of `client_write`, with the answers for its coming writes.
    record Writing (ws : List WriteReply) (s : Server C2s) : Type 0 where
      connected : (s.clients i).client_fd ≡ some fd
      empty : (s.clients i).output ≡ []
      memory : s.world.fds 0 ≡ some a
      answers : s.world.writes ≡ ws

    -- What the client gets after a round is `expected`, if it is not disconnected.
    abbrev Keeps : List WriteReply → List ℕ → Round (List ℕ × Server C2s) → Type 0
    Keeps ws expected (go_on (bytes, s)) =
        Writing ws s × (written fd s.world.log ++ bytes ≡ expected)
    Keeps ws expected (leave (bytes, s)) =
        (s.clients i).client_fd ≡ some fd → stream fd i s ≡ expected

    module _ (ws : List WriteReply) (bytes : List ℕ) (s s' : Server C2s) (k : Writing ws s') where
      abbrev Expected : Round (List ℕ × Server C2s) → Type 0
      Expected = Keeps ws (written fd s.world.log ++ bytes)

      wrote-written :
          (n : ℕ)
          → s'.world.log ≡ note_wrote (some fd) bytes (sent n) s.world.log
          → written fd s'.world.log ≡ written fd s.world.log ++ take n bytes
      wrote-written n e = ap (written fd) e ∙ written_wrote fd (take n bytes) s.world.log

      disconnected-Keeps : Expected (leave ([], client_pending_disconnect i s'))
      disconnected-Keeps h = absurd (none-some (sym (pending-fd i s') ∙ h))

      all_sent :
          (n : ℕ)
          → s'.world.log ≡ note_wrote (some fd) bytes (sent n) s.world.log
          → n ≡ length bytes
          → stream fd i s' ≡ written fd s.world.log ++ bytes
      all_sent n e h =
          ap₂ (◌++◌ {A = ℕ}) (wrote-written n e) (ap queued k.empty)
          ∙ append-nil (written fd s.world.log ++ take n bytes)
          ∙ ap (λ (m : ℕ). written fd s.world.log ++ take m bytes) h
          ∙ ap (◌++◌ (written fd s.world.log)) (take-length bytes)

      write_round-Keeps :
          (r : WriteReply)
          → s'.world.log ≡ note_wrote (some fd) bytes r s.world.log
          → Expected (write_round r i bytes s')
      unfolding write_round
      write_round-Keeps (sent n) e =
          if_cases Expected (n == length bytes) _ _
            (λ h. λ up. all_sent n e (==→eq n (length bytes) h))
            (λ h.
              if_cases Expected (ltb 0 n) _ _
                (λ h'. (
                  k,
                  ap (λ (t : List ℕ). t ++ drop n bytes) (wrote-written n e)
                      ∙ append_assoc (written fd s.world.log) (take n bytes) (drop n bytes)
                      ∙ ap (◌++◌ (written fd s.world.log)) (take-append-drop n bytes),
                ))
                (λ h'. disconnected-Keeps))
      write_round-Keeps again e = λ up.
          client_output_append-stream fd a i bytes s' k.memory
          ∙ ap (λ (t : List ℕ). t ++ bytes)
              (ap₂ (◌++◌ {A = ℕ}) (ap (written fd) e) (ap queued k.empty)
                ∙ append-nil (written fd s.world.log))
      write_round-Keeps failed e = disconnected-Keeps

    module _ (bytes : List ℕ) (s : Server C2s) where
      wrote_to-Writing :
          (ws : List WriteReply) → Writing ws s → Writing (later_writes ws) (wrote_to i bytes s)
      wrote_to-Writing ws k = record {
        connected = k.connected;
        empty = k.empty;
        memory =
            ap (λ (f : ℕ → Fd). f 0) (write_fds fd bytes s.world (s.clients i).client_fd)
            ∙ k.memory;
        answers =
            write_answers fd bytes s.world (s.clients i).client_fd k.connected
            ∙ ap later_writes k.answers;
      }

      loop_round-Keeps :
          (ws : List WriteReply)
          → Writing ws s
          → Keeps
              (later_writes ws)
              (written fd s.world.log ++ bytes)
              (write_round (write_reply i bytes s) i bytes (wrote_to i bytes s))
      loop_round-Keeps ws k =
          write_round-Keeps (later_writes ws) bytes s (wrote_to i bytes s) (wrote_to-Writing ws k)
            (write_reply i bytes s) (write_log fd bytes s.world (s.clients i).client_fd k.connected)

    -- What a run of a loop over writes has kept, if the client is not disconnected.
    abbrev Result : List ℕ → Server C2s → Type 0
    Result expected s = (s.clients i).client_fd ≡ some fd → stream fd i s ≡ expected

    module _ (expected : List ℕ) where
      last_round :
          (r : WriteReply) (bytes : List ℕ) (s : Server C2s)
          → r ≡ again
          → Keeps [] expected (write_round r i bytes s)
          → Result expected (elim (write_round r i bytes s) [ go_on r ↦ r.1 | leave r ↦ r.1 ])
      unfolding write_round
      last_round (sent n) bytes s h k = absurd (cc)
      last_round again bytes s h k = k
      last_round failed bytes s h k = absurd (cc)

      next_rounds :
          (ws : List WriteReply) (r : Round (List ℕ × Server C2s))
          → ((bytes : List ℕ) (s : Server C2s)
              → Writing ws s
              → Result (written fd s.world.log ++ bytes) (client_write_loop ws i bytes s))
          → Keeps ws expected r
          → Result expected (elim r [ go_on r ↦ client_write_loop ws i r.0 r.1 | leave r ↦ r.1 ])
      next_rounds ws (go_on (bytes, s)) ih k = λ up. ih bytes s k.0 up ∙ k.1
      next_rounds ws (leave (bytes, s)) ih k = k

    client_write_loop-Result :
        (ws : List WriteReply) (bytes : List ℕ) (s : Server C2s)
        → Writing ws s
        → Result (written fd s.world.log ++ bytes) (client_write_loop ws i bytes s)
    unfolding client_write_loop
    client_write_loop-Result [] [] s k =
        λ up. ap (λ (q : List OutputItem). written fd s.world.log ++ queued q) k.empty
    client_write_loop-Result (w ∷ ws) [] s k =
        λ up. ap (λ (q : List OutputItem). written fd s.world.log ++ queued q) k.empty
    client_write_loop-Result [] (b ∷ bs) s k =
        last_round (written fd s.world.log ++ (b ∷ bs)) (write_reply i (b ∷ bs) s) (b ∷ bs)
          (wrote_to i (b ∷ bs) s)
          (write_reply_lem fd (b ∷ bs) s.world (s.clients i).client_fd k.connected
            ∙ ap next_write k.answers)
          (loop_round-Keeps (b ∷ bs) s [] k)
    client_write_loop-Result (w ∷ ws) (b ∷ bs) s k =
        next_rounds (written fd s.world.log ++ (b ∷ bs)) ws
          (write_round (write_reply i (b ∷ bs) s) i (b ∷ bs) (wrote_to i (b ∷ bs) s))
          (client_write_loop-Result ws) (loop_round-Keeps (b ∷ bs) s (w ∷ ws) k)

    write_behind-Result :
        (q : List OutputItem) (bytes : List ℕ) (s : Server C2s)
        → (s.clients i).output ≡ q
        → (s.clients i).client_fd ≡ some fd
        → s.world.fds 0 ≡ some a
        → Result (stream fd i s ++ bytes) (write_behind q i bytes s)
    unfolding write_behind
    write_behind-Result [] bytes s e c m = λ up.
        client_write_loop-Result s.world.writes bytes s
          (record { connected = c; empty = e; memory = m; answers = refl }) up
        ∙ ap (λ (t : List ℕ). t ++ bytes)
            (sym (append-nil (written fd s.world.log))
              ∙ ap (λ (q : List OutputItem). written fd s.world.log ++ queued q) (sym e))
    write_behind-Result (x ∷ xs) bytes s e c m = λ up. client_output_append-stream fd a i bytes s m

    -- `client_write` keeps the order of the bytes. Let the client have a descriptor, and let the next
    -- allocation succeed. If it still has that descriptor afterwards, then what was ever written to
    -- the descriptor, followed by what waits in the client's queue, is what that was before the call
    -- followed by the bytes given; whether they were written whole, in parts or not at all.
    pub client_write-stream :
        (bytes : List ℕ) (s : Server C2s)
        → (s.clients i).client_fd ≡ some fd
        → s.world.fds 0 ≡ some a
        → ((client_write i bytes s).clients i).client_fd ≡ some fd
        → stream fd i (client_write i bytes s) ≡ stream fd i s ++ bytes
    unfolding client_write
    client_write-stream bytes s c m up =
        write_behind-Result (s.clients i).output bytes s refl c m up
