-- ===== src/Linux/Server/Output/Flush.antt =====
-- `process_client_socket_out` of messi/c_source/templates/linux/server.c: the queue is written in its
-- order.
use messi.Base.{
  none-some, ℕ, suc, zero, if_cases, ◌+◌, ◌-◌, ◌≡◌, refl, sym, ap, ◌∙◌, List, [], ◌∷◌, ◌++◌,
  append_assoc, some, ◌==◌, ==→eq, take, drop, arith, ltb,
}
use messi.Kernel.{
  next_write, later_writes, Round, go_on, leave, WriteReply, sent, again, failed, note_wrote, note,
}
use messi.Kernel.Counts.{written}
use messi.Linux.Server.State.{
  Server, OutputItem, set_client, client_pending_disconnect, server_epoll_ctl_mod,
}
use messi.Linux.Server.Output.{
  item_bytes, wrote_to, write_reply, out_round, out_loop, end_of_out, process_client_socket_out,
}
use messi.Linux.Server.Output.Stream.{
  queued, same, written_wrote, write_answers, write_reply_lem, write_log, stream, pending-fd,
}

take-take : (n : ℕ) (xs : List ℕ) → take n (take n xs) ≡ take n xs
take-take zero xs = refl
take-take (suc n) [] = refl
take-take (suc n) (x ∷ xs) = ap (◌∷◌ x) (take-take n xs)

take_nil : (n : ℕ) → take {A = ℕ} n [] ≡ []
take_nil zero = refl
take_nil (suc n) = refl

drop_nil : (n : ℕ) → drop {A = ℕ} n [] ≡ []
drop_nil zero = refl
drop_nil (suc n) = refl

drop-drop : (m n k : ℕ) (xs : List ℕ) → k ≡ m + n → drop k xs ≡ drop n (drop m xs)
drop-drop zero n k xs h = ap (λ (j : ℕ). drop j xs) (omega arith)
drop-drop (suc m) n k [] h = drop_nil k ∙ sym (drop_nil n)
drop-drop (suc m) n zero (x ∷ xs) h = absurd (omega arith)
drop-drop (suc m) n (suc k) (x ∷ xs) h = drop-drop m n k xs (omega arith)

-- A part that was taken from the front of a piece, and the rest of the piece.
take_rest :
    (n size rest : ℕ) (xs : List ℕ)
    → rest ≡ size - n
    → take n (take size xs) ++ take rest (drop n xs) ≡ take size xs
take_rest zero size rest xs h = ap (λ (k : ℕ). take k xs) (omega arith)
take_rest (suc n) zero rest xs h =
    let e : rest ≡ 0 = omega arith in ap (λ (k : ℕ). take k (drop (suc n) xs)) e
take_rest (suc n) (suc size) rest [] h = take_nil rest
take_rest (suc n) (suc size) rest (x ∷ xs) h = ap (◌∷◌ x) (take_rest n size rest xs (omega arith))

module _ {C2s : Type 0} (fd i : ℕ) where
  -- The state of the loop, with the answers for its coming writes.
  record Flushing (ws : List WriteReply) (s : Server C2s) : Type 0 where
    connected : (s.clients i).client_fd ≡ some fd
    answers : s.world.writes ≡ ws

  abbrev Result : List ℕ → List OutputItem × Server C2s → Type 0
  Result expected (items, s) =
      (s.clients i).client_fd ≡ some fd → written fd s.world.log ++ queued items ≡ expected

  abbrev Keeps : List WriteReply → List ℕ → Round (List OutputItem × Server C2s) → Type 0
  Keeps ws expected (go_on (items, s)) =
      Flushing ws s × (written fd s.world.log ++ queued items ≡ expected)
  Keeps ws expected (leave r) = Result expected r

  module _ (ws : List WriteReply) (item : OutputItem) (items : List OutputItem) (s s' : Server C2s)
      (k : Flushing ws s') where
    abbrev Expected : Round (List OutputItem × Server C2s) → Type 0
    Expected = Keeps ws (written fd s.world.log ++ (item_bytes item ++ queued items))

    wrote-written :
        (n : ℕ)
        → s'.world.log ≡ note_wrote (some fd) (item_bytes item) (sent n) s.world.log
        → written fd s'.world.log ≡ written fd s.world.log ++ take n (item_bytes item)
    wrote-written n e = ap (written fd) e ∙ written_wrote fd (take n (item_bytes item)) s.world.log

    disconnected-Keeps : Expected (leave (item ∷ items, client_pending_disconnect i s'))
    disconnected-Keeps h = absurd (none-some (sym (pending-fd i s') ∙ h))

    whole_item :
        (n : ℕ)
        → s'.world.log ≡ note_wrote (some fd) (item_bytes item) (sent n) s.world.log
        → n ≡ item.size
        → written fd s'.world.log ++ queued items
          ≡ written fd s.world.log ++ (item_bytes item ++ queued items)
    whole_item n e h =
        let xs = drop item.offset item.bytes in
        ap (λ (t : List ℕ). t ++ queued items) (wrote-written n e)
        ∙ append_assoc (written fd s.world.log) (take n (item_bytes item)) (queued items)
        ∙ ap (λ (t : List ℕ). written fd s.world.log ++ (t ++ queued items))
            (ap (λ (m : ℕ). take m (take item.size xs)) h ∙ take-take item.size xs)

    part_of_item :
        (n : ℕ)
        → s'.world.log ≡ note_wrote (some fd) (item_bytes item) (sent n) s.world.log
        → written fd s'.world.log
            ++ queued (record item { offset = item.offset + n; size = item.size - n } ∷ items)
          ≡ written fd s.world.log ++ (item_bytes item ++ queued items)
    part_of_item n e =
        let t = take n (item_bytes item) in
        let r = take (item.size - n) (drop (item.offset + n) item.bytes) in
        ap (λ (x : List ℕ). x ++ (r ++ queued items)) (wrote-written n e)
        ∙ append_assoc (written fd s.world.log) t (r ++ queued items)
        ∙ ap (◌++◌ (written fd s.world.log)) (sym (append_assoc t r (queued items)))
        ∙ ap (λ (x : List ℕ). written fd s.world.log ++ (x ++ queued items))
            (ap (λ (x : List ℕ). t ++ take (item.size - n) x)
                (drop-drop item.offset n (item.offset + n) item.bytes refl)
              ∙ take_rest n item.size (item.size - n) (drop item.offset item.bytes) refl)

    out_round-Keeps :
        (r : WriteReply)
        → s'.world.log ≡ note_wrote (some fd) (item_bytes item) r s.world.log
        → Expected (out_round r i item items s')
    unfolding out_round note
    out_round-Keeps (sent n) e =
        if_cases Expected (n == item.size) _ _
          (λ h. (
            record { connected = k.connected; answers = k.answers },
            whole_item n e (==→eq n item.size h),
          ))
          (λ h.
            if_cases Expected (ltb 0 n) _ _ (λ h'. (k, part_of_item n e))
              (λ h'. disconnected-Keeps))
    out_round-Keeps again e = λ up. ap (λ l. written fd l ++ (item_bytes item ++ queued items)) e
    out_round-Keeps failed e = disconnected-Keeps

  loop_round-Keeps :
      (ws : List WriteReply) (item : OutputItem) (items : List OutputItem) (s : Server C2s)
      → Flushing ws s
      → Keeps (later_writes ws) (written fd s.world.log ++ queued (item ∷ items)) (
          out_round
            (write_reply i (item_bytes item) s)
            i
            item
            items
            (wrote_to i (item_bytes item) s))
  loop_round-Keeps ws item items s k =
      let f = (s.clients i).client_fd in
      let bytes = item_bytes item in
      out_round-Keeps (later_writes ws) item items s (wrote_to i bytes s)
        (record {
          connected = k.connected;
          answers = write_answers fd bytes s.world f k.connected ∙ ap later_writes k.answers;
        })
        (write_reply i bytes s) (write_log fd bytes s.world f k.connected)

  module _ (expected : List ℕ) where
    last_round :
        (r : WriteReply) (item : OutputItem) (items : List OutputItem) (s : Server C2s)
        → r ≡ again
        → Keeps [] expected (out_round r i item items s)
        → Result expected (elim (out_round r i item items s) [ go_on r ↦ r | leave r ↦ r ])
    unfolding out_round
    last_round (sent n) item items s h k = absurd (cc)
    last_round again item items s h k = k
    last_round failed item items s h k = absurd (cc)

    next_rounds :
        (ws : List WriteReply) (r : Round (List OutputItem × Server C2s))
        → ((items : List OutputItem) (s : Server C2s)
            → Flushing ws s
            → Result (written fd s.world.log ++ queued items) (out_loop ws i items s))
        → Keeps ws expected r
        → Result expected (elim r [ go_on r ↦ out_loop ws i r.0 r.1 | leave r ↦ r ])
    next_rounds ws (go_on (items, s)) ih k = λ up. ih items s k.0 up ∙ k.1
    next_rounds ws (leave r) ih k = k

  out_loop-Result :
      (ws : List WriteReply) (items : List OutputItem) (s : Server C2s)
      → Flushing ws s
      → Result (written fd s.world.log ++ queued items) (out_loop ws i items s)
  unfolding out_loop
  out_loop-Result [] [] s k = λ up. refl
  out_loop-Result (w ∷ ws) [] s k = λ up. refl
  out_loop-Result [] (item ∷ items) s k =
      last_round (written fd s.world.log ++ queued (item ∷ items))
        (write_reply i (item_bytes item) s) item items (wrote_to i (item_bytes item) s)
        (write_reply_lem fd (item_bytes item) s.world (s.clients i).client_fd k.connected
          ∙ ap next_write k.answers)
        (loop_round-Keeps [] item items s k)
  out_loop-Result (w ∷ ws) (item ∷ items) s k =
      next_rounds (written fd s.world.log ++ queued (item ∷ items)) ws
        (out_round (write_reply i (item_bytes item) s) i item items
          (wrote_to i (item_bytes item) s))
        (out_loop-Result ws) (loop_round-Keeps (w ∷ ws) item items s k)

  end_of_out-fd :
      (items : List OutputItem) (s : Server C2s)
      → ((end_of_out i items s).clients i).client_fd ≡ (s.clients i).client_fd
  unfolding end_of_out set_client
  end_of_out-fd [] s = rw (same i)
  end_of_out-fd (x ∷ xs) s = rw (same i)

  end_of_out-stream :
      (items : List OutputItem) (s : Server C2s)
      → stream fd i (end_of_out i items s) ≡ written fd s.world.log ++ queued items
  unfolding end_of_out set_client server_epoll_ctl_mod note
  end_of_out-stream [] s = rw (same i)
  end_of_out-stream (x ∷ xs) s = rw (same i)

  -- `process_client_socket_out` writes the queue in its order and loses nothing of it: let the client
  -- have a descriptor. If it still has that descriptor afterwards, then what was ever written to it,
  -- followed by what waits in the queue, is the same as before the call.
  pub process_client_socket_out-stream :
      (s : Server C2s)
      → (s.clients i).client_fd ≡ some fd
      → ((process_client_socket_out i s).clients i).client_fd ≡ some fd
      → stream fd i (process_client_socket_out i s) ≡ stream fd i s
  unfolding process_client_socket_out
  process_client_socket_out-stream s c up =
      let (items, s') = out_loop s.world.writes i (s.clients i).output s in
      end_of_out-stream items s'
      ∙ out_loop-Result s.world.writes (s.clients i).output s
          (record { connected = c; answers = refl }) (sym (end_of_out-fd items s') ∙ up)
