-- ===== src/Linux/Server/Output/DoubleFree.antt =====
-- The memory of the queue in `process_client_socket_out` of messi/c_source/templates/linux/server.c: the
-- loop frees an item while `output.head_p` still leads to it.
use messi.Base.{none-some, ℕ, suc, ◌≤◌, ◌≡◌, refl, ap, ap₂, ◌∙◌, List, [], ◌∷◌, none, some, arith}
use messi.Kernel.{
  Round, go_on, leave, Fd, Call, World, WriteReply, sent, again, failed, freed, note, note_wrote,
  close, next_write, later_writes,
}
use messi.Kernel.Counts.{one_if_same, frees}
use messi.Linux.Server.State.{
  Server, ServerEvent, OutputItem, free_items, free_client_output, set_client, disconnect_from,
  client_pending_disconnect, server_close_fd, server_epoll_ctl_del, server_epoll_ctl_mod,
}
use messi.Linux.Server.Output.{
  item_bytes, write_reply, wrote_to, out_round, out_loop, end_of_out, process_client_socket_out,
}
use messi.Linux.Server.Output.Stream.{same, write_log, write_reply_lem, write_answers}

same_one : (a : ℕ) → one_if_same a (some a) ≡ 1
same_one a = rw (same a)

module _ {C2s : Type 0} (a : ℕ) where
  free_items-frees :
      (items : List OutputItem) (w : World (ServerEvent C2s))
      → frees a w.log ≤ frees a (free_items items w).log
  unfolding free_items note
  free_items-frees [] w = omega arith
  free_items-frees (item ∷ items) w =
      omega (arith, free_items-frees items (note (freed item.address) w))

  free_items-first :
      (item : OutputItem) (items : List OutputItem) (w : World (ServerEvent C2s))
      → item.address ≡ a
      → suc (frees a w.log) ≤ frees a (free_items (item ∷ items) w).log
  unfolding free_items note
  free_items-first item items w e =
      let one : one_if_same a (some item.address) ≡ 1 =
        ap (λ b. one_if_same a (some b)) e ∙ same_one a in
      omega (arith, one, free_items-frees items (note (freed item.address) w))

  note_wrote-frees :
      (f : Fd) (bytes : List ℕ) (r : WriteReply) (log : List (Call (ServerEvent C2s)))
      → frees a (note_wrote f bytes r log) ≡ frees a log
  note_wrote-frees f bytes (sent n) log = refl
  note_wrote-frees f bytes again log = refl
  note_wrote-frees f bytes failed log = refl

  module _ (fd i : ℕ) where
    wrote_to-frees :
        (bytes : List ℕ) (s : Server C2s)
        → (s.clients i).client_fd ≡ some fd
        → frees a (wrote_to i bytes s).world.log ≡ frees a s.world.log
    wrote_to-frees bytes s c =
        ap (frees a) (write_log fd bytes s.world (s.clients i).client_fd c)
        ∙ note_wrote-frees (some fd) bytes (write_reply i bytes s) s.world.log

    disconnect_from-frees :
        (f : Fd) (item : OutputItem) (items : List OutputItem) (s : Server C2s)
        → f ≡ some fd
        → item.address ≡ a
        → (s.clients i).output ≡ item ∷ items
        → suc (frees a s.world.log) ≤ frees a (disconnect_from f i s).world.log
    unfolding disconnect_from free_client_output set_client server_close_fd server_epoll_ctl_del
        close note
    disconnect_from-frees none item items s h e q = absurd (none-some h)
    disconnect_from-frees (some f) item items s h e q =
        rw (same i, q) (free_items-first item items _ e)

    -- What the loop does with the result of a round.
    abbrev rounds_after :
        List WriteReply → Round (List OutputItem × Server C2s) → List OutputItem × Server C2s
    rounds_after ws (go_on r) = out_loop ws i r.0 r.1
    rounds_after ws (leave r) = r

    out_round-whole :
        (item : OutputItem) (items : List OutputItem) (s : Server C2s)
        → out_round (sent item.size) i item items s
          ≡ go_on (items, record s { world = note (freed item.address) s.world })
    unfolding out_round
    out_round-whole item items s = rw (same item.size)

    out_loop-whole :
        (w : WriteReply) (ws : List WriteReply) (item : OutputItem) (items : List OutputItem)
        (s : Server C2s)
        → write_reply i (item_bytes item) s ≡ sent item.size
        → out_loop (w ∷ ws) i (item ∷ items) s
          ≡ out_loop ws i items (record s {
            world = note (freed item.address) (wrote_to i (item_bytes item) s).world;
          })
    unfolding out_loop out_round
    out_loop-whole w ws item items s e = ap (rounds_after ws) (
        ap (λ (r : WriteReply). out_round r i item items (wrote_to i (item_bytes item) s)) e
        ∙ out_round-whole item items (wrote_to i (item_bytes item) s))

    out_loop-failed :
        (w : WriteReply) (ws : List WriteReply) (item : OutputItem) (items : List OutputItem)
        (s : Server C2s)
        → write_reply i (item_bytes item) s ≡ failed
        → out_loop (w ∷ ws) i (item ∷ items) s
          ≡ (item ∷ items, client_pending_disconnect i (wrote_to i (item_bytes item) s))
    unfolding out_loop out_round
    out_loop-failed w ws item items s e =
        ap (rounds_after ws)
          (ap (λ (r : WriteReply). out_round r i item items (wrote_to i (item_bytes item) s)) e)

    end_of_out-frees :
        (items : List OutputItem) (s : Server C2s)
        → frees a (end_of_out i items s).world.log ≡ frees a s.world.log
    unfolding end_of_out set_client server_epoll_ctl_mod note
    end_of_out-frees [] s = refl
    end_of_out-frees (x ∷ xs) s = refl

    -- If the first item of a queue is written whole and the write of the second one fails,
    -- `process_client_socket_out` frees the first item twice.
    pub failed_write_frees_twice :
        (first second : OutputItem) (items : List OutputItem) (ws : List WriteReply)
        (s : Server C2s)
        → first.address ≡ a
        → (s.clients i).client_fd ≡ some fd
        → (s.clients i).output ≡ first ∷ second ∷ items
        → s.world.writes ≡ sent first.size ∷ failed ∷ ws
        → suc (suc (frees a s.world.log)) ≤ frees a (process_client_socket_out i s).world.log
    unfolding process_client_socket_out client_pending_disconnect note
    failed_write_frees_twice first second items ws s e c q k =
        let b1 = item_bytes first in
        let b2 = item_bytes second in
        let w1 = (wrote_to i b1 s).world in
        let s1 : Server C2s = record s { world = note (freed first.address) w1 } in
        let s2 : Server C2s = wrote_to i b2 s1 in
        let answers : s1.world.writes ≡ failed ∷ ws =
          write_answers fd b1 s.world (s.clients i).client_fd c ∙ ap later_writes k in
        let done : out_loop s.world.writes i (s.clients i).output s
            ≡ (second ∷ items, client_pending_disconnect i s2) =
          ap₂ (λ (v : List WriteReply) (o : List OutputItem). out_loop v i o s) k q
          ∙ out_loop-whole (sent first.size) (failed ∷ ws) first (second ∷ items) s
              (write_reply_lem fd b1 s.world (s.clients i).client_fd c ∙ ap next_write k)
          ∙ out_loop-failed failed ws second items s1
              (write_reply_lem fd b2 s1.world (s.clients i).client_fd c ∙ ap next_write answers) in
        let ends = end_of_out-frees (second ∷ items) (client_pending_disconnect i s2) in
        let same_log : frees a (process_client_socket_out i s).world.log
            ≡ frees a (end_of_out i (second ∷ items) (client_pending_disconnect i s2)).world.log =
          ap (λ (r : List OutputItem × Server C2s). frees a (end_of_out i r.0 r.1).world.log)
            done in
        let one : one_if_same a (some first.address) ≡ 1 =
          ap (λ (b : ℕ). one_if_same a (some b)) e ∙ same_one a in
        omega (
          arith,
          same_log,
          ends,
          one,
          wrote_to-frees b1 s c,
          wrote_to-frees b2 s1 c,
          disconnect_from-frees (s2.clients i).client_fd first (second ∷ items) s2 c e q,
        )
