-- ===== src/Linux/Server/Links/Pending.antt =====
-- `free_pending_disconnect_client` of messi/c_source/templates/linux/server.c: the list of clients with
-- a disconnect pending is linked one way only.
use messi.Base.{ℕ, ◌≡◌, ap, ◌∙◌, List, [], ◌∷◌, true, false, none, some, arith, ◌==◌}
use messi.Linux.Server.Links.{
  Ptr, Links, update, remove_client_from_list, add_to_free, free_pending_disconnect_client,
  move_client_to_pending_disconnect_list,
}
use messi.Linux.Server.Links.Chains.{has, Backed, BackedList, Chain-update}
use messi.Linux.Server.Links.Unlink.{prev_after, has-same}
use messi.Linux.Server.Links.Remove.{
  remove_first_eq, prev_after-outside, remove_client_from_list-Removed,
}
use messi.Linux.Server.Links.Moves.{
  Lists, Chain-front, Apart-not, Apart-cons, Apart-front, Apart-tail,
  move_client_to_pending_disconnect_list-Lists,
}

free_pending_eq :
    (c : ℕ) (l : Links)
    → l.pending_disconnect_list_p ≡ some c
    → free_pending_disconnect_client c l ≡ record l {
      prev_p = prev_after (l.next_p c) (l.prev_p c) l.prev_p;
      pending_disconnect_list_p = l.next_p c;
      next_p = update l.next_p c l.free_list_p;
      free_list_p = some c;
    }
unfolding free_pending_disconnect_client add_to_free
free_pending_eq c l e =
    ap {B = Links}
      (λ h.
        let (head, l1) = remove_client_from_list h c l in
        add_to_free c (record l1 { pending_disconnect_list_p = head }))
      e
    ∙ ap {B = Links}
        (λ (p : Ptr × Links). add_to_free c (record (p.1) { pending_disconnect_list_p = p.0 }))
        (remove_first_eq l c)

Backed-same :
    (prev prev' : ℕ → Ptr) (x : ℕ) (xs : List ℕ)
    → ((a : ℕ) → has a xs ≡ true → prev' a ≡ prev a)
    → Backed prev x xs
    → Backed prev' x xs
Backed-same prev prev' x [] same b = tt
Backed-same prev prev' x (y ∷ ys) same b =
    (same y (ground arith) ∙ b.0, Backed-same prev prev' y ys (λ a m. same a (ground arith)) b.1)

BackedList-same :
    (prev prev' : ℕ → Ptr) (xs : List ℕ)
    → ((a : ℕ) → has a xs ≡ true → prev' a ≡ prev a)
    → BackedList prev xs
    → BackedList prev' xs
BackedList-same prev prev' [] same b = tt
BackedList-same prev prev' (x ∷ xs) same b =
    Backed-same prev prev' x xs (λ a m. same a (ground arith)) b

-- The first client with a disconnect pending becomes the first free one. The other clients keep their
-- lists and their order.
pub free_pending_disconnect_client-Lists :
    (l : Links) (c : ℕ) (cs fs ps : List ℕ)
    → Lists l cs fs (c ∷ ps)
    → Lists (free_pending_disconnect_client c l) cs (c ∷ fs) ps
free_pending_disconnect_client-Lists l c cs fs ps v =
    let out_c : has c cs ≡ false = Apart-not c cs (c ∷ ps) v.apart_cp (ground arith) in
    let out_f : has c fs ≡ false = Apart-not c fs (c ∷ ps) v.apart_fp (ground arith) in
    let apart = Apart-tail c cs ps v.apart_cp in
    rw (free_pending_eq c l v.pending.0) (record {
      connected = Chain-update l.next_p c l.free_list_p l.connected_list_p cs out_c v.connected;
      free = Chain-front l.next_p c l.free_list_p fs out_f v.free;
      pending = Chain-update l.next_p c l.free_list_p (l.next_p c) ps v.distinct_p.0 v.pending.1;
      backed =
          BackedList-same l.prev_p (prev_after (l.next_p c) (l.prev_p c) l.prev_p) cs
            (λ a m.
              prev_after-outside l.prev_p l.next_p (l.next_p c) (l.prev_p c) ps v.pending.1 a
                (apart a m))
            v.backed;
      distinct_c = v.distinct_c;
      distinct_f = (out_f, v.distinct_f);
      distinct_p = v.distinct_p.1;
      apart_cf = Apart-front c cs fs v.apart_cf out_c;
      apart_cp = apart;
      apart_fp = Apart-cons c fs ps (Apart-tail c fs ps v.apart_fp) v.distinct_p.0;
      sound = v.sound;
    })

free_pending_faults :
    (l : Links) (c d : ℕ)
    → l.pending_disconnect_list_p ≡ some d
    → (c == d) ≡ false
    → l.prev_p c ≡ none
    → (free_pending_disconnect_client c l).fault ≡ true
unfolding free_pending_disconnect_client
free_pending_faults l c d e ne p = ground arith

prev_p-move :
    {fs ps : List ℕ} (l : Links) (c d : ℕ) (cs : List ℕ)
    → Lists l cs fs ps
    → has d cs ≡ true
    → has c cs ≡ false
    → (move_client_to_pending_disconnect_list d l).prev_p c ≡ l.prev_p c
unfolding move_client_to_pending_disconnect_list
prev_p-move l c d cs v i out =
    let r =
      remove_client_from_list-Removed l d l.connected_list_p cs v.connected v.distinct_c v.backed
        i in
    r.prev_same c out

-- If the user's callback for a disconnected client `c` disconnects another, connected client `d`, then
-- `d` is put in front of `c` in the list, where nothing sets the `prev_p` field of `c`. With that field
-- NULL, as in cleared memory, the code then reaches a field through NULL.
pub disconnect_in_callback_faults :
    (l : Links) (c d : ℕ) (cs fs ps : List ℕ)
    → Lists l cs fs (c ∷ ps)
    → has d cs ≡ true
    → l.prev_p c ≡ none
    → (free_pending_disconnect_client c (move_client_to_pending_disconnect_list d l)).fault ≡ true
disconnect_in_callback_faults l c d cs fs ps v i e =
    let out : has c cs ≡ false = Apart-not c cs (c ∷ ps) v.apart_cp (ground arith) in
    let moved = move_client_to_pending_disconnect_list-Lists l d cs fs (c ∷ ps) v i in
    free_pending_faults (move_client_to_pending_disconnect_list d l) c d moved.pending.0
      (ground (arith, has-same c d cs)) (prev_p-move l c d cs v i out ∙ e)
