-- ===== src/Linux/Server/Links/Alloc.antt =====
-- `alloc_client` of messi/c_source/templates/linux/server.c against the lists of clients.
use messi.Base.{ℕ, ◌≡◌, refl, ap, ◌∙◌, List, [], ◌∷◌, false, none, some, arith}
use messi.Linux.Server.Links.{Ptr, Links, update, alloc_from, alloc_client}
use messi.Linux.Server.Links.Chains.{
  has, Chain, BackedList, Distinct, Apart, Chain-update, Backed-update,
}
use messi.Linux.Server.Links.Unlink.{prev_after, has-same}
use messi.Linux.Server.Links.Remove.{set_prev_if_lem}
use messi.Linux.Server.Links.Moves.{Lists, Apart-not, Apart-cons, Chain-front}

Apart-move : (c : ℕ) (xs ys : List ℕ) → Apart xs (c ∷ ys) → has c ys ≡ false → Apart (c ∷ xs) ys
Apart-move c xs ys d out = λ a i. ground (arith, d a, has-same a c ys)

BackedList-cons :
    (prev next : ℕ → Ptr) (c : ℕ) (cs : List ℕ) (head : Ptr)
    → Chain next head cs
    → Distinct cs
    → BackedList prev cs
    → BackedList (prev_after head (some c) prev) (c ∷ cs)
unfolding update
BackedList-cons prev next c [] head ch d b = tt
BackedList-cons prev next c (x ∷ xs) none ch d b = absurd (ground arith)
BackedList-cons prev next c (x ∷ xs) (some n) ch d b =
    (ground arith, Backed-update prev n (some c) x xs (ground (arith, has-same n x xs)) b)

alloc_from_eq :
    (c : ℕ) (l : Links)
    → alloc_from (some c) l ≡ (
      some c,
      record l {
        next_p = update l.next_p c l.connected_list_p;
        prev_p = prev_after l.connected_list_p (some c) l.prev_p;
        connected_list_p = some c;
        free_list_p = l.next_p c;
      },
    )
unfolding alloc_from
alloc_from_eq c l =
    ap {B = Ptr × Links} (λ k. (some c, record k { connected_list_p = some c }))
      (set_prev_if_lem l.connected_list_p (some c)
        (record l { next_p = update l.next_p c l.connected_list_p; free_list_p = l.next_p c }))

alloc_client_eq :
    (c : ℕ) (l : Links)
    → l.free_list_p ≡ some c
    → alloc_client l ≡ (
      some c,
      record l {
        next_p = update l.next_p c l.connected_list_p;
        prev_p = prev_after l.connected_list_p (some c) l.prev_p;
        connected_list_p = some c;
        free_list_p = l.next_p c;
      },
    )
unfolding alloc_client
alloc_client_eq c l e = ap (λ h. alloc_from h l) e ∙ alloc_from_eq c l

-- A free client becomes the first connected one.
pub alloc_client-Lists :
    (l : Links) (c : ℕ) (cs fs ps : List ℕ)
    → Lists l cs (c ∷ fs) ps
    → ((alloc_client l).0 ≡ some c) × Lists (alloc_client l).1 (c ∷ cs) fs ps
alloc_client-Lists l c cs fs ps v =
    let out : has c cs ≡ false = Apart-not c cs (c ∷ fs) v.apart_cf (ground arith) in
    let apart : has c ps ≡ false = v.apart_fp c (ground arith) in
    rw (alloc_client_eq c l v.free.0) (
      refl,
      record {
        connected = Chain-front l.next_p c l.connected_list_p cs out v.connected;
        free = Chain-update l.next_p c l.connected_list_p (l.next_p c) fs v.distinct_f.0 v.free.1;
        pending =
            Chain-update l.next_p c l.connected_list_p l.pending_disconnect_list_p ps apart
              v.pending;
        backed =
            BackedList-cons l.prev_p l.next_p c cs l.connected_list_p v.connected v.distinct_c
              v.backed;
        distinct_c = (out, v.distinct_c);
        distinct_f = v.distinct_f.1;
        distinct_p = v.distinct_p;
        apart_cf = Apart-move c cs fs v.apart_cf v.distinct_f.0;
        apart_cp = Apart-cons c cs ps v.apart_cp apart;
        apart_fp = λ a i. v.apart_fp a (ground arith);
        sound = v.sound;
      },
    )
