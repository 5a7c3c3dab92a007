-- ===== src/Linux/Server/Links/Remove.antt =====
-- `remove_client_from_list` of messi/c_source/templates/linux/server.c on a list that stands for some
-- clients.
use messi.Base.{
  ℕ, ◌≡◌, refl, ap, ◌∙◌, subst, List, [], ◌∷◌, true, false, none, some, arith, ◌==◌, Bool-cases,
  inl, inr, ==→eq, eq→==,
}
use messi.Linux.Server.Links.{Ptr, Links, update, set_prev_if, remove_client_from_list}
use messi.Linux.Server.Links.Chains.{
  has, without, Chain, Backed, BackedList, Distinct, Backed-update,
}
use messi.Linux.Server.Links.Unlink.{prev_after, has-same, follows_here, prev_after-same, unlinks}

-- What `remove_client_from_list` leaves of a list that stood for `xs`. Outside the list no field of
-- a client is written, and no other list's head.
pub record Removed (l : Links) (c : ℕ) (xs : List ℕ) (head : Ptr) (l' : Links) : Type 0 where
  pub chain : Chain l'.next_p head (without c xs)
  pub backed : BackedList l'.prev_p (without c xs)
  pub next_same : (a : ℕ) → has a xs ≡ false → l'.next_p a ≡ l.next_p a
  pub prev_same : (a : ℕ) → has a xs ≡ false → l'.prev_p a ≡ l.prev_p a
  pub free_same : l'.free_list_p ≡ l.free_list_p
  pub pending_same : l'.pending_disconnect_list_p ≡ l.pending_disconnect_list_p
  pub fault_same : l'.fault ≡ l.fault

Backed_head :
    (prev : ℕ → Ptr) (next_c v : Ptr) (next : ℕ → Ptr) (ys : List ℕ)
    → Chain next next_c ys
    → Distinct ys
    → BackedList prev ys
    → BackedList (prev_after next_c v prev) ys
unfolding update
Backed_head prev next_c v next [] ch d b = tt
Backed_head prev none v next (y ∷ ys) ch d b = b
Backed_head prev (some n) v next (y ∷ ys) ch d b =
    Backed-update prev n v y ys (ground (arith, has-same n y ys)) b

pub set_prev_if_lem :
    (next_c v : Ptr) (l : Links)
    → set_prev_if next_c v l ≡ record l { prev_p = prev_after next_c v l.prev_p }
unfolding set_prev_if
set_prev_if_lem none v l = refl
set_prev_if_lem (some n) v l = refl

pub remove_first_eq :
    (l : Links) (c : ℕ)
    → remove_client_from_list (some c) c l
      ≡ (l.next_p c, record l { prev_p = prev_after (l.next_p c) (l.prev_p c) l.prev_p })
unfolding remove_client_from_list
remove_first_eq l c =
    rw (eq→== c c refl) (ap (λ (k : Links). (l.next_p c, k)) (set_prev_if_lem _ _ l))

pub prev_after-outside :
    (prev : ℕ → Ptr) (next : ℕ → Ptr) (next_c v : Ptr) (xs : List ℕ)
    → Chain next next_c xs
    → (a : ℕ) → has a xs ≡ false
    → prev_after next_c v prev a ≡ prev a
unfolding update
prev_after-outside prev next none v xs ch a out = refl
prev_after-outside prev next (some n) v xs ch a out =
    ground (arith, follows_here xs next (some n) ch n refl, has-same a n xs)

without_first : (c : ℕ) (ys : List ℕ) → without c (c ∷ ys) ≡ ys
unfolding without
without_first c ys = rw (eq→== c c refl)

remove_first :
    (l : Links) (c : ℕ) (ys : List ℕ)
    → Chain l.next_p (l.next_p c) ys
    → Distinct (c ∷ ys)
    → BackedList l.prev_p (c ∷ ys)
    → Removed l c
        (c ∷ ys)
        (remove_client_from_list (some c) c l).0
        (remove_client_from_list (some c) c l).1
remove_first l c ys ch d b = rw (remove_first_eq l c) (record {
  chain = rw (without_first c ys) ch;
  backed =
      rw (without_first c ys)
        (Backed_head l.prev_p (l.next_p c) (l.prev_p c) l.next_p ys ch d.1 (tail ys b));
  next_same = λ a out. refl;
  prev_same = λ a out.
      prev_after-outside l.prev_p l.next_p (l.next_p c) (l.prev_p c) ys ch a (ground arith);
  free_same = refl;
  pending_same = refl;
  fault_same = refl;
})
  where
    tail : (zs : List ℕ) → Backed l.prev_p c zs → BackedList l.prev_p zs
    tail [] k = tt
    tail (z ∷ zs) k = k.1

remove_later_eq :
    (l : Links) (c x p : ℕ)
    → (c == x) ≡ false
    → (c == p) ≡ false
    → l.prev_p c ≡ some p
    → remove_client_from_list (some x) c l ≡ (
      some x,
      record l {
        next_p = update l.next_p p (l.next_p c);
        prev_p = prev_after (l.next_p c) (some p) l.prev_p;
      },
    )
unfolding remove_client_from_list update
remove_later_eq l c x p ne other e =
    let l1 : Links = record l { next_p = update l.next_p p (l.next_p c) } in
    rw (ne, e, other)
      (ap {B = Ptr × Links} (λ k. (some x, k)) (set_prev_if_lem (l.next_p c) (l.prev_p c) l1)
        ∙ ap {B = Ptr × Links}
            (λ v. (some x, record l1 { prev_p = prev_after (l.next_p c) v l.prev_p })) e)

remove_later :
    (l : Links) (c x : ℕ) (ys : List ℕ)
    → Chain l.next_p (l.next_p x) ys
    → Distinct (x ∷ ys)
    → Backed l.prev_p x ys
    → (c == x) ≡ false
    → has c ys ≡ true
    → Removed l c
        (x ∷ ys)
        (remove_client_from_list (some x) c l).0
        (remove_client_from_list (some x) c l).1
unfolding update without
remove_later l c x ys ch d b ne i =
    let (p, u) = unlinks l.next_p l.prev_p c x ys ch b d i in
    rw (remove_later_eq l c x p ne u.other u.before) (record {
      chain = rw ne (ground (arith, u.chain));
      backed = rw ne u.backed;
      next_same = λ a out. ground (arith, u.inside, has-same a p (x ∷ ys));
      prev_same = λ a out.
          prev_after-same l.next_p l.prev_p c (l.next_p c) (some p) (l.prev_p a) a ys u.follows
            (ground arith) refl;
      free_same = refl;
      pending_same = refl;
      fault_same = refl;
    })

-- `remove_client_from_list` on a list of clients whose `prev_p` fields are right takes the client out
-- of it, wherever it stands.
pub remove_client_from_list-Removed :
    (l : Links) (c : ℕ) (head : Ptr) (xs : List ℕ)
    → Chain l.next_p head xs
    → Distinct xs
    → BackedList l.prev_p xs
    → has c xs ≡ true
    → Removed l c xs (remove_client_from_list head c l).0 (remove_client_from_list head c l).1
remove_client_from_list-Removed l c head [] ch d b i = absurd (cc)
remove_client_from_list-Removed l c head (x ∷ ys) (e, ch) d b i = elim (Bool-cases (c == x)) [
  | inl here ↦ rw e (
      subst
        (λ z.
          Chain l.next_p (l.next_p z) ys
          → Distinct (z ∷ ys)
          → BackedList l.prev_p (z ∷ ys)
          → Removed l c (z ∷ ys) (remove_client_from_list (some z) c l).0
              (remove_client_from_list (some z) c l).1)
        (==→eq c x here) (remove_first l c ys) ch d b)
  | inr ne ↦ rw e (remove_later l c x ys ch d b ne (ground arith))
]
