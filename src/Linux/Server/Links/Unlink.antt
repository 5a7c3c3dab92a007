-- ===== src/Linux/Server/Links/Unlink.antt =====
-- The pointers that `remove_client_from_list` of messi/c_source/templates/linux/server.c leaves when the
-- client is not the first of its list.
use messi.Base.{
  ℕ, ◌≡◌, refl, ap, subst, List, [], ◌∷◌, true, false, none, some, arith, ◌==◌, Bool-cases, inl,
  inr, ==→eq,
}
use messi.Linux.Server.Links.{Ptr, update}
use messi.Linux.Server.Links.Chains.{
  has, without, Chain, Backed, Distinct, Chain-update, Backed-update,
}

-- The `prev_p` fields after the last statement.
abbrev pub prev_after : Ptr → Ptr → (ℕ → Ptr) → ℕ → Ptr
prev_after none v prev = prev
prev_after (some n) v prev = update prev n v

-- The client `c` stands in the list behind `x`, and `p` is the one before it.
pub record Unlinks (next prev : ℕ → Ptr) (c x : ℕ) (ys : List ℕ) (p : ℕ) : Type 0 where
  pub before : prev c ≡ some p
  pub inside : has p (x ∷ ys) ≡ true
  pub other : (c == p) ≡ false
  pub follows : (n : ℕ) → next c ≡ some n → has n ys ≡ true
  pub chain : Chain (update next p (next c)) (update next p (next c) x) (without c ys)
  pub backed : Backed (prev_after (next c) (some p) prev) x (without c ys)

pub has-same : (a b : ℕ) (xs : List ℕ) → a ≡ b → has a xs ≡ has b xs
has-same a b xs e = ap (λ (t : ℕ). has t xs) e

-- The client stands right behind `x`.
Backed-here :
    (prev : ℕ → Ptr) (x c : ℕ) (zs : List ℕ) (next_c : Ptr) (next : ℕ → Ptr)
    → Chain next next_c zs
    → Distinct zs
    → Backed prev c zs
    → Backed (prev_after next_c (some x) prev) x zs
unfolding update
Backed-here prev x c [] next_c next ch d b = tt
Backed-here prev x c (z ∷ zs) none next ch d b = absurd (ground arith)
Backed-here prev x c (z ∷ zs) (some n) next ch d b =
    (ground arith, Backed-update prev n (some x) z zs (ground (arith, has-same n z zs)) b.1)

pub follows_here :
    (zs : List ℕ) (next : ℕ → Ptr) (next_c : Ptr)
    → Chain next next_c zs
    → (n : ℕ) → next_c ≡ some n
    → has n zs ≡ true
follows_here [] next next_c ch n e = absurd (cc)
follows_here (z ∷ zs) next next_c ch n e = ground arith

module _ (next prev : ℕ → Ptr) (c : ℕ) where
  Unlinks-here :
      (x : ℕ) (zs : List ℕ)
      → Chain next (next x) (c ∷ zs)
      → Backed prev x (c ∷ zs)
      → Distinct (x ∷ c ∷ zs)
      → Unlinks next prev c x (c ∷ zs) x
  unfolding update without
  Unlinks-here x zs ch bk ds = record {
    before = bk.0;
    inside = ground arith;
    other = ground arith;
    follows = λ n e. ground (arith, follows_here zs next (next c) ch.1 n);
    chain = ground (arith, Chain-update next x (next c) (next c) zs (ground arith) ch.1);
    backed = ground (arith, Backed-here prev x c zs (next c) next ch.1 ds.1.1 bk.1);
  }

  -- The `prev_p` field of a client outside the list behind it stays.
  pub prev_after-same :
      (next_c v w : Ptr) (y : ℕ) (zs : List ℕ)
      → ((n : ℕ) → next_c ≡ some n → has n zs ≡ true)
      → has y zs ≡ false
      → prev y ≡ w
      → prev_after next_c v prev y ≡ w
  unfolding update
  prev_after-same none v w y zs f out e = e
  prev_after-same (some n) v w y zs f out e = ground (arith, f n refl, has-same y n zs)

  Unlinks-later :
      (x y : ℕ) (zs : List ℕ) (p : ℕ)
      → Chain next (next x) (y ∷ zs)
      → Backed prev x (y ∷ zs)
      → Distinct (x ∷ y ∷ zs)
      → (c == y) ≡ false
      → Unlinks next prev c y zs p
      → Unlinks next prev c x (y ∷ zs) p
  unfolding without update
  Unlinks-later x y zs p ch bk ds ne u = record {
    before = u.before;
    inside = ground (arith, u.inside);
    other = u.other;
    follows = λ n e. ground (arith, u.follows n e);
    chain = rw ne (ground (arith, u.chain, u.inside, has-same x p (y ∷ zs)));
    backed =
        rw ne
          (prev_after-same (next c) (some p) (some x) y zs u.follows (ground arith) bk.0, u.backed);
  }

  pub unlinks :
      (x : ℕ) (ys : List ℕ)
      → Chain next (next x) ys
      → Backed prev x ys
      → Distinct (x ∷ ys)
      → has c ys ≡ true
      → (p : ℕ) × Unlinks next prev c x ys p
  unlinks x [] ch bk ds found = absurd (cc)
  unlinks x (y ∷ zs) ch bk ds found = elim (Bool-cases (c == y)) [
    | inl e ↦ (
      x,
      subst (λ z. Unlinks next prev c x (z ∷ zs) x) (==→eq c y e)
          (Unlinks-here x zs (ground arith) (ground arith) (ground arith)),
    )
    | inr ne ↦
        let (p, u) = unlinks y zs ch.1 bk.1 ds.1 (ground arith) in
        (p, Unlinks-later x y zs p ch bk ds ne u)
  ]
