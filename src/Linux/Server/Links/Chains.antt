-- ===== src/Linux/Server/Links/Chains.antt =====
-- What a linked list of messi/c_source/templates/linux/server.c stands for: the clients in order.
use messi.Base.{
  ℕ, ◌≡◌, refl, sym, ap, subst, List, [], ◌∷◌, Bool, true, false, ◌||◌, none, some, arith, ◌==◌,
  if◌then◌else◌,
}
use messi.Linux.Server.Links.{Ptr, update}

abbrev pub has : ℕ → List ℕ → Bool
has a [] = false
has a (x ∷ xs) = (a == x) || has a xs

-- The list without the client.
unfoldable pub without : ℕ → List ℕ → List ℕ
without c [] = []
without c (x ∷ xs) = if c == x then xs else x ∷ without c xs

-- From `head` the `next_p` pointers lead through the clients to NULL.
abbrev pub Chain : (ℕ → Ptr) → Ptr → List ℕ → Type 0
Chain next head [] = head ≡ none
Chain next head (x ∷ xs) = (head ≡ some x) × Chain next (next x) xs

-- The `prev_p` pointer of each client but the first leads to the one before it.
abbrev pub Backed : (ℕ → Ptr) → ℕ → List ℕ → Type 0
Backed prev x [] = Unit
Backed prev x (y ∷ ys) = (prev y ≡ some x) × Backed prev y ys

abbrev pub BackedList : (ℕ → Ptr) → List ℕ → Type 0
BackedList prev [] = Unit
BackedList prev (x ∷ xs) = Backed prev x xs

abbrev pub Distinct : List ℕ → Type 0
Distinct [] = Unit
Distinct (x ∷ xs) = (has x xs ≡ false) × Distinct xs

abbrev pub Apart : List ℕ → List ℕ → Type 0
Apart xs ys = (a : ℕ) → has a xs ≡ true → has a ys ≡ false

-- A write to a client outside the list does not change what the list stands for.
pub Chain-update :
    (next : ℕ → Ptr) (p : ℕ) (v head : Ptr) (xs : List ℕ)
    → has p xs ≡ false
    → Chain next head xs
    → Chain (update next p v) head xs
unfolding update
Chain-update next p v head [] out c = c
Chain-update next p v head (x ∷ xs) out c =
    let rest = Chain-update next p v (next x) xs (ground arith) c.1 in (c.0, ground (arith, rest))

pub Backed-update :
    (prev : ℕ → Ptr) (p : ℕ) (v : Ptr) (x : ℕ) (xs : List ℕ)
    → has p xs ≡ false
    → Backed prev x xs
    → Backed (update prev p v) x xs
unfolding update
Backed-update prev p v x [] out b = tt
Backed-update prev p v x (y ∷ ys) out b =
    (ground arith, Backed-update prev p v y ys (ground arith) b.1)

pub Chain-same :
    (next next' : ℕ → Ptr) (head : Ptr) (xs : List ℕ)
    → ((a : ℕ) → has a xs ≡ true → next' a ≡ next a)
    → Chain next head xs
    → Chain next' head xs
Chain-same next next' head [] same c = c
Chain-same next next' head (x ∷ xs) same (e, c) = (
  e,
  subst (λ h. Chain next' h xs) (sym (same x (ground arith)))
      (Chain-same next next' (next x) xs (λ a i. same a (ground arith)) c),
)

pub has-without : (a c : ℕ) (xs : List ℕ) → has a (without c xs) ≡ true → has a xs ≡ true
unfolding without
has-without a c [] i = i
has-without a c (x ∷ xs) i = ground (arith, has-without a c xs)

pub has-without-false : (a c : ℕ) (xs : List ℕ) → has a xs ≡ false → has a (without c xs) ≡ false
unfolding without
has-without-false a c [] i = i
has-without-false a c (x ∷ xs) i = ground (arith, has-without-false a c xs)

pub Distinct-without : (c : ℕ) (xs : List ℕ) → Distinct xs → Distinct (without c xs)
unfolding without
Distinct-without c [] d = tt
Distinct-without c (x ∷ xs) d = ground (arith, has-without-false x c xs, Distinct-without c xs d.1)

pub without_self : (c : ℕ) (xs : List ℕ) → Distinct xs → has c (without c xs) ≡ false
unfolding without
without_self c [] d = refl
without_self c (x ∷ xs) d = ground (arith, without_self c xs d.1, ap (λ (t : ℕ). has t xs))
