-- ===== src/Base/Lists.antt =====
-- Lists measured by native numbers, and memory that is written at an offset.
use Prim.Native.Nat.{ℕ, zero, suc, ◌+◌, ◌-◌, ◌≤◌, ◌<◌}
use mathlib.Core.Path.{◌≡◌, refl, ap}
use mathlib.Core.List.{List, [], ◌∷◌, ◌++◌}
use mathlib.Core.Option.{Option, none, some}
use native.Mathlib.Omega.{arith}

module _ {ℓ} {A : Type ℓ} where
  abbrev pub length : List A → ℕ
  length [] = 0
  length (x ∷ xs) = suc (length xs)

  abbrev pub get_elem? : List A → ℕ → Option A
  get_elem? [] i = none
  get_elem? (x ∷ xs) zero = some x
  get_elem? (x ∷ xs) (suc i) = get_elem? xs i

  abbrev pub get_or : List A → ℕ → A → A
  get_or [] i d = d
  get_or (x ∷ xs) zero d = x
  get_or (x ∷ xs) (suc i) d = get_or xs i d

  abbrev pub take : ℕ → List A → List A
  take zero xs = []
  take (suc n) [] = []
  take (suc n) (x ∷ xs) = x ∷ take n xs

  abbrev pub drop : ℕ → List A → List A
  drop zero xs = xs
  drop (suc n) [] = []
  drop (suc n) (x ∷ xs) = drop n xs

  abbrev pub replicate : ℕ → A → List A
  replicate zero x = []
  replicate (suc n) x = x ∷ replicate n x

  -- Writes `bs` over the front of the memory. What would lie behind its end is not written.
  abbrev pub overwrite : List A → List A → List A
  overwrite xs [] = xs
  overwrite [] (b ∷ bs) = []
  overwrite (x ∷ xs) (b ∷ bs) = b ∷ overwrite xs bs

  -- The same from an offset on.
  abbrev pub write_at : List A → ℕ → List A → List A
  write_at xs zero bs = overwrite xs bs
  write_at [] (suc n) bs = []
  write_at (x ∷ xs) (suc n) bs = x ∷ write_at xs n bs

  pub length-append : (xs ys : List A) → length (xs ++ ys) ≡ length xs + length ys
  length-append [] ys = omega arith
  length-append (x ∷ xs) ys = omega (arith, length-append xs ys)

  pub length-drop : (n : ℕ) (xs : List A) → length (drop n xs) ≡ length xs - n
  length-drop zero xs = omega arith
  length-drop (suc n) [] = omega arith
  length-drop (suc n) (x ∷ xs) = omega (arith, length-drop n xs)

  pub take-append : (xs ys : List A) → take (length xs) (xs ++ ys) ≡ xs
  take-append [] ys = refl
  take-append (x ∷ xs) ys = ap (◌∷◌ x) (take-append xs ys)

  pub drop-append : (xs ys : List A) → drop (length xs) (xs ++ ys) ≡ ys
  drop-append [] ys = refl
  drop-append (x ∷ xs) ys = drop-append xs ys

  pub take-append-drop : (n : ℕ) (xs : List A) → take n xs ++ drop n xs ≡ xs
  take-append-drop zero xs = refl
  take-append-drop (suc n) [] = refl
  take-append-drop (suc n) (x ∷ xs) = ap (◌∷◌ x) (take-append-drop n xs)

  pub length-take : (n : ℕ) (xs : List A) → n ≤ length xs → length (take n xs) ≡ n
  length-take zero xs h = refl
  length-take (suc n) [] h = absurd (omega arith)
  length-take (suc n) (x ∷ xs) h = ap suc (length-take n xs (omega arith))

  pub overwrite-drop :
      (xs bs : List A) → length bs ≤ length xs → overwrite xs bs ≡ bs ++ drop (length bs) xs
  overwrite-drop xs [] h = refl
  overwrite-drop [] (b ∷ bs) h = absurd (omega arith)
  overwrite-drop (x ∷ xs) (b ∷ bs) h = ap (◌∷◌ b) (overwrite-drop xs bs (omega arith))

  -- A write behind what is held extends it, if there is room.
  pub write_at-append :
      (held rest bs : List A)
      → length bs ≤ length rest
      → write_at (held ++ rest) (length held) bs ≡ held ++ (bs ++ drop (length bs) rest)
  write_at-append [] rest bs h = overwrite-drop rest bs h
  write_at-append (x ∷ held) rest bs h = ap (◌∷◌ x) (write_at-append held rest bs h)

-- What a buffer shows of its first bytes does not depend on what lies behind them.
pub get_or-append {ℓ} :
    {A : Type ℓ} (xs ys : List A) (i : ℕ) (d : A)
    → i < length xs
    → get_or (xs ++ ys) i d ≡ get_or xs i d
get_or-append [] ys i d h = absurd (omega arith)
get_or-append (x ∷ xs) ys zero d h = refl
get_or-append (x ∷ xs) ys (suc i) d h = get_or-append xs ys i d (omega arith)
