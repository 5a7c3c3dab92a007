-- ===== src/Input/Bytes.antt =====
-- Bytes that are stored at an offset of `input.encoded_p`, and the header in front of them.
use messi.Base.{
  ℕ, zero, suc, ◌+◌, ◌-◌, ◌≤◌, ◌≡◌, refl, sym, ap, ◌∙◌, List, [], ◌∷◌, ◌++◌, arith, length, take,
  drop, overwrite, write_at, length-take, take-append-drop,
}
use messi.Header.{header_at}
use messi.Header.RoundTrip.{header_at-append}

length-overwrite : (xs bs : List ℕ) → length (overwrite xs bs) ≡ length xs
length-overwrite xs [] = refl
length-overwrite [] (b ∷ bs) = refl
length-overwrite (x ∷ xs) (b ∷ bs) = ap suc (length-overwrite xs bs)

pub length-write_at : (xs : List ℕ) (n : ℕ) (bs : List ℕ) → length (write_at xs n bs) ≡ length xs
length-write_at xs zero bs = length-overwrite xs bs
length-write_at [] (suc n) bs = refl
length-write_at (x ∷ xs) (suc n) bs = ap suc (length-write_at xs n bs)

take-overwrite :
    (xs bs : List ℕ) (m : ℕ) → m ≡ length bs → m ≤ length xs → take m (overwrite xs bs) ≡ bs
take-overwrite xs [] zero e h = refl
take-overwrite xs [] (suc m) e h = absurd (omega arith)
take-overwrite xs (b ∷ bs) zero e h = absurd (omega arith)
take-overwrite [] (b ∷ bs) (suc m) e h = absurd (omega arith)
take-overwrite (x ∷ xs) (b ∷ bs) (suc m) e h =
    ap (◌∷◌ b) (take-overwrite xs bs m (omega arith) (omega arith))

-- After a write behind the bytes held, the longer front of the buffer is those and the new ones.
pub take-write_at :
    (xs : List ℕ) (n : ℕ) (bs : List ℕ) (m : ℕ)
    → m ≡ n + length bs
    → m ≤ length xs
    → take m (write_at xs n bs) ≡ take n xs ++ bs
take-write_at xs zero bs m e h = take-overwrite xs bs m (omega arith) h
take-write_at [] (suc n) bs m e h = absurd (omega arith)
take-write_at (x ∷ xs) (suc n) bs zero e h = absurd (omega arith)
take-write_at (x ∷ xs) (suc n) bs (suc m) e h =
    ap (◌∷◌ x) (take-write_at xs n bs m (omega arith) (omega arith))

pub header_at-take :
    (xs : List ℕ) (n : ℕ) → 4 ≤ n → n ≤ length xs → header_at (take n xs) ≡ header_at xs
header_at-take xs n low high =
    sym (header_at-append (take n xs) (drop n xs) (omega (arith, length-take n xs high)))
    ∙ ap header_at (take-append-drop n xs)

pub take-drop : (k n m : ℕ) (xs : List ℕ) → m ≡ n - k → take m (drop k xs) ≡ drop k (take n xs)
take-drop zero n m xs e = ap (λ (t : ℕ). take t xs) (omega arith)
take-drop (suc k) zero zero xs e = refl
take-drop (suc k) zero (suc m) xs e = absurd (omega arith)
take-drop (suc k) (suc n) zero [] e = refl
take-drop (suc k) (suc n) (suc m) [] e = refl
take-drop (suc k) (suc n) m (x ∷ xs) e = take-drop k n m xs (omega arith)
