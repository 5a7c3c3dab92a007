-- ===== src/Input/Frames.antt =====
-- The stream of bytes as the specification in README.rst describes it: frames of a type, a size and
-- a payload, one behind the other.
use messi.Base.{
  ℕ, ◌+◌, ◌^◌, ◌≤◌, ◌<◌, ◌≡◌, refl, sym, ap, ◌∙◌, List, [], ◌∷◌, ◌++◌, arith, length, length-append,
  All, append_assoc,
}
use messi.Header.{blank, header_at, header_get_size, header_set_size, header_create, header_bytes}
use messi.Header.RoundTrip.{header_at-append}

-- The size that the first four bytes announce.
abbrev pub body_size : List ℕ → ℕ
body_size bytes = header_get_size (header_at bytes)

-- A whole frame: a header and as many bytes as it announces.
pub record IsFrame (f : List ℕ) : Type 0 where
  pub long : 4 ≤ length f
  pub exact : length f ≡ 4 + body_size f

-- The front part of a frame, whose end is still to come.
pub record IsPartial (f : List ℕ) : Type 0 where
  pub short : 4 ≤ length f → length f < 4 + body_size f

abbrev pub concat : List (List ℕ) → List ℕ
concat [] = []
concat (f ∷ fs) = f ++ concat fs

pub concat-append : (fs gs : List (List ℕ)) → concat (fs ++ gs) ≡ concat fs ++ concat gs
concat-append [] gs = refl
concat-append (f ∷ fs) gs =
    ap (◌++◌ f) (concat-append fs gs) ∙ sym (append_assoc f (concat fs) (concat gs))

-- The frame of a message as the sender writes it.
unfoldable pub frame : ℕ → List ℕ → List ℕ
frame type payload = header_bytes (header_create blank type (length payload)) ++ payload

pub frame-IsFrame :
    (type : ℕ) (payload : List ℕ) → length payload < 2 ^ 24 → IsFrame (frame type payload)
unfolding frame header_bytes header_at header_create header_set_size header_get_size
frame-IsFrame type payload small = record { long = omega arith; exact = omega arith }

body_size-append : (f g : List ℕ) → 4 ≤ length f → body_size (f ++ g) ≡ body_size f
body_size-append f g h = ap header_get_size (header_at-append f g h)

append-injective : (f g x y : List ℕ) → length f ≡ length g → f ++ x ≡ g ++ y → (f ≡ g) × (x ≡ y)
append-injective [] [] x y h e = (refl, e)
append-injective [] (b ∷ g) x y h e = absurd (omega arith)
append-injective (a ∷ f) [] x y h e = absurd (omega arith)
append-injective (a ∷ f) (b ∷ g) x y h e =
    let (same, rest) = append-injective f g x y (omega arith) (cc) in (cc, rest)

pub append_cancel : (xs a b : List ℕ) → xs ++ a ≡ xs ++ b → a ≡ b
append_cancel [] a b e = e
append_cancel (x ∷ xs) a b e = append_cancel xs a b (cc)

frame_cancel : (f g x y : List ℕ) → IsFrame f → IsFrame g → f ++ x ≡ g ++ y → (f ≡ g) × (x ≡ y)
frame_cancel f g x y hf hg e =
    append-injective f g x y
      (omega (
        arith,
        hf.exact,
        hg.exact,
        body_size-append f x hf.long,
        body_size-append g y hg.long,
        ap body_size e,
      ))
      e

partial_not_frame : (f x p : List ℕ) → IsFrame f → IsPartial p → p ≡ f ++ x → ⊥
partial_not_frame f x p hf hp e = omega (
  arith,
  ap length e,
  length-append f x,
  hf.long,
  hf.exact,
  hp.short (omega (arith, ap length e, length-append f x, hf.long)),
  ap body_size e,
  body_size-append f x hf.long,
)

-- A stream of bytes is cut into frames, with a part of a frame at its end, in one way only.
pub frames_unique :
    (fs gs : List (List ℕ)) (p q : List ℕ)
    → All IsFrame fs
    → All IsFrame gs
    → IsPartial p
    → IsPartial q
    → concat fs ++ p ≡ concat gs ++ q
    → (fs ≡ gs) × (p ≡ q)
frames_unique [] [] p q hf hg hp hq e = (refl, e)
frames_unique [] (g ∷ gs) p q hf hg hp hq e =
    absurd (partial_not_frame g (concat gs ++ q) p hg.0 hp (e ∙ append_assoc g (concat gs) q))
frames_unique (f ∷ fs) [] p q hf hg hp hq e =
    absurd (partial_not_frame f (concat fs ++ p) q hf.0 hq (sym e ∙ append_assoc f (concat fs) p))
frames_unique (f ∷ fs) (g ∷ gs) p q hf hg hp hq e =
    let (same, tails) =
      frame_cancel f g (concat fs ++ p) (concat gs ++ q) hf.0 hg.0
        (sym (append_assoc f (concat fs) p) ∙ e ∙ append_assoc g (concat gs) q) in
    let (frames, ends) = frames_unique fs gs p q hf.1 hg.1 hp hq tails in (cc, ends)
