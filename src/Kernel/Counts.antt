-- ===== src/Kernel/Counts.antt =====
-- What a log of calls says of each descriptor.
use messi.Base.{ℕ, ◌+◌, List, [], ◌∷◌, ◌++◌, none, some, ◌==◌, if◌then◌else◌}
use messi.Kernel.{Fd, Call, opened, watched, unwatched, freed, wrote}

abbrev pub one_if_same : ℕ → Fd → ℕ
one_if_same fd none = 0
one_if_same fd (some g) = if fd == g then 1 else 0

module _ {E : Type 0} where
  -- How often the descriptor was created, closed, added to epoll and deleted from it.
  abbrev pub opens : ℕ → List (Call E) → ℕ
  opens fd [] = 0
  opens fd (opened g ∷ log) = one_if_same fd (some g) + opens fd log
  opens fd (_ ∷ log) = opens fd log

  abbrev pub closes : ℕ → List (Call E) → ℕ
  closes fd [] = 0
  closes fd (Call.closed g ∷ log) = one_if_same fd g + closes fd log
  closes fd (_ ∷ log) = closes fd log

  abbrev pub watches : ℕ → List (Call E) → ℕ
  watches fd [] = 0
  watches fd (watched g ∷ log) = one_if_same fd g + watches fd log
  watches fd (_ ∷ log) = watches fd log

  abbrev pub unwatches : ℕ → List (Call E) → ℕ
  unwatches fd [] = 0
  unwatches fd (unwatched g ∷ log) = one_if_same fd g + unwatches fd log
  unwatches fd (_ ∷ log) = unwatches fd log

  abbrev pub frees : ℕ → List (Call E) → ℕ
  frees a [] = 0
  frees a (freed b ∷ log) = one_if_same a (some b) + frees a log
  frees a (_ ∷ log) = frees a log

  -- What was written to the descriptor, the oldest byte first.
  abbrev pub written : ℕ → List (Call E) → List ℕ
  written fd [] = []
  written fd (wrote none bytes ∷ log) = written fd log
  written fd (wrote (some g) bytes ∷ log) = written fd log ++ (if fd == g then bytes else [])
  written fd (_ ∷ log) = written fd log
