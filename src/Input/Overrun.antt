-- ===== src/Input/Overrun.antt =====
-- The input buffer of a connection once a message was too big for it.
use messi.Base.{ℕ, ◌+◌, ◌-◌, ◌≤◌, ◌<◌, ◌≡◌, List, arith, tests, length, ltb, Bool-cases, inl, inr}
use messi.Input.{
  Input, InputState, header, payload, too_big, message, received, end_of_header, end_of_part,
}
use messi.Input.Receive.{IsReading, InPhase}

abbrev AtHeader : InputState → ℕ → Type 0
AtHeader header size = size ≡ 4
AtHeader payload size = Unit

header_full :
    (s : InputState) (i : Input) (n : ℕ) → InPhase s i → n ≡ i.left → AtHeader s (i.size + n)
header_full header i n h e = omega arith
header_full payload i n h e = tt

part_overruns :
    (s : InputState) (i : Input)
    → AtHeader s i.size
    → (end_of_part s i).1 ≡ too_big
    → (end_of_part s i).0.buf_size < (end_of_part s i).0.size + (end_of_part s i).0.left
unfolding end_of_header
part_overruns header i h big = ground arith
part_overruns payload i h big = absurd (ground arith)

-- A header that announces more than the buffer holds leaves a count behind which reaches past the
-- buffer's end: a `read` with this input is allowed to write there.
pub too_big_overruns :
    (i : Input) (bytes : List ℕ)
    → IsReading i
    → length bytes ≤ i.left
    → (received i bytes).1 ≡ too_big
    → (received i bytes).0.buf_size < (received i bytes).0.size + (received i bytes).0.left
unfolding received
too_big_overruns i bytes ok high big = elim (Bool-cases (ltb 0 (i.left - length bytes))) [
  | inl short ↦ absurd (ground arith)
  | inr all ↦
      let full = header_full i.state i (length bytes) ok.phase (omega (tests, all)) in
      rw all (part_overruns i.state _ full (rw all at big))
]

part_ends_left :
    (s : InputState) (i : Input) → (end_of_part s i).1 ≡ message → (end_of_part s i).0.left ≡ 0
unfolding end_of_header
part_ends_left header i h = ground arith
part_ends_left payload i h = ground arith

-- Once a frame is complete, no byte of it is left.
pub message_left :
    (i : Input) (bytes : List ℕ) → (received i bytes).1 ≡ message → (received i bytes).0.left ≡ 0
unfolding received
message_left i bytes h = elim (Bool-cases (ltb 0 (i.left - length bytes))) [
  | inl short ↦ absurd (ground arith)
  | inr all ↦ rw all (part_ends_left i.state _ (rw all at h))
]
