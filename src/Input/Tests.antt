-- ===== src/Input/Tests.antt =====
-- The input buffer of a connection at concrete bytes.
use messi.Base.{ℕ, ◌<◌, ◌+◌, refl, List, [], ◌∷◌, arith}
use messi.Header.{header_at, header_get_size}
use messi.Input.{Input, header, received}
use messi.Input.Frames.{IsFrame}
use messi.Input.Receive.{IsReading, Continues, received_lem}
use messi.Input.Overrun.{too_big_overruns}

-- A buffer of eight bytes, of which two are held.
abbrev two_held : Input
two_held = record {
  buf = 2 ∷ 0 ∷ 9 ∷ 9 ∷ 0 ∷ 0 ∷ 0 ∷ 0 ∷ [];
  buf_size = 8;
  size = 2;
  left = 2;
  state = header;
}

two_held-IsReading : IsReading two_held
two_held-IsReading = record {
  storage = refl;
  room = omega arith;
  waits = omega arith;
  phase = omega arith;
}

received_lem_example :
    Continues two_held
      (0 ∷ 1 ∷ [])
      (received two_held (0 ∷ 1 ∷ [])).1
      (received two_held (0 ∷ 1 ∷ [])).0
received_lem_example =
    received_lem two_held (0 ∷ 1 ∷ []) two_held-IsReading (omega arith) (omega arith)

-- The header announces nine bytes.
too_big_overruns_example :
    let i = (received two_held (0 ∷ 9 ∷ [])).0 in i.buf_size < i.size + i.left
unfolding received header_at header_get_size
too_big_overruns_example =
    too_big_overruns two_held (0 ∷ 9 ∷ []) two_held-IsReading (omega arith) refl

abbrev ping_frame : List ℕ
ping_frame = 3 ∷ 0 ∷ 0 ∷ 0 ∷ []

abbrev two_bytes : List ℕ
two_bytes = 2 ∷ 0 ∷ []

ping-IsFrame : IsFrame ping_frame
unfolding header_at header_get_size
ping-IsFrame = record { long = omega arith; exact = refl }
