-- ===== src/Input/Receive.antt =====
-- What the body of the read loops does with the bytes of one `read`.
use messi.Base.{
  ℕ, ◌+◌, ◌-◌, ◌≤◌, ◌<◌, ◌≡◌, refl, sym, ap, ◌∙◌, List, ◌++◌, arith, tests, length, take, drop,
  write_at, length-append, length-take, ltb, ◌==◌, Bool-cases, true, eq→==, ap₂, inl, inr,
}
use messi.Header.{header_at, header_get_size, Header}
use messi.Header.RoundTrip.{header_at-append}
use messi.Input.{
  Input, InputState, header, payload, Outcome, more, too_big, message, reset_input, end_of_header,
  end_of_part, received, message_type, message_payload,
}
use messi.Input.Bytes.{length-write_at, take-write_at, header_at-take, take-drop}
use messi.Input.Frames.{body_size, IsFrame, IsPartial}

-- The bytes of the frame that is being read.
abbrev pub held : Input → List ℕ
held i = take i.size i.buf

abbrev pub InPhase : InputState → Input → Type 0
InPhase header i = i.size + i.left ≡ 4
InPhase payload i = (4 ≤ i.size) × (i.size + i.left ≡ 4 + header_get_size (header_at i.buf))

-- The input between two reads: there is something to read, and room for it in the buffer.
pub record IsReading (i : Input) : Type 0 where
  pub storage : length i.buf ≡ i.buf_size
  pub room : i.size + i.left ≤ i.buf_size
  pub waits : 0 < i.left
  pub phase : InPhase i.state i

-- The input with the bytes of a `read` behind those held: the first statements of the loop's body.
abbrev stored : Input → List ℕ → Input
stored i bytes = record i {
  buf = write_at i.buf i.size bytes;
  size = i.size + length bytes;
  left = i.left - length bytes;
}

abbrev bytes_so_far : Input → List ℕ → List ℕ
bytes_so_far i bytes = held i ++ bytes

-- What holds after the bytes of a `read`, by the place where the loop goes on.
abbrev pub Continues : Input → List ℕ → Outcome → Input → Type 0
Continues i bytes more i' = IsReading i' × (held i' ≡ held i ++ bytes) × (i'.buf_size ≡ i.buf_size)
Continues i bytes too_big i' =
    (length (held i ++ bytes) ≡ 4)
    × (i.buf_size < 4 + body_size (held i ++ bytes))
    × (i'.buf_size ≡ i.buf_size)
Continues i bytes message i' =
    IsFrame (held i ++ bytes)
    × (message_type i' ≡ (header_at (held i ++ bytes)).type)
    × (message_payload i' ≡ drop 4 (held i ++ bytes))
    × (i'.size ≡ length (held i ++ bytes))
    × (length i'.buf ≡ i'.buf_size)
    × (i'.buf_size ≡ i.buf_size)

module _ (i : Input) (bytes : List ℕ) (ok : IsReading i) (low : 0 < length bytes)
    (high : length bytes ≤ i.left) where
  stored-held : held (stored i bytes) ≡ held i ++ bytes
  stored-held =
      take-write_at i.buf i.size bytes (i.size + length bytes) refl
        (omega (arith, ok.storage, ok.room))

  stored-storage : length (stored i bytes).buf ≡ i.buf_size
  stored-storage = length-write_at i.buf i.size bytes ∙ ok.storage

  so_far-length : length (held i ++ bytes) ≡ i.size + length bytes
  so_far-length = omega (
    arith,
    length-append (held i) bytes,
    length-take i.size i.buf (omega (arith, ok.storage, ok.room)),
  )

  stored-header :
      4 ≤ i.size + length bytes → header_at (stored i bytes).buf ≡ header_at (held i ++ bytes)
  stored-header four =
      sym (
        header_at-take (stored i bytes).buf (i.size + length bytes) four
          (omega (arith, stored-storage, ok.room)))
      ∙ ap header_at stored-held

  old-header : 4 ≤ i.size → header_at (held i ++ bytes) ≡ header_at i.buf
  old-header four =
      header_at-append (held i) bytes
        (omega (arith, length-take i.size i.buf (omega (arith, ok.storage, ok.room))))
      ∙ header_at-take i.buf i.size four (omega (arith, ok.storage, ok.room))

  stored-InPhase : (s : InputState) → InPhase s i → InPhase s (stored i bytes)
  stored-InPhase header h = omega arith
  stored-InPhase payload (four, whole) = (
    omega arith,
    omega (
      arith,
      ap header_get_size (stored-header (omega arith)),
      ap header_get_size (old-header four),
    ),
  )

  -- The read was shorter than asked for.
  goes_on : length bytes < i.left → Continues i bytes more (stored i bytes)
  goes_on short = (
    record {
      storage = stored-storage;
      room = omega (arith, ok.room);
      waits = omega arith;
      phase = stored-InPhase i.state ok.phase;
    },
    stored-held,
    refl,
  )

  -- The last byte of the payload is there.
  completes :
      (i' : Input)
      → i'.buf ≡ (stored i bytes).buf
      → i'.buf_size ≡ i.buf_size
      → i'.size ≡ i.size + length bytes
      → 4 ≤ i.size + length bytes
      → i.size + length bytes ≡ 4 + body_size (held i ++ bytes)
      → Continues i bytes message i'
  unfolding message_type message_payload
  completes i' b s z four whole = (
    record { long = omega (arith, so_far-length); exact = omega (arith, so_far-length) },
    ap (λ (buf : List ℕ). (header_at buf).type) b
        ∙ ap (λ (h : Header). h.type) (stored-header four),
    take-drop 4 i'.size (i'.size - 4) i'.buf refl ∙ ap (drop 4) (ap₂ take z b ∙ stored-held),
    z ∙ sym so_far-length,
    ap length b ∙ stored-storage ∙ sym s,
    s,
  )

  header_ends :
      i.size + length bytes ≡ 4
      → Continues i bytes (end_of_header (stored i bytes)).1 (end_of_header (stored i bytes)).0
  unfolding end_of_header
  header_ends four =
      let left = header_get_size (header_at (stored i bytes).buf) in
      let announced = ap header_get_size (stored-header (omega arith)) in
      elim (Bool-cases (ltb i.buf_size (left + 4))) [
        | inl big ↦ rw big (omega (arith, so_far-length), omega (tests, announced, big), refl)
        | inr fits ↦ rw fits (elim (Bool-cases (left == 0)) [
          | inl empty ↦
              rw empty (completes _ refl refl refl (omega arith) (omega (tests, announced, empty)))
          | inr body ↦ rw body (
            record {
              storage = stored-storage;
              room = omega (tests, fits);
              waits = ground (arith, body);
              phase = (omega arith, omega arith);
            },
            stored-held,
            refl,
          )
        ])
      ]

  part_ends :
      (s : InputState)
      → InPhase s i
      → length bytes ≡ i.left
      → Continues i bytes (end_of_part s (stored i bytes)).1 (end_of_part s (stored i bytes)).0
  part_ends header h all = header_ends (omega arith)
  part_ends payload (four, whole) all =
      let none_left : (i.left - length bytes == 0) ≡ true = eq→== _ _ (omega arith) in
      rw none_left (
        completes (stored i bytes) refl refl refl (omega arith)
          (omega (arith, ap header_get_size (old-header four))))

  -- What the loop's body does with the bytes of one `read`, on each of its branches. They go behind
  -- those held. Either the frame is still incomplete, and the input is ready for the next read; or the
  -- header is, and announces more than the buffer holds; or the bytes so far are one whole frame, and
  -- the type and the payload that are handled are those of that frame.
  pub received_lem : Continues i bytes (received i bytes).1 (received i bytes).0
  unfolding received
  received_lem = elim (Bool-cases (ltb 0 (i.left - length bytes))) [
    | inl short ↦ rw short (goes_on (omega (tests, short)))
    | inr all ↦ rw all (part_ends i.state ok.phase (omega (tests, all)))
  ]

-- After a reset the input waits for a header, if the buffer has room for one.
pub reset_input-IsReading :
    (i : Input) → length i.buf ≡ i.buf_size → 4 ≤ i.buf_size → IsReading (reset_input i)
unfolding reset_input
reset_input-IsReading i s h = record {
  storage = s;
  room = omega arith;
  waits = omega arith;
  phase = omega arith;
}

phase-short :
    (s : InputState) (i : Input)
    → InPhase s i
    → 0 < i.left
    → length (held i) ≡ i.size
    → i.size ≤ length i.buf
    → 4 ≤ length (held i)
    → length (held i) < 4 + body_size (held i)
phase-short header i h waits l m four = absurd (omega arith)
phase-short payload i (low, whole) waits l m four =
    omega (arith, ap header_get_size (header_at-take i.buf i.size low m))

-- What is held between two reads is the front part of a frame.
pub held-IsPartial : {i : Input} → IsReading i → IsPartial (held i)
held-IsPartial {i} ok =
    let inside : i.size ≤ length i.buf = omega (arith, ok.storage, ok.room) in
    record {
      short = phase-short i.state i ok.phase ok.waits (length-take i.size i.buf inside) inside;
    }

phase_room :
    (s : InputState) (i : Input) → InPhase s i → i.size + i.left ≤ i.buf_size → 4 ≤ i.buf_size
phase_room header i h r = omega arith
phase_room payload i h r = omega arith

pub room_for_header : {i : Input} → IsReading i → 4 ≤ i.buf_size
room_for_header {i} ok = phase_room i.state i ok.phase ok.room
