-- ===== src/Input/Reading.antt =====
-- What a run of a read loop has done, for any state that holds an input buffer. The loops of the four
-- templates of messi/c_source/templates are compared with it.
use messi.Base.{
  ℕ, ◌≡◌, refl, sym, ap, ◌∙◌, subst, List, [], ◌∷◌, ◌++◌, arith, All, All-append, append_assoc,
  append-nil,
}
use messi.Input.{Input, more, message, reset_input}
use messi.Input.Frames.{IsFrame, concat, concat-append, frames_unique}
use messi.Input.Receive.{
  IsReading, Continues, room_for_header, held, held-IsPartial, reset_input-IsReading,
}
use messi.Kernel.{Round, go_on, leave, ReadReply, got}

-- The messages of one frame after the other.
abbrev pub each_frame : {M : Type 0} → (List ℕ → List M) → List (List ℕ) → List M
each_frame messages [] = []
each_frame messages (f ∷ fs) = messages f ++ each_frame messages fs

-- The bytes that a run of a loop over `read` gets.
abbrev pub bytes_read : List ReadReply → List ℕ
bytes_read [] = []
bytes_read (got bytes ∷ rs) = bytes ++ bytes_read rs
bytes_read (_ ∷ rs) = []

-- `IsUp` says of a state that nothing went wrong in the run that led to it, and `Fixed` holds
-- throughout.
module _ {S M : Type 0} (input : S → Input) (said : S → List M) (IsUp Fixed : S → Type 0)
    (messages : List ℕ → List M) where
  -- The bytes held before the run and those read in it are the frames that it handled, followed by
  -- the bytes held now, and the user was given the messages of these frames, in their order.
  pub record Reads (c : S) (bytes : List ℕ) (frames : List (List ℕ)) (c' : S) : Type 0 where
    pub ready : IsReading (input c')
    pub whole : All IsFrame frames
    pub stream : held (input c) ++ bytes ≡ concat frames ++ held (input c')
    pub fixed : Fixed c'
    pub all_said : said c' ≡ said c ++ each_frame messages frames
    pub up : IsUp c

  -- Nothing was read, and nothing else changed that matters here.
  pub Reads-nothing :
      (c c' : S)
      → IsReading (input c)
      → input c' ≡ input c
      → said c' ≡ said c
      → Fixed c'
      → IsUp c
      → Reads c [] [] c'
  Reads-nothing c c' ok i s fixed up = record {
    ready = subst IsReading (sym i) ok;
    whole = tt;
    stream = append-nil (held (input c)) ∙ ap held (sym i);
    fixed = fixed;
    all_said = s ∙ sym (append-nil (said c));
    up = up;
  }

  each_frame-append :
      (fs gs : List (List ℕ))
      → each_frame messages (fs ++ gs) ≡ each_frame messages fs ++ each_frame messages gs
  each_frame-append [] gs = refl
  each_frame-append (f ∷ fs) gs =
      ap (◌++◌ (messages f)) (each_frame-append fs gs)
      ∙ sym (append_assoc (messages f) (each_frame messages fs) (each_frame messages gs))

  pub Reads-trans :
      (a b c : S) (xs ys : List ℕ) (fs gs : List (List ℕ))
      → Reads a xs fs b
      → Reads b ys gs c
      → Reads a (xs ++ ys) (fs ++ gs) c
  Reads-trans a b c xs ys fs gs h k = record {
    ready = k.ready;
    whole = All-append IsFrame fs gs h.whole k.whole;
    stream =
        sym (append_assoc (held (input a)) xs ys)
        ∙ ap (λ (t : List ℕ). t ++ ys) h.stream
        ∙ append_assoc (concat fs) (held (input b)) ys
        ∙ ap (◌++◌ (concat fs)) k.stream
        ∙ sym (append_assoc (concat fs) (concat gs) (held (input c)))
        ∙ ap (λ (t : List ℕ). t ++ held (input c)) (sym (concat-append fs gs));
    fixed = k.fixed;
    all_said =
        k.all_said
        ∙ ap (λ (t : List M). t ++ each_frame messages gs) h.all_said
        ∙ append_assoc (said a) (each_frame messages fs) (each_frame messages gs)
        ∙ ap (◌++◌ (said a)) (sym (each_frame-append fs gs));
    up = h.up;
  }

  -- A read that leaves the frame incomplete.
  pub Reads-more :
      (c c' : S) (bytes : List ℕ) (i : Input)
      → Continues (input c) bytes more i
      → input c' ≡ i
      → said c' ≡ said c
      → Fixed c'
      → IsUp c
      → Reads c bytes [] c'
  Reads-more c c' bytes i (ready, extends, same) e s fixed up = record {
    ready = subst IsReading (sym e) ready;
    whole = tt;
    stream = sym extends ∙ ap held (sym e);
    fixed = fixed;
    all_said = s ∙ sym (append-nil (said c));
    up = up;
  }

  -- A read that completes a frame, whose messages are handed over before the input is reset.
  pub Reads-message :
      (c c' : S) (bytes : List ℕ) (i : Input)
      → IsReading (input c)
      → Continues (input c) bytes message i
      → input c' ≡ reset_input i
      → said c' ≡ said c ++ messages (held (input c) ++ bytes)
      → Fixed c'
      → IsUp c
      → Reads c bytes ((held (input c) ++ bytes) ∷ []) c'
  unfolding reset_input
  Reads-message c c' bytes i ok (frame, t, p, n, storage, same) e s fixed up = record {
    ready =
        subst IsReading (sym e)
          (reset_input-IsReading i storage (omega (arith, same, room_for_header ok)));
    whole = (frame, tt);
    stream =
        sym (append-nil ((held (input c) ++ bytes) ++ []) ∙ append-nil (held (input c) ++ bytes))
        ∙ ap (λ (j : Input). ((held (input c) ++ bytes) ++ []) ++ held j) (sym e);
    fixed = fixed;
    all_said = s ∙ ap (◌++◌ (said c)) (sym (append-nil (messages (held (input c) ++ bytes))));
    up = up;
  }

  -- What one round has done.
  abbrev pub RoundReads : S → List ℕ → Round S → Type 0
  RoundReads c bytes (go_on c') =
      IsReading (input c') × Fixed c' × (IsUp c' → (fs : List (List ℕ)) × Reads c bytes fs c')
  RoundReads c bytes (leave c') = IsUp c' → ⊥

  -- A round followed by the rest of the loop.
  pub RoundReads-then :
      (loop : S → S) (c : S) (bytes rest : List ℕ) (r : Round S)
      → ((c' : S)
          → IsReading (input c')
          → Fixed c'
          → r ≡ go_on c'
          → IsUp (loop c')
          → (fs : List (List ℕ)) × Reads c' rest fs (loop c'))
      → RoundReads c bytes r
      → let c' : S = elim r [ go_on d ↦ loop d | leave d ↦ d ] in
        IsUp c' → (fs : List (List ℕ)) × Reads c (bytes ++ rest) fs c'
  RoundReads-then loop c bytes rest (go_on c') ih (ready, fixed, done) up =
      let (gs, k) = ih c' ready fixed refl up in
      let (fs, h) = done k.up in (fs ++ gs, Reads-trans c c' (loop c') bytes rest fs gs h k)
  RoundReads-then loop c bytes rest (leave c') ih none up = absurd (none up)

  -- If what was read from a frame boundary on is some whole frames, these are the frames handled.
  pub Reads-frames :
      (c c' : S) (bytes : List ℕ) (fs gs : List (List ℕ))
      → Reads c bytes fs c'
      → held (input c) ≡ []
      → All IsFrame gs
      → bytes ≡ concat gs
      → (said c' ≡ said c ++ each_frame messages gs) × (held (input c') ≡ [])
  Reads-frames c c' bytes fs gs h fresh frames stream =
      let (same, rest) =
        frames_unique fs gs (held (input c')) [] h.whole frames (held-IsPartial h.ready)
          (record { short = λ four. absurd (omega arith) })
          (sym h.stream
            ∙ ap (λ (t : List ℕ). t ++ bytes) fresh
            ∙ stream
            ∙ sym (append-nil (concat gs))) in
      (h.all_said ∙ ap (λ (t : List (List ℕ)). said c ++ each_frame messages t) same, rest)

  -- Two runs over the same bytes handle the same frames, however the reads cut them.
  pub Reads-same :
      (c d d' : S) (bytes : List ℕ) (fs gs : List (List ℕ))
      → Reads c bytes fs d
      → Reads c bytes gs d'
      → (said d ≡ said d') × (held (input d) ≡ held (input d'))
  Reads-same c d d' bytes fs gs h k =
      let (same, rest) =
        frames_unique fs gs (held (input d)) (held (input d')) h.whole k.whole
          (held-IsPartial h.ready) (held-IsPartial k.ready) (sym h.stream ∙ k.stream) in
      (
        h.all_said
            ∙ ap (λ (t : List (List ℕ)). said c ++ each_frame messages t) same
            ∙ sym k.all_said,
        rest,
      )
