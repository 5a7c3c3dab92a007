-- ===== src/Protocol/Messages.antt =====
-- The message in a frame, by the protocol's code, for either direction: what the `handle_message` of a
-- program that reads user messages of type `user` gives to its user.
use messi.Base.{
  ℕ, suc, ◌-◌, ◌^◌, ◌<◌, ◌≡◌, refl, ap, List, [], ◌∷◌, ◌++◌, true, Option, none, some, arith, ◌==◌,
  if◌then◌else◌, length, drop, All, eq→==,
}
use messi.Header.{header_at, header_bytes, header_create, header_set_size}
use messi.Input.Frames.{IsFrame, frame, frame-IsFrame}
use messi.Input.Reading.{each_frame}
use messi.Protocol.{Codec, CodecLaws}

-- A message and its encoding.
abbrev pub Encoded : {M : Type 0} → Codec M → ℕ → M × List ℕ → Type 0
Encoded codec room (m, payload) =
    (codec.encode m room ≡ some payload) × (codec.known m ≡ true) × (length payload < 2 ^ 24)

abbrev pub frames_sent : {M : Type 0} → ℕ → List (M × List ℕ) → List (List ℕ)
frames_sent user [] = []
frames_sent user ((m, payload) ∷ rest) = frame user payload ∷ frames_sent user rest

abbrev pub messages_sent : {M : Type 0} → List (M × List ℕ) → List M
messages_sent [] = []
messages_sent ((m, payload) ∷ rest) = m ∷ messages_sent rest

pub messages_sent-append :
    {M : Type 0} (xs ys : List (M × List ℕ))
    → messages_sent (xs ++ ys) ≡ messages_sent xs ++ messages_sent ys
messages_sent-append [] ys = refl
messages_sent-append ((m, payload) ∷ xs) ys = ap (◌∷◌ m) (messages_sent-append xs ys)

pub frames_sent-append :
    {M : Type 0} (user : ℕ) (xs ys : List (M × List ℕ))
    → frames_sent user (xs ++ ys) ≡ frames_sent user xs ++ frames_sent user ys
frames_sent-append user [] ys = refl
frames_sent-append user ((m, payload) ∷ xs) ys =
    ap (◌∷◌ (frame user payload)) (frames_sent-append user xs ys)

module _ {M : Type 0} (codec : Codec M) (user : ℕ) where
  -- One or none: one if the payload is decoded as a whole and its message is known.
  abbrev pub decoded : Option (ℕ × M) → ℕ → List M
  decoded none size = []
  decoded (some (res, m)) size = if res == size then (if codec.known m then m ∷ [] else []) else []

  unfoldable pub messages_in : ℕ → List ℕ → List M
  messages_in workspace f =
      if (header_at f).type == user
      then (if codec.new workspace then decoded (codec.decode (drop 4 f)) (length f - 4) else [])
      else []

  module _ (laws : CodecLaws codec) (room workspace : ℕ) (new : codec.new workspace ≡ true) where
    messages_in-frame :
        (m : M) (payload : List ℕ)
        → Encoded codec room (m, payload)
        → messages_in workspace (frame user payload) ≡ m ∷ []
    unfolding messages_in frame header_at header_bytes header_create header_set_size
    messages_in-frame m payload (e, known, small) =
        rw (eq→== user user refl, new, laws.decode-encode m room payload e)
          (rw (
            eq→== (length payload) (suc (suc (suc (suc (length payload)))) - 4) (omega arith),
            known,
          ))

    -- What is sent in frames is what is read from them.
    pub messages_in-sent :
        (sent : List (M × List ℕ))
        → All (Encoded codec room) sent
        → each_frame (messages_in workspace) (frames_sent user sent) ≡ messages_sent sent
    messages_in-sent [] h = refl
    messages_in-sent ((m, payload) ∷ rest) h =
        rw (messages_in-frame m payload h.0) (ap (◌∷◌ m) (messages_in-sent rest h.1))

  pub frames_sent-IsFrame :
      (room : ℕ) (sent : List (M × List ℕ))
      → All (Encoded codec room) sent
      → All IsFrame (frames_sent user sent)
  frames_sent-IsFrame room [] h = tt
  frames_sent-IsFrame room ((m, payload) ∷ rest) h =
      (frame-IsFrame user payload h.0.2, frames_sent-IsFrame room rest h.1)
