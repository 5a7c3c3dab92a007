-- ===== src/Protocol.antt =====
-- What the sources use of the code that is generated for a protocol, `NAME.h`, which is not part of
-- the repository: one record for the messages of each direction.
pub mod Messages
use messi.Base.{ℕ, ◌≤◌, ◌≡◌, List, Option, some, Bool, length}

pub record Codec (M : Type 0) : Type 0 where
  -- `..._new` finds room for a message in a workspace of this size, or returns NULL
  pub new : ℕ → Bool
  -- the result of `..._decode`, `none` if it is negative, and the message
  pub decode : List ℕ → Option (ℕ × M)
  -- what `..._encode` writes to a buffer of this size, `none` if its result is negative
  pub encode : M → ℕ → Option (List ℕ)
  -- `messages.choice` is one of the protocol's messages, so that a callback is there for it
  pub known : M → Bool

-- What the sources rely on: an encoding fits the buffer, and is decoded, whole, to its message.
pub record CodecLaws {M : Type 0} (c : Codec M) : Type 0 where
  pub encode_fits :
      (m : M) (room : ℕ) (bytes : List ℕ) → c.encode m room ≡ some bytes → length bytes ≤ room
  pub decode-encode :
      (m : M) (room : ℕ) (bytes : List ℕ)
      → c.encode m room ≡ some bytes
      → c.decode bytes ≡ some (length bytes, m)
