-- ===== src/Header/RoundTrip.antt =====
-- What survives a trip through the header of lib/include/messi.h.
use messi.Base.{ℕ, ◌%◌, ◌^◌, ◌≤◌, ◌<◌, ◌≡◌, refl, List, ◌++◌, arith, length, get_or-append}
use messi.Header.{Header, header_set_size, header_get_size, header_create, header_bytes, header_at}

-- The size that is read from a header that was created with `size` is `size` modulo 2^24, for every
-- `size`, and the type is the one given.
pub get_size-create :
    (h : Header) (message_type size : ℕ)
    → (header_get_size (header_create h message_type size) ≡ size % 2 ^ 24)
      × ((header_create h message_type size).type ≡ message_type)
unfolding header_get_size header_create header_set_size
get_size-create h message_type size = (omega arith, refl)

-- So a size of 24 bits is read back unchanged.
pub get_size-create_small :
    (h : Header) (message_type size : ℕ)
    → size < 2 ^ 24
    → header_get_size (header_create h message_type size) ≡ size
unfolding header_get_size header_create header_set_size
get_size-create_small h message_type size small = omega arith

-- A header of bytes is written back as it was by the size that is read from it.
pub set_size-get_size :
    (h : Header)
    → h.size_0 < 256
    → h.size_1 < 256
    → h.size_2 < 256
    → header_set_size h (header_get_size h) ≡ h
unfolding header_get_size header_set_size
set_size-get_size h a b c = ground arith

-- A header is found again at the front of any memory that begins with its bytes.
pub header_at-bytes : (h : Header) (rest : List ℕ) → header_at (header_bytes h ++ rest) ≡ h
unfolding header_at header_bytes
header_at-bytes h rest = refl

-- Four bytes are enough to know a header.
pub header_at-append : (xs ys : List ℕ) → 4 ≤ length xs → header_at (xs ++ ys) ≡ header_at xs
unfolding header_at
header_at-append xs ys h = λ i. record {
  type = get_or-append xs ys 0 0 (omega arith) i;
  size_0 = get_or-append xs ys 1 0 (omega arith) i;
  size_1 = get_or-append xs ys 2 0 (omega arith) i;
  size_2 = get_or-append xs ys 3 0 (omega arith) i;
}
