-- ===== src/Header.antt =====
-- The message header of lib/include/messi.h: a type byte and a 24-bit size in network byte order.
pub mod RoundTrip
mod Tests
use messi.Base.{ℕ, ◌+◌, ◌*◌, ◌/◌, ◌%◌, ◌^◌, List, [], ◌∷◌, get_or}

-- `MESSI_MESSAGE_TYPE_*`
abbrev pub client_to_server_user : ℕ
client_to_server_user = 1

abbrev pub server_to_client_user : ℕ
server_to_client_user = 2

abbrev pub ping : ℕ
ping = 3

abbrev pub pong : ℕ
pong = 4

-- `struct messi_header_t`, packed: `size[0]`, `size[1]` and `size[2]` follow the type.
pub record Header : Type 0 where
  pub type : ℕ
  pub size_0 : ℕ
  pub size_1 : ℕ
  pub size_2 : ℕ

-- `sizeof(struct messi_header_t)`
abbrev pub header_size : ℕ
header_size = 4

-- Each byte keeps the low eight bits of the shifted `uint32_t`.
unfoldable pub header_set_size : Header → ℕ → Header
header_set_size h size = record h {
  size_0 = (size / 2 ^ 16) % 2 ^ 8;
  size_1 = (size / 2 ^ 8) % 2 ^ 8;
  size_2 = size % 2 ^ 8;
}

-- The three shifted bytes have no bit in common, so `|` adds them.
unfoldable pub header_get_size : Header → ℕ
header_get_size h = h.size_0 * 2 ^ 16 + h.size_1 * 2 ^ 8 + h.size_2

unfoldable pub header_create : Header → ℕ → ℕ → Header
header_create h message_type size = header_set_size (record h { type = message_type }) size

-- The bytes of a header in memory, and the header that a pointer to some bytes shows.
unfoldable pub header_bytes : Header → List ℕ
header_bytes h = h.type ∷ h.size_0 ∷ h.size_1 ∷ h.size_2 ∷ []

unfoldable pub header_at : List ℕ → Header
header_at buf = record {
  type = get_or buf 0 0;
  size_0 = get_or buf 1 0;
  size_1 = get_or buf 2 0;
  size_2 = get_or buf 3 0;
}

-- A header variable before anything is written to it.
abbrev pub blank : Header
blank = record { type = 0; size_0 = 0; size_1 = 0; size_2 = 0 }
