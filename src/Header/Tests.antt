-- ===== src/Header/Tests.antt =====
-- The header of lib/include/messi.h at concrete sizes.
use messi.Base.{◌≡◌, refl, [], ◌∷◌}
use messi.Header.{blank, ping, header_create, header_get_size, header_set_size, header_bytes}
use messi.Header.RoundTrip.{get_size-create}

ping_bytes : header_bytes (header_create blank ping 0) ≡ 3 ∷ 0 ∷ 0 ∷ 0 ∷ []
unfolding header_bytes header_create header_set_size
ping_bytes = refl

big_endian : header_bytes (header_create blank 1 0x010203) ≡ 1 ∷ 1 ∷ 2 ∷ 3 ∷ []
unfolding header_bytes header_create header_set_size
big_endian = refl

get_size-create_example :
    let h = header_create blank 1 0x1000005 in (header_get_size h ≡ 5) × (h.type ≡ 1)
get_size-create_example = get_size-create blank 1 0x1000005
