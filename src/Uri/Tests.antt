-- ===== src/Uri/Tests.antt =====
-- `messi_parse_tcp_uri` of lib/src/messi.c on the strings of tst/messi/test_messi.c.
pub use messi.Uri.Strings.{codes}
use messi.Base.{ℕ, ◌≤◌, ◌+◌, ◌-◌, ◌*◌, ◌≡◌, refl, List, [], ◌∷◌, ◌++◌, none, some, arith, length}
use messi.Uri.{scheme, parse_tcp_uri}
use messi.Uri.Laws.{Lacks, parse_tcp_uri_complete, parse_tcp_uri_sound}

-- `atoi` on a string of digits.
unfoldable pub digits_from : ℕ → List ℕ → ℕ
digits_from n [] = n
digits_from n (c ∷ s) = digits_from (n * 10 + (c - b'0')) s

local_6000 :
    parse_tcp_uri (digits_from 0) (codes "tcp://127.0.0.1:6000") 16 ≡ some (codes "127.0.0.1", 6000)
unfolding parse_tcp_uri digits_from
local_6000 = refl

small_host_buffer : parse_tcp_uri (digits_from 0) (codes "tcp://127.0.0.1:6000") 9 ≡ none
unfolding parse_tcp_uri digits_from
small_host_buffer = refl

bad_scheme : parse_tcp_uri (digits_from 0) (codes "foo://127.0.0.1:6000") 16 ≡ none
unfolding parse_tcp_uri digits_from
bad_scheme = refl

no_colon_before_port : parse_tcp_uri (digits_from 0) (codes "tcp://127.0.0.1 6000") 16 ≡ none
unfolding parse_tcp_uri digits_from
no_colon_before_port = refl

only_scheme : parse_tcp_uri (digits_from 0) (codes "tcp://") 16 ≡ none
unfolding parse_tcp_uri digits_from
only_scheme = refl

parse_tcp_uri_complete_example :
    parse_tcp_uri (digits_from 0) (codes "tcp://10.0.0.2:80") 16
    ≡ some (codes "10.0.0.2", digits_from 0 (codes "80"))
parse_tcp_uri_complete_example =
    parse_tcp_uri_complete (digits_from 0) (codes "10.0.0.2") (codes "80") 16 (ground arith)
      (omega arith)

parse_tcp_uri_sound_example :
    (rest : List ℕ) × (codes "tcp://a:7" ≡ scheme ++ codes "a" ++ b':' ∷ rest)
    × Lacks b':' (codes "a")
    × (length (codes "a") + 1 ≤ 4)
    × (digits_from 0 rest ≡ 7)
unfolding parse_tcp_uri digits_from
parse_tcp_uri_sound_example =
    parse_tcp_uri_sound (digits_from 0) (codes "tcp://a:7") (codes "a") 4 7 refl
