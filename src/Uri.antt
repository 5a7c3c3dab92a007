-- ===== src/Uri.antt =====
-- `messi_parse_tcp_uri` of lib/src/messi.c. A C string is the list of its bytes before the NUL.
pub mod Strings
pub mod Laws
pub mod Tests
use messi.Base.{
  ℕ, zero, suc, ◌+◌, List, [], ◌∷◌, ◌++◌, Option, none, some, Bool, true, false, ◌==◌, ltb,
  if◌then◌else◌, length, drop,
}

-- "tcp://"
abbrev pub scheme : List ℕ
scheme = b't' ∷ b'c' ∷ b'p' ∷ b':' ∷ b'/' ∷ b'/' ∷ []

-- `strncmp(s, prefix, length of prefix) == 0`
unfoldable pub starts_with : List ℕ → List ℕ → Bool
starts_with [] s = true
starts_with (p ∷ ps) [] = false
starts_with (p ∷ ps) (c ∷ s) = if p == c then starts_with ps s else false

-- `strchr(s, ch)`: what stands before the first `ch` and the string from there on.
unfoldable pub split_at : ℕ → List ℕ → Option (List ℕ × List ℕ)
split_at ch [] = none
split_at ch (c ∷ s) =
    let rest = split_at ch s in
    if c == ch
    then some ([], c ∷ s)
    else elim rest [ none ↦ none | some (before, from) ↦ some (c ∷ before, from) ]

-- `none` is the result -1. On success the caller has the host and the port. The function `atoi` of the
-- C library is a parameter; a port stands for the bit pattern of its `int`.
module _ (atoi : List ℕ → ℕ) where
  parse_host_port : List ℕ → ℕ → Option (List ℕ × ℕ)
  unfolding split_at
  parse_host_port uri host_size = elim (split_at b':' uri) [
    | none ↦ none
    | some (host, colon) ↦
        if ltb host_size (length host + 1) then none else some (host, atoi (drop 1 colon))
  ]

  unfoldable pub parse_tcp_uri : List ℕ → ℕ → Option (List ℕ × ℕ)
  unfolding parse_host_port starts_with
  parse_tcp_uri uri host_size =
      if starts_with scheme uri then parse_host_port (drop 6 uri) host_size else none
