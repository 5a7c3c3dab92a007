-- ===== src/Uri/Laws.antt =====
-- What `messi_parse_tcp_uri` of lib/src/messi.c accepts.
use messi.Base.{
  ℕ, ◌+◌, ◌≤◌, ◌≡◌, refl, ap, ◌∙◌, ◌≢◌, inl, inr, List, [], ◌∷◌, ◌++◌, Option, none, some, true,
  false, arith, ◌==◌, Bool-cases, length, drop, All, le→ltb,
}
use messi.Uri.{scheme, starts_with, split_at, parse_host_port, parse_tcp_uri}

starts_with-append : (p s : List ℕ) → starts_with p (p ++ s) ≡ true
unfolding starts_with
starts_with-append [] s = refl
starts_with-append (c ∷ p) s = ground (arith, starts_with-append p s)

starts_with-eq : (p s : List ℕ) → starts_with p s ≡ true → s ≡ p ++ drop (length p) s
unfolding starts_with
starts_with-eq [] s h = refl
starts_with-eq (c ∷ p) [] h = cc
starts_with-eq (c ∷ p) (d ∷ s) h = ground (arith, starts_with-eq p s)

-- No byte of the list is `ch`.
abbrev pub Lacks : ℕ → List ℕ → Type 0
Lacks ch s = All (λ c. c ≢ ch) s

split_at-append :
    (ch : ℕ) (before after : List ℕ)
    → Lacks ch before
    → split_at ch (before ++ ch ∷ after) ≡ some (before, ch ∷ after)
unfolding split_at
split_at-append ch [] after l = ground arith
split_at-append ch (c ∷ s) after l = ground (arith, split_at-append ch s after l.1)

-- What a split says of the string.
record Splits (ch : ℕ) (s before from : List ℕ) : Type 0 where
  whole : s ≡ before ++ ch ∷ drop 1 from
  clean : Lacks ch before

split_at-here :
    (ch c : ℕ) (s before from : List ℕ)
    → (c == ch) ≡ true
    → split_at ch (c ∷ s) ≡ some (before, from)
    → Splits ch (c ∷ s) before from
unfolding split_at
split_at-here ch c s [] from e h = record { whole = ground arith; clean = tt }
split_at-here ch c s (b ∷ before) from e h = absurd (ground arith)

split_at-later :
    (ch c : ℕ) (s before from : List ℕ)
    → ((b : List ℕ) → split_at ch s ≡ some (b, from) → Splits ch s b from)
    → (c == ch) ≡ false
    → (r : Option (List ℕ × List ℕ)) → split_at ch s ≡ r
    → split_at ch (c ∷ s) ≡ some (before, from)
    → Splits ch (c ∷ s) before from
unfolding split_at
split_at-later ch c s before from ih e none q h = absurd (ground arith)
split_at-later ch c s [] from ih e (some (b, f)) q h = absurd (ground arith)
split_at-later ch c s (d ∷ before) from ih e (some (b, f)) q h =
    let rest = ih before (ground arith) in
    let same : c ≡ d = ground arith in
    record { whole = cc (same, rest.whole); clean = (ground arith, rest.clean) }

split_at-Splits :
    (ch : ℕ) (s before from : List ℕ)
    → split_at ch s ≡ some (before, from)
    → Splits ch s before from
unfolding split_at
split_at-Splits ch [] before from h = absurd (ground arith)
split_at-Splits ch (c ∷ s) before from h = elim (Bool-cases (c == ch)) [
  | inl e ↦ split_at-here ch c s before from e h
  | inr e ↦
      split_at-later ch c s before from (λ b. split_at-Splits ch s b from) e (split_at ch s) refl h
]

module _ (atoi : List ℕ → ℕ) where
  parse_host_port_sound :
      (s host : List ℕ) (host_size port : ℕ)
      → parse_host_port atoi s host_size ≡ some (host, port)
      → (rest : List ℕ) × (s ≡ host ++ b':' ∷ rest)
        × Lacks b':' host
        × (length host + 1 ≤ host_size)
        × (atoi rest ≡ port)
  unfolding parse_host_port
  parse_host_port_sound s host host_size port h = go (split_at b':' s) refl h
    where
      go :
          (r : Option (List ℕ × List ℕ))
          → split_at b':' s ≡ r
          → parse_host_port atoi s host_size ≡ some (host, port)
          → (rest : List ℕ) × (s ≡ host ++ b':' ∷ rest)
            × Lacks b':' host
            × (length host + 1 ≤ host_size)
            × (atoi rest ≡ port)
      go none q h' = absurd (ground arith)
      go (some (b, from)) q h' =
          let same : b ≡ host = ground arith in
          let splits = split_at-Splits b':' s host from (ground arith) in
          (drop 1 from, splits.whole, splits.clean, ground arith, ground arith)

  -- The parser accepts every string `tcp://<host>:<port>` whose host has no colon and fits the
  -- caller's buffer with its NUL, and returns that host and the number that `atoi` reads.
  pub parse_tcp_uri_complete :
      (host port : List ℕ) (host_size : ℕ)
      → Lacks b':' host
      → length host + 1 ≤ host_size
      → parse_tcp_uri atoi (scheme ++ host ++ b':' ∷ port) host_size ≡ some (host, atoi port)
  unfolding parse_tcp_uri
  parse_tcp_uri_complete host port host_size l fits =
      rw (split_at-append b':' host port l, le→ltb host_size (length host + 1) fits)

  -- And nothing else: what it accepts has that form, with the host and the port that it returns.
  pub parse_tcp_uri_sound :
      (uri host : List ℕ) (host_size port : ℕ)
      → parse_tcp_uri atoi uri host_size ≡ some (host, port)
      → (rest : List ℕ) × (uri ≡ scheme ++ host ++ b':' ∷ rest)
        × Lacks b':' host
        × (length host + 1 ≤ host_size)
        × (atoi rest ≡ port)
  unfolding parse_tcp_uri
  parse_tcp_uri_sound uri host host_size port h =
      let starts : starts_with scheme uri ≡ true = ground arith in
      let (rest, whole, clean, fits, read) =
        parse_host_port_sound (drop 6 uri) host host_size port (ground arith) in
      (rest, starts_with-eq scheme uri starts ∙ ap (◌++◌ scheme) whole, clean, fits, read)
