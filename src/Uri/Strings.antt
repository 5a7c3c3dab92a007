-- ===== src/Uri/Strings.antt =====
-- The strings of the sources as lists of characters, without the NUL at their end.
use Prim.Native.Char.{code}
use Prim.Native.String.{String}
use messi.Base.{ℕ, List, [], ◌∷◌}

abbrev pub codes : String → List ℕ
codes String.[] = []
codes (String.◌∷◌ c s) = code c ∷ codes s
