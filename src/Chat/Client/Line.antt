-- ===== src/Chat/Client/Line.antt =====
-- A line that the user types in examples/chat/client/linux/main.c.
use messi.Base.{ℕ, ◌≡◌, List, [], ◌∷◌, ◌++◌, true, false, length, ◌==◌}
use messi.Chat.{ToServer}
use messi.Chat.Client.{ChatClient, newline}

-- The user types the characters one after the other, which `input` handles: the line, and the messages
-- sent.
abbrev pub type_each :
    (ℕ → ChatClient → ChatClient × List ToServer) → List ℕ → ChatClient → ChatClient × List ToServer
type_each input [] a = (a, [])
type_each input (c ∷ cs) a =
    let (a1, sent) = input c a in let (a2, later) = type_each input cs a1 in (a2, sent ++ later)

-- Neither a newline nor a NUL.
abbrev pub IsPlain : List ℕ → Type 0
IsPlain [] = Unit
IsPlain (c ∷ cs) = ((c == newline) ≡ false) × ((c == 0) ≡ false) × IsPlain cs

-- A connected client in whose line stands `pre`, with this behind it in the buffer.
abbrev typing : List ℕ → List ℕ → List ℕ → ChatClient
typing user pre rest = record {
  user = user;
  line_length = length pre;
  line_buf = pre ++ rest;
  is_connected = true;
}

-- The buffer once the character is in it.
abbrev holding : List ℕ → List ℕ → List ℕ → ℕ → ChatClient
holding user pre rest c = record {
  user = user;
  line_length = length pre;
  line_buf = pre ++ c ∷ rest;
  is_connected = true;
}

-- What the newline does.
abbrev line_sent : List ℕ → List ℕ → List ℕ → ChatClient
line_sent user pre rest = record {
  user = user;
  line_length = 0;
  line_buf = pre ++ 0 ∷ rest;
  is_connected = true;
}
