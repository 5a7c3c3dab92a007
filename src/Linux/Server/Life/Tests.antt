-- ===== src/Linux/Server/Life/Tests.antt =====
-- The life of a server of messi/c_source/templates/linux/server.c with an array of three clients.
use messi.Base.{ℕ, ◌+◌, List, [], ◌∷◌, true, false, some, ◌==◌, if◌then◌else◌}
use messi.Kernel.{Turn, ReadReply, got, closed}
use messi.Linux.Server.State.{Server}
use messi.Linux.Server.Api.{server_start}
use messi.Linux.Server.Tests.{initialized}
use messi.Linux.Server.Delivery.Tests.{echo}
use messi.Linux.Server.Life.{serve}

abbrev turn : ℕ → List ReadReply → Turn
turn fd reads = record {
  fd = fd;
  out = false;
  in_ = true;
  statuses = λ n. true;
  fds = λ n. some (n + 200);
  reads = reads;
  writes = [];
}

-- A connection whose keep alive timer cannot be started.
abbrev failing : Turn
failing = record (turn 100 []) { statuses = λ n. if n == 2 then false else true }

-- A client connects at the listener, 100, and gets the descriptors 200 and 201; another one is given up;
-- the first one sends 7 and closes.
abbrev turns : List Turn
turns =
    turn 100 [] ∷ failing ∷ turn 200 (got (1 ∷ 0 ∷ 0 ∷ 1 ∷ []) ∷ got (7 ∷ []) ∷ closed ∷ []) ∷ []

abbrev running : Server ℕ
running = serve echo turns (server_start initialized).1
