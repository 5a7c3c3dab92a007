-- ===== src/Linux/Client/Life/Tests.antt =====
-- The life of a client of messi/c_source/templates/linux/client.c.
use messi.Base.{ℕ, ◌+◌, ◌≡◌, refl, List, [], ◌∷◌, true, false, none, some}
use messi.Kernel.{Turn, ReadReply, got, closed, create_fd, check, attempt, close, note, write}
use messi.Linux.Client.Connect.{connect_to_server, process_reconnect_timer}
use messi.Input.{reset_input}
use messi.Uri.{parse_tcp_uri}
use messi.Uri.Tests.{codes, digits_from}
use messi.Linux.Client.State.{Client, Setup, disconnect, close_fd, call_back}
use messi.Linux.Client.Api.{Buffers, client_init, client_start, finish_disconnect}
use messi.Linux.Client.Tests.{silent, client}
use messi.Linux.Client.Life.{run, client_main, IsLive}
use messi.Linux.Client.Life.Rejoined.{later}
use messi.Linux.Client.Life.Loop.{client_main-IsLive}

abbrev buffers : Buffers
buffers = record {
  encoded_in = 0 ∷ 0 ∷ 0 ∷ 0 ∷ 0 ∷ 0 ∷ 0 ∷ 0 ∷ [];
  encoded_in_size = 8;
  workspace_in_size = 64;
  encoded_out_size = 64;
}

abbrev turn : ℕ → List ReadReply → Turn
turn fd reads = record {
  fd = fd;
  out = false;
  in_ = true;
  statuses = λ n. true;
  fds = λ n. some (n + 20);
  reads = reads;
  writes = [];
}

-- The socket is 5: a message comes, then the end of the connection; the reconnect timer, 20, expires.
abbrev turns : List Turn
turns =
    turn 5 (got (2 ∷ 0 ∷ 0 ∷ 1 ∷ []) ∷ got (7 ∷ []) ∷ []) ∷ turn 5 (closed ∷ []) ∷ turn 20 [] ∷ []

-- What `NAME_client_init` makes of the client with "tcp://:6000".
abbrev initialized : Client ℕ
initialized = record (client []) {
  server_fd = none;
  keep_alive_timer_fd = none;
  reconnect_timer_fd = none;
}

client_main-IsLive_example : IsLive (run silent turns (client_start silent initialized))
unfolding client_main client_init parse_tcp_uri digits_from reset_input
client_main-IsLive_example =
    client_main-IsLive silent (λ r c. refl) (digits_from 0) (codes "tcp://:6000") buffers
      (client []) turns (run silent turns (client_start silent initialized)) refl

-- The user says 1 when the connection is lost.
abbrev talker : Setup ℕ ℕ
talker = record silent { on_disconnected = λ r c. 1 ∷ [] }

abbrev lost : Client ℕ
lost = record (client []) { server_fd = none; pending_disconnect = true }

-- The reconnect timer expires, and the next connection is made, with the socket 20.
abbrev waiting : Client ℕ
waiting = later talker (turn 40 []) (finish_disconnect talker lost)

-- The socket that is left is the one of the connection.
socket_left : (disconnect (process_reconnect_timer talker waiting)).server_fd ≡ some 20
unfolding finish_disconnect process_reconnect_timer connect_to_server create_fd check attempt close
    note disconnect close_fd call_back write
socket_left = refl
