-- ===== src/Linux/Server/Tests.antt =====
-- The Linux server, messi/c_source/templates/linux/server.c, with an array of three clients.
use messi.Base.{
  ◌≤◌, ℕ, ◌+◌, ◌≡◌, refl, List, [], ◌∷◌, ◌++◌, true, false, none, some, ◌==◌, if◌then◌else◌, arith,
}
use messi.Header.{header_create, header_bytes, header_set_size}
use messi.Input.{header}
use messi.Kernel.{
  World, WriteReply, sent, failed, write, malloc, note, create_fd, check, attempt, close,
}
use messi.Linux.Client.Resources.{Releases}
use messi.Linux.Client.Tests.{bytes}
use messi.Linux.Server.Links.{alloc_client}
use messi.Linux.Server.Links.Tests.{two_connected, two_connected-Lists}
use messi.Linux.Server.State.{
  Server, ServerEvent, ServerClient, OutputItem, set_client, server_epoll_ctl_mod,
}
use messi.Linux.Server.Output.{client_write, process_client_socket_out}
use messi.Linux.Server.Output.Stream.{stream}
use messi.Linux.Server.Output.Write.{client_write-stream}
use messi.Linux.Server.Output.Flush.{process_client_socket_out-stream}
use messi.Kernel.Counts.{frees}
use messi.Linux.Server.Output.DoubleFree.{failed_write_frees_twice}
use messi.Linux.Server.Send.{ServerSetup, server_broadcast, encode_user_message}
use messi.Linux.Server.Broadcast.{write_to_each, server_broadcast-Lists}
use messi.Linux.Server.Accept.{server_client_init}
use messi.Linux.Server.Api.{server_start, ServerBuffers, init_next, init_client, find_owner}
use messi.Linux.Server.Resources.{server_start-Releases, server_client_init-Releases}
use messi.Linux.Server.Lists.{owner_in, find_owner-Chain}

abbrev pub world : List WriteReply → World (ServerEvent ℕ)
world writes = record {
  statuses = λ n. true;
  fds = λ n. some (n + 100);
  reads = [];
  writes = writes;
  log = [];
}

-- The client `i` has the descriptors 10 + i and 20 + i.
abbrev pub connected_client : List OutputItem → ℕ → ServerClient
connected_client output i = record {
  client_fd = some (10 + i);
  keep_alive_timer_fd = some (20 + i);
  input = record { buf = []; buf_size = 8; size = 0; left = 4; state = header };
  output = output;
}

-- The clients 1 and 0 are connected, and have this in their queues.
abbrev pub server : List OutputItem → List WriteReply → Server ℕ
server output writes = record {
  address = [];
  port = 6000;
  listener_fd = some 9;
  current_client_p = none;
  links = two_connected;
  clients = connected_client output;
  workspace_in_size = 64;
  encoded_out_size = 64;
  world = world writes;
}

abbrev two_items : List OutputItem
two_items =
    record { address = 50; offset = 1; size = 2; bytes = 1 ∷ 2 ∷ 3 ∷ [] }
    ∷ record { address = 51; offset = 0; size = 2; bytes = 4 ∷ 5 ∷ [] }
    ∷ []

-- Of three bytes one is written, and the other two wait.
client_write-stream_example :
    let s = server [] (sent 1 ∷ []) in
    stream 10 0 (client_write 0 (7 ∷ 8 ∷ 9 ∷ []) s) ≡ stream 10 0 s ++ (7 ∷ 8 ∷ 9 ∷ [])
unfolding client_write write malloc note set_client server_epoll_ctl_mod
client_write-stream_example =
    client_write-stream 10 100 0 (7 ∷ 8 ∷ 9 ∷ []) (server [] (sent 1 ∷ [])) refl refl refl

-- The first item is written in two parts, the second one waits.
process_client_socket_out-stream_example :
    let s = server two_items (sent 1 ∷ sent 1 ∷ []) in
    stream 10 0 (process_client_socket_out 0 s) ≡ stream 10 0 s
unfolding process_client_socket_out write note set_client server_epoll_ctl_mod
process_client_socket_out-stream_example =
    process_client_socket_out-stream 10 0 (server two_items (sent 1 ∷ sent 1 ∷ [])) refl refl

-- The call with this number fails.
abbrev refused : ℕ → Server ℕ
refused k = record (server [] []) {
  world = record (world []) { statuses = λ n. if n == k then false else true };
}

-- `listen` fails.
server_start-Releases_example : Releases 100 0 0 [] (server_start (refused 2)).1.world.log
unfolding server_start create_fd check attempt close note
server_start-Releases_example = server_start-Releases 100 (refused 2) refl

-- The client's descriptor cannot be watched.
server_client_init-Releases_example :
    Releases 100 0 0 [] (server_client_init 2 (some 12) (refused 2)).1.world.log
unfolding server_client_init create_fd check attempt close note set_client
server_client_init-Releases_example = server_client_init-Releases 100 2 (some 12) (refused 2) refl

find_owner-Chain_example :
    find_owner 3 (some 1) (some 20) two_connected.next_p (connected_client [])
    ≡ owner_in (some 20) (connected_client []) (1 ∷ 0 ∷ [])
unfolding find_owner alloc_client
find_owner-Chain_example =
    find_owner-Chain 3 (some 1) (some 20) two_connected.next_p (connected_client []) (1 ∷ 0 ∷ [])
      (omega arith) two_connected-Lists.connected

abbrev pub silent : ServerSetup ℕ ℕ
silent = record {
  clients_max = 3;
  to_server = bytes;
  to_client = bytes;
  on_client_connected = λ i s. [];
  on_client_disconnected = λ i s. [];
  on_message = λ i m s. [];
}

-- The first write fails and disconnects the client 1; the client 0 gets the message.
server_broadcast-Lists_example :
    let s = server [] (failed ∷ sent 5 ∷ []) in
    server_broadcast silent 42 s ≡ write_to_each (1 ∷ 0 ∷ []) (2 ∷ 0 ∷ 0 ∷ 1 ∷ 42 ∷ []) s
unfolding encode_user_message header_bytes header_create header_set_size
server_broadcast-Lists_example =
    server_broadcast-Lists silent (server [] (failed ∷ sent 5 ∷ [])) 42 (2 ∷ 0 ∷ 0 ∷ 1 ∷ 42 ∷ [])
      (1 ∷ 0 ∷ []) (2 ∷ []) [] refl two_connected-Lists (omega arith)

abbrev pub buffers : ServerBuffers
buffers = record {
  clients_input_bufs = 0 ∷ 0 ∷ 0 ∷ [];
  client_input_size = 1;
  message_size = 64;
  workspace_in_size = 64;
}

-- What `NAME_server_init` makes of the server above with "tcp://:6000".
abbrev pub initialized : Server ℕ
initialized =
    let old = server [] [] in
    record old {
      links = record (old.links) {
        next_p = init_next 2 old.links.next_p;
        free_list_p = some 0;
        connected_list_p = none;
        pending_disconnect_list_p = none;
      };
      clients = init_client 2 buffers old.clients;
      current_client_p = none;
    }

failed_write_frees_twice_example :
    2 ≤ frees 50 (process_client_socket_out 0 (server two_items (sent 2 ∷ failed ∷ []))).world.log
unfolding process_client_socket_out write note
failed_write_frees_twice_example =
    failed_write_frees_twice 50 10 0
      (record { address = 50; offset = 1; size = 2; bytes = 1 ∷ 2 ∷ 3 ∷ [] })
      (record { address = 51; offset = 0; size = 2; bytes = 4 ∷ 5 ∷ [] }) [] []
      (server two_items (sent 2 ∷ failed ∷ [])) refl refl refl refl
