-- ===== src/Linux/Server/Api.antt =====
-- `NAME_server_init`, `NAME_server_start`, `NAME_server_stop` and `NAME_server_process` of
-- messi/c_source/templates/linux/server.c.
use messi.Base.{
  ℕ, zero, suc, ◌-◌, ◌*◌, List, [], ◌∷◌, Bool, true, false, Option, none, some, ◌==◌, ltb,
  if◌then◌else◌, take, drop,
}
use messi.Kernel.{Fd, World, create_fd, check, close}
use messi.Uri.{parse_tcp_uri}
use messi.Linux.Client.Api.{same_fd}
use messi.Linux.Server.Links.{Ptr, add_to_free, free_pending_disconnect_client}
use messi.Linux.Server.State.{
  Server, ServerEvent, ServerClient, client_disconnected, set_client, server_epoll_ctl_add,
  server_close_fd, free_client_output, client_pending_disconnect,
}
use messi.Linux.Server.Send.{ServerSetup, server_call_back}
use messi.Linux.Server.Messages.{process_client_socket}
use messi.Linux.Server.Accept.{process_listener}

-- The caller's buffers.
pub record ServerBuffers : Type 0 where
  pub clients_input_bufs : List ℕ
  pub client_input_size : ℕ
  pub message_size : ℕ
  pub workspace_in_size : ℕ

-- `clients_p[i].next_p` for the clients up to the last; the others are not written.
abbrev pub init_next : ℕ → (ℕ → Ptr) → ℕ → Ptr
init_next last old j = if ltb j last then some (suc j) else if j == last then none else old j

-- `clients_p[i].input.data`
abbrev pub init_client : ℕ → ServerBuffers → (ℕ → ServerClient) → ℕ → ServerClient
init_client last b old j = if ltb last j then old j else record (old j) {
  input = record ((old j).input) {
    buf = take b.client_input_size (drop (j * b.client_input_size) b.clients_input_bufs);
    buf_size = b.client_input_size;
  };
}

-- With the result of `messi_parse_tcp_uri`; `none` is the result -1. The fields that `init` does not
-- write keep what the memory of the server and its clients holds, `old`. For 0 clients the first is
-- still written.
unfoldable pub init_parsed :
    {C2s : Type 0} → Option (List ℕ × ℕ) → ℕ → ServerBuffers → Server C2s → Option (Server C2s)
init_parsed none clients_max b old = none
init_parsed (some (host, port)) clients_max b old = some (record old {
  address = host;
  port = port;
  links = record (old.links) {
    next_p = init_next (clients_max - 1) old.links.next_p;
    free_list_p = some 0;
    connected_list_p = none;
    pending_disconnect_list_p = none;
  };
  clients = init_client (clients_max - 1) b old.clients;
  workspace_in_size = b.workspace_in_size;
  encoded_out_size = b.message_size;
  current_client_p = none;
})

unfoldable pub server_init :
    {C2s : Type 0} → (List ℕ → ℕ) → List ℕ → ℕ → ServerBuffers → Server C2s → Option (Server C2s)
unfolding init_parsed
server_init atoi uri clients_max b old = init_parsed (parse_tcp_uri atoi uri 16) clients_max b old

module _ {C2s : Type 0} where
  -- The label `out` of `NAME_server_start`.
  unfoldable pub start_out : Fd → Server C2s → World (ServerEvent C2s) → Bool × Server C2s
  start_out fd s w = (false, record s { world = close fd w })

  -- From the call of `bind` on.
  unfoldable pub start_addressed : Fd → Server C2s → World (ServerEvent C2s) → Bool × Server C2s
  unfolding start_out check server_epoll_ctl_add
  start_addressed fd s w =
      let (bound, w1) = check w in
      let (listening, w2) = check w1 in
      let (non_blocking, w3) = check w2 in
      let (added, w4) = server_epoll_ctl_add fd w3 in
      if bound
      then (if listening
          then (if non_blocking
              then (if added
                  then (true, record s { listener_fd = fd; world = w4 })
                  else start_out fd s w4)
              else start_out fd s w3)
          else start_out fd s w2)
      else start_out fd s w1

  -- `inet_aton` is called for an address that is not empty.
  unfoldable pub start_address :
      List ℕ → Fd → Server C2s → World (ServerEvent C2s) → Bool × Server C2s
  unfolding start_out start_addressed check
  start_address [] fd s w = start_addressed fd s w
  start_address (a ∷ host) fd s w =
      let (valid, w') = check w in if valid then start_addressed fd s w' else start_out fd s w'

  -- With the result of `socket`. The result is whether it is 0.
  unfoldable pub start_socket : Fd → Server C2s → Bool × Server C2s
  unfolding start_out start_address check
  start_socket none s = (false, s)
  start_socket (some fd) s =
      let (reuse, w) = check s.world in
      if reuse then start_address s.address (some fd) s w else start_out (some fd) s w

  unfoldable pub server_start : Server C2s → Bool × Server C2s
  unfolding start_socket create_fd
  server_start s = let (fd, w) = create_fd s.world in start_socket fd (record s { world = w })

  -- The loop of `NAME_server_stop`.
  unfoldable pub stop_loop : ℕ → Ptr → Server C2s → Server C2s
  unfolding server_close_fd free_client_output add_to_free
  stop_loop zero p s = s
  stop_loop (suc n) none s = s
  stop_loop (suc n) (some i) s =
      let c = s.clients i in
      let w = server_close_fd c.keep_alive_timer_fd (server_close_fd c.client_fd s.world) in
      let s' = free_client_output i (record s { world = w }) in
      stop_loop n (s.links.next_p i) (record s' { links = add_to_free i s'.links })

-- To whom a descriptor belongs.
pub data Owner : Type 0 where
  socket_of keep_alive_timer_of : ℕ → Owner
  nobody : Owner

-- The loop of `NAME_server_process` up to its `break`.
unfoldable pub find_owner : ℕ → Ptr → Fd → (ℕ → Ptr) → (ℕ → ServerClient) → Owner
find_owner zero p fd next clients = nobody
find_owner (suc n) none fd next clients = nobody
find_owner (suc n) (some i) fd next clients =
    let later = find_owner n (next i) fd next clients in
    if same_fd fd (clients i).client_fd
    then socket_of i
    else if same_fd fd (clients i).keep_alive_timer_fd
    then keep_alive_timer_of i
    else later

module _ {C2s S2c : Type 0} (setup : ServerSetup C2s S2c) where
  unfoldable pub server_stop : Server C2s → Server C2s
  unfolding stop_loop server_close_fd
  server_stop s =
      let s' = record s { world = server_close_fd s.listener_fd s.world } in
      stop_loop setup.clients_max s'.links.connected_list_p s'

  -- One round of `destroy_pending_disconnect_clients`.
  unfoldable pub destroy_one : ℕ → Server C2s → Ptr × Server C2s
  unfolding server_close_fd set_client server_call_back free_pending_disconnect_client
  destroy_one i s =
      let c = s.clients i in
      let s1 = record s { world = server_close_fd c.keep_alive_timer_fd s.world } in
      let s2 = set_client i (record c { keep_alive_timer_fd = none }) s1 in
      let s3 = server_call_back setup (client_disconnected i) (setup.on_client_disconnected i) s2 in
      (s3.links.next_p i, record s3 { links = free_pending_disconnect_client i s3.links })

  unfoldable pub destroy_loop : ℕ → Ptr → Server C2s → Server C2s
  unfolding destroy_one
  destroy_loop zero p s = s
  destroy_loop (suc n) none s = s
  destroy_loop (suc n) (some i) s = let (next, s') = destroy_one i s in destroy_loop n next s'

  unfoldable pub destroy_pending_disconnect_clients : Server C2s → Server C2s
  unfolding destroy_loop
  destroy_pending_disconnect_clients s =
      destroy_loop setup.clients_max s.links.pending_disconnect_list_p s

  -- `process_client_keep_alive_timer` is `client_pending_disconnect`.
  unfoldable pub process_owner : Owner → (out in_ : Bool) → Server C2s → Server C2s
  unfolding process_client_socket client_pending_disconnect
  process_owner (socket_of i) out in_ s = process_client_socket setup out in_ i s
  process_owner (keep_alive_timer_of i) out in_ s = client_pending_disconnect i s
  process_owner nobody out in_ s = s

  -- The events are `EPOLLOUT` and `EPOLLIN`.
  unfoldable pub server_process : Fd → (out in_ : Bool) → Server C2s → Server C2s
  unfolding process_listener find_owner process_owner destroy_pending_disconnect_clients
  server_process fd out in_ s =
      let owner =
        find_owner setup.clients_max s.links.connected_list_p fd s.links.next_p s.clients in
      destroy_pending_disconnect_clients (
        if same_fd fd s.listener_fd
        then process_listener setup s
        else process_owner owner out in_ s)
