-- ===== src/Linux/Server/State.antt =====
-- `struct NAME_server_t` of messi/c_source/templates/linux/server.h, and the helpers at the start of
-- linux/server.c: descriptors, timers, and disconnecting a client.
use messi.Base.{ℕ, List, [], ◌∷◌, Bool, none, some, ◌==◌, if◌then◌else◌}
use messi.Input.{Input}
use messi.Kernel.{Fd, World, watched, unwatched, modified, freed, note, attempt, close}
use messi.Linux.Server.Links.{Ptr, Links, move_client_to_pending_disconnect_list}

-- The calls of the user's callbacks; a client is its index.
pub data ServerEvent (C2s : Type 0) : Type 0 where
  client_connected : ℕ → ServerEvent C2s
  client_disconnected : ℕ → ServerEvent C2s
  received : ℕ → C2s → ServerEvent C2s

-- `struct NAME_server_client_output_item_t`, with the address that `malloc` gave it.
pub record OutputItem : Type 0 where
  pub address : ℕ
  pub offset : ℕ
  pub size : ℕ
  pub bytes : List ℕ

-- `struct NAME_server_client_t`, but for its links. The list is what `output.head_p` leads to; its
-- last item is `output.tail_p`.
pub record ServerClient : Type 0 where
  pub client_fd : Fd
  pub keep_alive_timer_fd : Fd
  pub input : Input
  pub output : List OutputItem

pub record Server (C2s : Type 0) : Type 0 where
  pub address : List ℕ
  pub port : ℕ
  pub listener_fd : Fd
  pub current_client_p : Ptr
  pub links : Links
  pub clients : ℕ → ServerClient
  pub workspace_in_size : ℕ
  pub encoded_out_size : ℕ
  pub world : World (ServerEvent C2s)

module _ {C2s : Type 0} where
  -- A write to the fields of one client.
  unfoldable pub set_client : ℕ → ServerClient → Server C2s → Server C2s
  set_client i v s = record s { clients = λ j. if j == i then v else s.clients j }

  unfoldable pub server_epoll_ctl_add :
      Fd → World (ServerEvent C2s) → Bool × World (ServerEvent C2s)
  server_epoll_ctl_add fd w = attempt (watched fd) w

  unfoldable pub server_epoll_ctl_del : Fd → World (ServerEvent C2s) → World (ServerEvent C2s)
  server_epoll_ctl_del fd w = note (unwatched fd) w

  -- The events are `EPOLLIN`, with `EPOLLOUT` or without it.
  unfoldable pub server_epoll_ctl_mod :
      Fd → Bool → World (ServerEvent C2s) → World (ServerEvent C2s)
  server_epoll_ctl_mod fd out w = note (modified fd out) w

  unfoldable pub server_close_fd : Fd → World (ServerEvent C2s) → World (ServerEvent C2s)
  unfolding server_epoll_ctl_del
  server_close_fd fd w = close fd (server_epoll_ctl_del fd w)

  -- The loop of `free_client_output`.
  unfoldable pub free_items : List OutputItem → World (ServerEvent C2s) → World (ServerEvent C2s)
  free_items [] w = w
  free_items (item ∷ items) w = free_items items (note (freed item.address) w)

  unfoldable pub free_client_output : ℕ → Server C2s → Server C2s
  unfolding free_items set_client
  free_client_output i s =
      let c = s.clients i in
      let s' = set_client i (record c { output = [] }) s in
      record s' { world = free_items c.output s.world }

  -- The client's descriptor is not -1.
  unfoldable pub disconnect_from : Fd → ℕ → Server C2s → Server C2s
  unfolding server_close_fd free_client_output set_client
  disconnect_from none i s = s
  disconnect_from (some fd) i s =
      let c = s.clients i in
      let s1 = record s { world = server_close_fd (some fd) s.world } in
      let s2 = set_client i (record c { client_fd = none }) s1 in
      let s3 = free_client_output i s2 in
      record s3 { links = move_client_to_pending_disconnect_list i s3.links }

  unfoldable pub client_pending_disconnect : ℕ → Server C2s → Server C2s
  unfolding disconnect_from
  client_pending_disconnect i s = disconnect_from (s.clients i).client_fd i s
