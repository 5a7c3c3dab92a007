-- ===== src/Linux/Server/Accept.antt =====
-- New connections: `client_init` and `process_listener` of messi/c_source/templates/linux/server.c.
use messi.Base.{ℕ, [], Bool, true, false, none, some, if◌then◌else◌}
use messi.Kernel.{Fd, create_fd, check, close}
use messi.Linux.Server.Links.{Ptr, alloc_client, free_connected_client}
use messi.Linux.Server.State.{
  Server, client_connected, set_client, server_epoll_ctl_add, server_epoll_ctl_del,
}
use messi.Linux.Server.Send.{ServerSetup, server_call_back}
use messi.Linux.Server.Messages.{client_reset_input, client_start_keep_alive_timer}

module _ {C2s : Type 0} where
  -- The labels `out1` and `out2` of `client_init`.
  unfoldable pub init_out_1 : Fd → Server C2s → Bool × Server C2s
  init_out_1 timer s = (false, record s { world = close timer s.world })

  unfoldable pub init_out_2 : Fd → Server C2s → Bool × Server C2s
  unfolding init_out_1
  init_out_2 timer s = init_out_1 timer (record s { world = server_epoll_ctl_del timer s.world })

  -- The timer runs: both descriptors are added to epoll.
  unfoldable pub init_timer_started : Fd → Fd → Server C2s → Bool × Server C2s
  unfolding server_epoll_ctl_add init_out_1 init_out_2
  init_timer_started timer fd s =
      let (timer_added, w1) = server_epoll_ctl_add timer s.world in
      let (fd_added, w2) = server_epoll_ctl_add fd w1 in
      if timer_added
      then (if fd_added
          then (true, record s { world = w2 })
          else init_out_2 timer (record s { world = w2 }))
      else init_out_1 timer (record s { world = w1 })

  -- With the result of `timerfd_create`, which the client holds.
  unfoldable pub init_timer_created : Fd → ℕ → Fd → Server C2s → Bool × Server C2s
  unfolding client_start_keep_alive_timer init_timer_started init_out_1
  init_timer_created none i fd s = (false, s)
  init_timer_created (some t) i fd s =
      let (started, s') = client_start_keep_alive_timer i s in
      if started then init_timer_started (some t) fd s' else init_out_1 (some t) s'

  unfoldable pub server_client_init : ℕ → Fd → Server C2s → Bool × Server C2s
  unfolding init_timer_created client_reset_input set_client
  server_client_init i fd s =
      let s1 = set_client i (record (s.clients i) { client_fd = fd }) s in
      let s2 = client_reset_input i s1 in
      let s3 = set_client i (record (s2.clients i) { output = [] }) s2 in
      let (timer, w) = create_fd s3.world in
      let s4 = set_client i (record (s3.clients i) { keep_alive_timer_fd = timer }) s3 in
      init_timer_created timer i fd (record s4 { world = w })

module _ {C2s S2c : Type 0} (setup : ServerSetup C2s S2c) where
  -- With the result of `client_init`.
  unfoldable pub after_client_init : Bool × Server C2s → ℕ → Fd → Server C2s
  unfolding free_connected_client server_call_back
  after_client_init (true, s) i fd =
      server_call_back setup (client_connected i) (setup.on_client_connected i) s
  after_client_init (false, s) i fd =
      let s' = record s { links = free_connected_client i s.links } in
      record s' { world = close fd s'.world }

  -- With the result of `alloc_client`.
  unfoldable pub client_allocated : Ptr → Fd → Server C2s → Server C2s
  unfolding server_client_init after_client_init
  client_allocated none fd s = record s { world = close fd s.world }
  client_allocated (some i) fd s = after_client_init (server_client_init i fd s) i fd

  -- With the result of `accept`.
  unfoldable pub accepted : Fd → Server C2s → Server C2s
  unfolding alloc_client client_allocated check
  accepted none s = s
  accepted (some fd) s =
      let (non_blocking, w1) = check s.world in
      let (no_delay, w2) = check w1 in
      let (p, l) = alloc_client s.links in
      if non_blocking
      then (if no_delay
          then client_allocated p (some fd) (record s { links = l; world = w2 })
          else record s { world = close (some fd) w2 })
      else record s { world = close (some fd) w1 }

  unfoldable pub process_listener : Server C2s → Server C2s
  unfolding accepted create_fd
  process_listener s = let (fd, w) = create_fd s.world in accepted fd (record s { world = w })
