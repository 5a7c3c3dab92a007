-- ===== src/Linux/Client/Connect.antt =====
-- The timers and the connection: `start_timer` to `process_reconnect_timer` of
-- messi/c_source/templates/linux/client.c.
use messi.Base.{ℕ, Bool, true, false, none, some, if◌then◌else◌}
use messi.Header.{blank, header_create, header_bytes, ping}
use messi.Kernel.{Fd, World, armed, check, attempt, create_fd, close}
use messi.Reason.{general_error, keep_alive_timeout}
use messi.Linux.Client.State.{
  Client, Setup, Event, connected, epoll_ctl_add, epoll_ctl_del, close_fd, pending_disconnect,
  write_all, call_back,
}

module _ {S2c : Type 0} where
  -- `timerfd_settime`, for one shot
  unfoldable pub start_timer : Fd → ℕ → World (Event S2c) → Bool × World (Event S2c)
  start_timer fd seconds w = attempt (armed fd seconds) w

  unfoldable pub start_keep_alive_timer : Client S2c → Bool × Client S2c
  unfolding start_timer
  start_keep_alive_timer c =
      let (started, w) = start_timer c.keep_alive_timer_fd 2 c.world in
      (started, record c { world = w })

  -- With the timer's descriptor: it is watched and started, or closed again.
  unfoldable pub watch_reconnect_timer : Fd → World (Event S2c) → Client S2c → Bool × Client S2c
  unfolding start_timer epoll_ctl_add
  watch_reconnect_timer fd w c =
      let (added, w') = epoll_ctl_add fd w in
      let (started, w'') = start_timer fd 1 w' in
      if added
      then (started, record c { reconnect_timer_fd = fd; world = w'' })
      else (false, record c { reconnect_timer_fd = none; world = close fd w' })

  -- With the result of `timerfd_create`.
  unfoldable pub reconnect_timer_created : Fd → World (Event S2c) → Client S2c → Bool × Client S2c
  unfolding watch_reconnect_timer
  reconnect_timer_created none w c = (false, record c { reconnect_timer_fd = none; world = w })
  reconnect_timer_created (some t) w c = watch_reconnect_timer (some t) w c

  unfoldable pub start_reconnect_timer : Client S2c → Bool × Client S2c
  unfolding reconnect_timer_created
  start_reconnect_timer c = let (fd, w) = create_fd c.world in reconnect_timer_created fd w c

  -- `process_keep_alive_timer` from the restart of the timer on.
  unfoldable pub send_ping : Client S2c → Client S2c
  unfolding start_keep_alive_timer
  send_ping c =
      let (started, c') = start_keep_alive_timer c in
      let (whole, c'') = write_all (header_bytes (header_create blank ping 0)) general_error c' in
      if started
      then (if whole then record c'' { pong_received = false } else c'')
      else pending_disconnect general_error c'

  unfoldable pub process_keep_alive_timer : Client S2c → Client S2c
  unfolding send_ping
  process_keep_alive_timer c =
      let (expired, w) = check c.world in
      let c' = record c { world = w } in
      if expired
      then (if c.pong_received then send_ping c' else pending_disconnect keep_alive_timeout c')
      else pending_disconnect general_error c'

  -- The labels at the end of `connect_to_server`, each with those below it.
  unfoldable pub out_1 : Fd → Client S2c → Bool × Client S2c
  out_1 server_fd c = (false, record c { world = close server_fd c.world })

  unfoldable pub out_2 : Fd → Client S2c → Bool × Client S2c
  unfolding out_1 epoll_ctl_del
  out_2 server_fd c = out_1 server_fd (record c { world = epoll_ctl_del server_fd c.world })

  unfoldable pub out_3 : Fd → Client S2c → Bool × Client S2c
  unfolding out_2
  out_3 server_fd c = out_2 server_fd (record c { world = close c.keep_alive_timer_fd c.world })

  unfoldable pub out_4 : Fd → Client S2c → Bool × Client S2c
  unfolding out_3 epoll_ctl_del
  out_4 server_fd c =
      out_3 server_fd (record c { world = epoll_ctl_del c.keep_alive_timer_fd c.world })

module _ {C2s S2c : Type 0} (setup : Setup C2s S2c) where
  -- The connection is up.
  unfoldable pub connection_made : Fd → Client S2c → Bool × Client S2c
  connection_made server_fd c = (
    true,
    call_back setup connected setup.on_connected
        (record c { server_fd = server_fd; pong_received = true }),
  )

  -- From `timerfd_create` for the keep alive timer on, with its descriptor.
  unfoldable pub with_keep_alive_timer : Fd → Client S2c → Bool × Client S2c
  unfolding out_3 out_4 epoll_ctl_add start_keep_alive_timer connection_made
  with_keep_alive_timer server_fd c =
      let (added, w) = epoll_ctl_add c.keep_alive_timer_fd c.world in
      let c' = record c { world = w } in
      let (started, c'') = start_keep_alive_timer c' in
      if added
      then (if started then connection_made server_fd c'' else out_4 server_fd c'')
      else out_3 server_fd c'

  -- With the result of `timerfd_create`.
  unfoldable pub keep_alive_timer_created :
      Fd → Fd → World (Event S2c) → Client S2c → Bool × Client S2c
  unfolding out_2 with_keep_alive_timer
  keep_alive_timer_created server_fd none w c =
      out_2 server_fd (record c { keep_alive_timer_fd = none; world = w })
  keep_alive_timer_created server_fd (some t) w c =
      with_keep_alive_timer server_fd (record c { keep_alive_timer_fd = some t; world = w })

  -- The socket is watched; the keep alive timer is created.
  unfoldable pub make_keep_alive_timer : Fd → Client S2c → Bool × Client S2c
  unfolding keep_alive_timer_created
  make_keep_alive_timer server_fd c =
      let (fd, w) = create_fd c.world in keep_alive_timer_created server_fd fd w c

  -- With the socket: `connect`, `messi_make_non_blocking`, `epoll_ctl_add`.
  unfoldable pub with_socket : Fd → Client S2c → Bool × Client S2c
  unfolding out_1 make_keep_alive_timer epoll_ctl_add
  with_socket server_fd c =
      let (joined, w) = check c.world in
      let (unblocked, w') = check w in
      let (added, w'') = epoll_ctl_add server_fd w' in
      if joined
      then (if unblocked
          then (if added
              then make_keep_alive_timer server_fd (record c { world = w'' })
              else out_1 server_fd (record c { world = w'' }))
          else out_1 server_fd (record c { world = w' }))
      else out_1 server_fd (record c { world = w })

  -- With the result of `socket`.
  unfoldable pub socket_created : Fd → Client S2c → Bool × Client S2c
  unfolding with_socket
  socket_created none c = (false, c)
  socket_created (some s) c = with_socket (some s) c

  -- `true` is the result 0.
  unfoldable pub connect_to_server : Client S2c → Bool × Client S2c
  unfolding socket_created
  connect_to_server c =
      let (fd, w) = create_fd c.world in socket_created fd (record c { world = w })

  -- `if (connect_to_server(self_p) != 0) start_reconnect_timer(self_p);`
  unfoldable pub connect_or_retry : Client S2c → Client S2c
  unfolding connect_to_server start_reconnect_timer
  connect_or_retry c =
      let (up, c') = connect_to_server c in if up then c' else (start_reconnect_timer c').1

  unfoldable pub process_reconnect_timer : Client S2c → Client S2c
  unfolding connect_or_retry
  process_reconnect_timer c =
      connect_or_retry
        (record c { reconnect_timer_fd = none; world = close_fd c.reconnect_timer_fd c.world })
