-- ===== src/Linux/Client/Life/Connecting.antt =====
-- What `connect_or_retry` of messi/c_source/templates/linux/client.c leaves: a client that is connected, or one
-- that waits to try again.
use messi.Base.{both_ways, ◌≡◌, refl, Bool, true, false, none, some, if_cases, if◌then◌else◌}
use messi.Kernel.{is_open, Fd, World, create_fd, check}
use messi.Linux.Client.State.{Client, Setup, Event, connected, epoll_ctl_add}
use messi.Linux.Client.Connect.{
  start_reconnect_timer, start_keep_alive_timer, out_1, out_2, out_3, out_4, connection_made,
  with_keep_alive_timer, keep_alive_timer_created, make_keep_alive_timer, with_socket,
  socket_created, connect_to_server, connect_or_retry,
}
use messi.Linux.Client.Rules.{call_back-Kept}
use messi.Linux.Client.Life.{IsLive}
use messi.Linux.Client.Life.States.{
  closed_open, IsBusy, IsDown, IsDown-IsLive, IsBusy-Kept, start_reconnect_timer-IsDown, IsIdle,
}

module _ {C2s S2c : Type 0} (setup : Setup C2s S2c) where
  -- What an attempt to connect leaves.
  abbrev Tried : Bool × Client S2c → Type 0
  Tried (true, c) = IsBusy none c
  Tried (false, c) = IsDown c

  out_4-IsDown : (fd : Fd) (c : Client S2c) → IsIdle c → Tried (out_4 fd c)
  unfolding out_4 out_3 out_2 out_1
  out_4-IsDown fd c h = record { server = h.server; up = h.up }

  out_3-IsDown : (fd : Fd) (c : Client S2c) → IsIdle c → Tried (out_3 fd c)
  unfolding out_3 out_2 out_1
  out_3-IsDown fd c h = record { server = h.server; up = h.up }

  out_2-IsDown : (fd : Fd) (c : Client S2c) → IsIdle c → Tried (out_2 fd c)
  unfolding out_2 out_1
  out_2-IsDown fd c h = record { server = h.server; up = h.up }

  out_1-IsDown : (fd : Fd) (c : Client S2c) → IsIdle c → Tried (out_1 fd c)
  unfolding out_1
  out_1-IsDown fd c h = record { server = h.server; up = h.up }

  connection_made-Tried :
      (fd : Fd) (c : Client S2c)
      → is_open c.keep_alive_timer_fd ≡ true
      → IsIdle c
      → Tried (connection_made setup fd c)
  unfolding connection_made
  connection_made-Tried fd c timed h =
      call_back-Kept (IsBusy none) (IsBusy-Kept none) setup connected setup.on_connected
        (record c { server_fd = fd; pong_received = true })
        (record {
          down = λ e. absurd (both_ways e h.up);
          timed = λ e. timed;
          alone = λ e. h.no_timer;
          same = h.no_timer;
        })

  -- The fields that an attempt to connect may set before it has succeeded.
  IsIdle-call :
      (t : Fd) (c : Client S2c) (w : World (Event S2c))
      → IsIdle c
      → IsIdle (record c { keep_alive_timer_fd = t; world = w })
  IsIdle-call t c w h = record { server = h.server; up = h.up; no_timer = h.no_timer }

  with_keep_alive_timer-Tried :
      (fd : Fd) (c : Client S2c)
      → is_open c.keep_alive_timer_fd ≡ true
      → IsIdle c
      → Tried (with_keep_alive_timer setup fd c)
  unfolding with_keep_alive_timer start_keep_alive_timer
  with_keep_alive_timer-Tried fd c timed h =
      let (added, w) = epoll_ctl_add c.keep_alive_timer_fd c.world in
      let c' : Client S2c = record c { world = w } in
      let r = start_keep_alive_timer c' in
      if_cases Tried added _ _
        (λ k.
          if_cases Tried r.0 _ _ (λ k'. connection_made-Tried fd r.1 timed (IsIdle-call _ c _ h))
            (λ k'. out_4-IsDown fd r.1 (IsIdle-call _ c _ h)))
        (λ k. out_3-IsDown fd c' (IsIdle-call _ c _ h))

  keep_alive_timer_created-Tried :
      (fd t : Fd) (w : World (Event S2c)) (c : Client S2c)
      → IsIdle c
      → Tried (keep_alive_timer_created setup fd t w c)
  unfolding keep_alive_timer_created
  keep_alive_timer_created-Tried fd none w c h = out_2-IsDown fd _ (IsIdle-call none c w h)
  keep_alive_timer_created-Tried fd (some t) w c h =
      with_keep_alive_timer-Tried fd (record c { keep_alive_timer_fd = some t; world = w }) refl
        (IsIdle-call (some t) c w h)

  with_socket-Tried : (fd : Fd) (c : Client S2c) → IsIdle c → Tried (with_socket setup fd c)
  unfolding with_socket make_keep_alive_timer
  with_socket-Tried fd c h =
      let (joined, w) = check c.world in
      let (unblocked, w') = check w in
      let (added, w'') = epoll_ctl_add fd w' in
      let with : (w : World (Event S2c)) → IsIdle (record c { world = w }) =
        λ w. IsIdle-call c.keep_alive_timer_fd c w h in
      if_cases Tried joined _ _
        (λ k.
          if_cases Tried unblocked _ _
            (λ k'.
              if_cases Tried added _ _
                (λ k''.
                  keep_alive_timer_created-Tried fd (create_fd w'').0 (create_fd w'').1
                    (record c { world = w'' }) (with w''))
                (λ k''. out_1-IsDown fd (record c { world = w'' }) (with w'')))
            (λ k'. out_1-IsDown fd (record c { world = w' }) (with w')))
        (λ k. out_1-IsDown fd (record c { world = w }) (with w))

  socket_created-Tried : (fd : Fd) (c : Client S2c) → IsIdle c → Tried (socket_created setup fd c)
  unfolding socket_created
  socket_created-Tried none c h = record { server = h.server; up = h.up }
  socket_created-Tried (some s) c h = with_socket-Tried (some s) c h

  -- After an attempt, a second one is prepared if it has failed.
  retried :
      (r : Bool × Client S2c)
      → Tried r
      → IsLive (if r.0 then r.1 else (start_reconnect_timer r.1).1)
  retried (true, c) h = record {
    down = h.down;
    timed = h.timed;
    alone = h.alone;
    waiting = λ e. absurd (closed_open h.same e);
  }
  retried (false, c) h = IsDown-IsLive _ (start_reconnect_timer-IsDown c h)

  pub connect_or_retry-IsLive : (c : Client S2c) → IsIdle c → IsLive (connect_or_retry setup c)
  unfolding connect_or_retry connect_to_server
  connect_or_retry-IsLive c h = retried (connect_to_server setup c) (
      socket_created-Tried (create_fd c.world).0 (record c { world = (create_fd c.world).1 })
        (IsIdle-call c.keep_alive_timer_fd c (create_fd c.world).1 h))
