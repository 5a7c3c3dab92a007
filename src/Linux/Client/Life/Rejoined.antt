-- ===== src/Linux/Client/Life/Rejoined.antt =====
-- A connection that messi/c_source/templates/linux/client.c makes while a disconnect is pending.
use messi.Base.{both_ways, ℕ, ◌≡◌, refl, ap, Bool, true, none, some, if_cases}
use messi.Kernel.{Turn, answers, is_open, Fd, World, create_fd, check}
use messi.Linux.Client.State.{
  Client, Setup, Event, connected, close_fd, epoll_ctl_add, pending_disconnect,
}
use messi.Linux.Client.Rules.{ClientKept, call_back-Kept}
use messi.Linux.Client.Connect.{
  start_keep_alive_timer, out_1, out_2, out_3, out_4, connection_made, with_keep_alive_timer,
  keep_alive_timer_created, make_keep_alive_timer, with_socket, socket_created, connect_to_server,
  connect_or_retry, process_reconnect_timer,
}

abbrev pub IsMarked : {S2c : Type 0} → Client S2c → Type 0
IsMarked c = c.pending_disconnect ≡ true

module _ {C2s S2c : Type 0} (setup : Setup C2s S2c) where
  abbrev HasSocket : Fd → Client S2c → Type 0
  HasSocket fd c = IsMarked c × (c.server_fd ≡ fd)

  -- A disconnect that is pending already is not marked again.
  HasSocket-Kept : (fd : Fd) → ClientKept (HasSocket fd)
  unfolding pending_disconnect
  HasSocket-Kept fd = record {
    by_call = λ c w h. h;
    by_disconnect = λ r c h.
        if_cases (HasSocket fd) c.pending_disconnect _ _ (λ k. h) (λ k. absurd (both_ways h.0 k));
    by_input = λ v c h. h;
    by_pong = λ b c h. h;
  }

  abbrev Joined : Bool × Client S2c → Type 0
  Joined r = r.0 ≡ true → IsMarked r.1 × (is_open r.1.server_fd ≡ true)

  connection_made-Joined :
      (fd : ℕ) (c : Client S2c) → IsMarked c → Joined (connection_made setup (some fd) c)
  unfolding connection_made
  connection_made-Joined fd c h = λ e.
      let (marked, here) =
        call_back-Kept (HasSocket (some fd)) (HasSocket-Kept (some fd)) setup connected
          setup.on_connected (record c { server_fd = some fd; pong_received = true }) (h, refl) in
      (marked, ap is_open here)

  with_keep_alive_timer-Joined :
      (fd : ℕ) (c : Client S2c) → IsMarked c → Joined (with_keep_alive_timer setup (some fd) c)
  unfolding with_keep_alive_timer start_keep_alive_timer out_4 out_3 out_2 out_1
  with_keep_alive_timer-Joined fd c h =
      let c' : Client S2c = record c { world = (epoll_ctl_add c.keep_alive_timer_fd c.world).1 } in
      let r = start_keep_alive_timer c' in
      if_cases Joined (epoll_ctl_add c.keep_alive_timer_fd c.world).0 _ _
        (λ k. if_cases Joined r.0 _ _ (λ k'. connection_made-Joined fd r.1 h) (λ k' e. absurd (cc)))
        (λ k e. absurd (cc))

  keep_alive_timer_created-Joined :
      (fd : ℕ) (t : Fd) (w : World (Event S2c)) (c : Client S2c)
      → IsMarked c
      → Joined (keep_alive_timer_created setup (some fd) t w c)
  unfolding keep_alive_timer_created out_2 out_1
  keep_alive_timer_created-Joined fd none w c h = λ e. absurd (cc)
  keep_alive_timer_created-Joined fd (some t) w c h =
      with_keep_alive_timer-Joined fd (record c { keep_alive_timer_fd = some t; world = w }) h

  with_socket-Joined :
      (fd : ℕ) (c : Client S2c) → IsMarked c → Joined (with_socket setup (some fd) c)
  unfolding with_socket make_keep_alive_timer out_1
  with_socket-Joined fd c h =
      let (joined, w) = check c.world in
      let (unblocked, w') = check w in
      let (added, w'') = epoll_ctl_add (some fd) w' in
      if_cases Joined joined _ _
        (λ k.
          if_cases Joined unblocked _ _
            (λ k'.
              if_cases Joined added _ _
                (λ k''.
                  keep_alive_timer_created-Joined fd (create_fd w'').0 (create_fd w'').1
                    (record c { world = w'' }) h)
                (λ k'' e. absurd (cc)))
            (λ k' e. absurd (cc)))
        (λ k e. absurd (cc))

  socket_created-Joined :
      (fd : Fd) (c : Client S2c) → IsMarked c → Joined (socket_created setup fd c)
  unfolding socket_created
  socket_created-Joined none c h = λ e. absurd (cc)
  socket_created-Joined (some fd) c h = with_socket-Joined fd c h

  connect_to_server-Joined : (c : Client S2c) → IsMarked c → Joined (connect_to_server setup c)
  unfolding connect_to_server
  connect_to_server-Joined c h =
      socket_created-Joined (create_fd c.world).0 (record c { world = (create_fd c.world).1 }) h

  -- In a later turn of the program.
  abbrev pub later : Turn → Client S2c → Client S2c
  later t c = record c { world = answers t c.world }

  -- `process_reconnect_timer` before the call of `connect_to_server`.
  abbrev pub timer_closed : Client S2c → Client S2c
  timer_closed c = record c {
    reconnect_timer_fd = none;
    world = close_fd c.reconnect_timer_fd c.world;
  }

  pub process_reconnect_timer-Joined :
      (c : Client S2c)
      → IsMarked c
      → (connect_to_server setup (timer_closed c)).0 ≡ true
      → let joined = process_reconnect_timer setup c in
        IsMarked joined × (is_open joined.server_fd ≡ true)
  unfolding process_reconnect_timer connect_or_retry
  process_reconnect_timer-Joined c h up = rw up (connect_to_server-Joined (timer_closed c) h up)
