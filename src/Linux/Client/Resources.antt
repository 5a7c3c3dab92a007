-- ===== src/Linux/Client/Resources.antt =====
-- What a failed connection attempt of messi/c_source/templates/linux/client.c leaves behind.
use messi.Base.{ℕ, ◌+◌, ◌≡◌, refl, List, false, none, some, arith}
use messi.Kernel.{Fd, Call, World, attempt, note, note_opened, check, create_fd, close}
use messi.Kernel.Counts.{one_if_same, opens, closes, watches, unwatches}
use messi.Linux.Client.State.{Client, Setup, Event, epoll_ctl_add, epoll_ctl_del}
use messi.Linux.Client.Connect.{
  start_timer, with_keep_alive_timer, keep_alive_timer_created, make_keep_alive_timer, with_socket,
  socket_created, connect_to_server,
}

module _ {E : Type 0} where
  -- From the first log to the second, the descriptor was closed `o` times more often than created,
  -- and deleted from epoll `w` times more often than added.
  abbrev pub Releases : (fd o w : ℕ) → List (Call E) → List (Call E) → Type 0
  Releases fd o w log log' =
      (opens fd log' + closes fd log + o ≡ opens fd log + closes fd log')
      × (watches fd log' + unwatches fd log + w ≡ watches fd log + unwatches fd log')

  pub created-opens :
      (fd : ℕ) (t : Fd) (log : List (Call E))
      → (opens fd (note_opened t log) ≡ one_if_same fd t + opens fd log)
        × (closes fd (note_opened t log) ≡ closes fd log)
        × (watches fd (note_opened t log) ≡ watches fd log)
        × (unwatches fd (note_opened t log) ≡ unwatches fd log)
  created-opens fd none log = (omega arith, refl, refl, refl)
  created-opens fd (some t) log = (refl, refl, refl, refl)

module _ {C2s S2c : Type 0} (setup : Setup C2s S2c) (fd : ℕ) where
  with_keep_alive_timer-Releases :
      (s t : Fd) (c : Client S2c)
      → c.keep_alive_timer_fd ≡ t
      → (with_keep_alive_timer setup s c).0 ≡ false
      → Releases fd
          (one_if_same fd s + one_if_same fd t)
          (one_if_same fd s)
          c.world.log
          (with_keep_alive_timer setup s c).1.world.log
  unfolding with_keep_alive_timer start_timer attempt close note
  with_keep_alive_timer-Releases s t c e h = ground arith

  keep_alive_timer_created-Releases :
      (s t : Fd) (w : World (Event S2c)) (c : Client S2c)
      → (keep_alive_timer_created setup s t w c).0 ≡ false
      → Releases fd
          (one_if_same fd s + one_if_same fd t)
          (one_if_same fd s)
          w.log
          (keep_alive_timer_created setup s t w c).1.world.log
  unfolding keep_alive_timer_created close note epoll_ctl_del
  keep_alive_timer_created-Releases s none w c h = ground arith
  keep_alive_timer_created-Releases s (some t) w c h =
      with_keep_alive_timer-Releases s (some t)
        (record c { keep_alive_timer_fd = some t; world = w }) refl h

  make_keep_alive_timer-Releases :
      (s : Fd) (c : Client S2c)
      → (make_keep_alive_timer setup s c).0 ≡ false
      → Releases fd
          (one_if_same fd s)
          (one_if_same fd s)
          c.world.log
          (make_keep_alive_timer setup s c).1.world.log
  unfolding make_keep_alive_timer create_fd
  make_keep_alive_timer-Releases s c h =
      let t = c.world.fds 0 in
      omega (
        arith,
        created-opens fd t c.world.log,
        keep_alive_timer_created-Releases s t (create_fd c.world).1 c h,
      )

  with_socket-Releases :
      (s : Fd) (c : Client S2c)
      → (with_socket setup s c).0 ≡ false
      → Releases fd (one_if_same fd s) 0 c.world.log (with_socket setup s c).1.world.log
  unfolding with_socket attempt check close note
  with_socket-Releases s c h = ground (
    arith,
    make_keep_alive_timer-Releases s
        (record c { world = (epoll_ctl_add s (check (check c.world).1).1).1 }),
  )

  socket_created-Releases :
      (s : Fd) (c : Client S2c)
      → (socket_created setup s c).0 ≡ false
      → Releases fd (one_if_same fd s) 0 c.world.log (socket_created setup s c).1.world.log
  unfolding socket_created
  socket_created-Releases none c h = omega arith
  socket_created-Releases (some s) c h = with_socket-Releases (some s) c h

  -- When `connect_to_server` fails, at whichever of its calls, then each descriptor that it created
  -- was closed and each that it added to epoll was deleted: whatever the descriptor, the log shows as
  -- many more closes as creations, and as many more deletions as additions, as before the call.
  pub connect_to_server-Releases :
      (c : Client S2c)
      → (connect_to_server setup c).0 ≡ false
      → Releases fd 0 0 c.world.log (connect_to_server setup c).1.world.log
  unfolding connect_to_server create_fd
  connect_to_server-Releases c h =
      let s = c.world.fds 0 in
      omega (
        arith,
        created-opens fd s c.world.log,
        socket_created-Releases s (record c { world = (create_fd c.world).1 }) h,
      )
