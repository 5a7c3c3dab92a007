-- ===== src/Linux/Server/Resources.antt =====
-- What a failed start and a failed new connection of messi/c_source/templates/linux/server.c leave
-- behind.
use messi.Base.{ℕ, ◌≡◌, List, [], ◌∷◌, false, none, some, arith}
use messi.Kernel.{Fd, World, attempt, note, check, create_fd, close}
use messi.Kernel.Counts.{one_if_same}
use messi.Linux.Client.Resources.{Releases, created-opens}
use messi.Linux.Server.State.{
  Server, ServerEvent, server_epoll_ctl_add, server_epoll_ctl_del, set_client,
}
use messi.Linux.Server.Messages.{client_start_keep_alive_timer, client_reset_input, set_input}
use messi.Linux.Server.Accept.{
  init_out_1, init_out_2, init_timer_started, init_timer_created, server_client_init,
}
use messi.Linux.Server.Api.{start_out, start_addressed, start_address, start_socket, server_start}

module _ {C2s : Type 0} (fd : ℕ) where
  start_addressed-Releases :
      (f : Fd) (s : Server C2s) (w : World (ServerEvent C2s))
      → (start_addressed f s w).0 ≡ false
      → Releases fd (one_if_same fd f) 0 w.log (start_addressed f s w).1.world.log
  unfolding start_addressed start_out check server_epoll_ctl_add attempt close note
  start_addressed-Releases f s w h = ground arith

  start_address-Releases :
      (host : List ℕ) (f : Fd) (s : Server C2s) (w : World (ServerEvent C2s))
      → (start_address host f s w).0 ≡ false
      → Releases fd (one_if_same fd f) 0 w.log (start_address host f s w).1.world.log
  unfolding start_address start_out check close note
  start_address-Releases [] f s w h = start_addressed-Releases f s w h
  start_address-Releases (a ∷ host) f s w h =
      ground (arith, start_addressed-Releases f s (check w).1)

  start_socket-Releases :
      (f : Fd) (s : Server C2s)
      → (start_socket f s).0 ≡ false
      → Releases fd (one_if_same fd f) 0 s.world.log (start_socket f s).1.world.log
  unfolding start_socket start_out check close note
  start_socket-Releases none s h = omega arith
  start_socket-Releases (some g) s h =
      ground (arith, start_address-Releases s.address (some g) s (check s.world).1)

  -- When `NAME_server_start` fails, at whichever of its calls, then each descriptor that it created
  -- was closed and each that it added to epoll was deleted.
  pub server_start-Releases :
      (s : Server C2s)
      → (server_start s).0 ≡ false
      → Releases fd 0 0 s.world.log (server_start s).1.world.log
  unfolding server_start create_fd
  server_start-Releases s h =
      let f = s.world.fds 0 in
      omega (
        arith,
        created-opens fd f s.world.log,
        start_socket-Releases f (record s { world = (create_fd s.world).1 }) h,
      )

  init_timer_started-Releases :
      (t c : Fd) (s : Server C2s)
      → (init_timer_started t c s).0 ≡ false
      → Releases fd (one_if_same fd t) 0 s.world.log (init_timer_started t c s).1.world.log
  unfolding init_timer_started init_out_1 init_out_2 server_epoll_ctl_add server_epoll_ctl_del
      attempt close note
  init_timer_started-Releases t c s h = ground arith

  init_timer_created-Releases :
      (t : Fd) (i : ℕ) (c : Fd) (s : Server C2s)
      → (init_timer_created t i c s).0 ≡ false
      → Releases fd (one_if_same fd t) 0 s.world.log (init_timer_created t i c s).1.world.log
  unfolding init_timer_created init_out_1 client_start_keep_alive_timer attempt close note
  init_timer_created-Releases none i c s h = omega arith
  init_timer_created-Releases (some t) i c s h =
      ground (arith, init_timer_started-Releases (some t) c (client_start_keep_alive_timer i s).1)

  -- When `client_init` fails, at whichever of its calls, then the timer that it created was closed and
  -- each descriptor that it added to epoll was deleted.
  pub server_client_init-Releases :
      (i : ℕ) (c : Fd) (s : Server C2s)
      → (server_client_init i c s).0 ≡ false
      → Releases fd 0 0 s.world.log (server_client_init i c s).1.world.log
  unfolding server_client_init create_fd client_reset_input set_input set_client
  server_client_init-Releases i c s h =
      let t = s.world.fds 0 in
      omega (arith, created-opens fd t s.world.log, init_timer_created-Releases t i c _ h)
