-- ===== src/Linux/Server/Orderly/Idle.antt =====
-- The steps of messi/c_source/templates/linux/server.c that leave the current client alone: those on the
-- listener, and the freeing of clients.
use messi.Base.{ℕ, zero, suc, ◌∙◌, Bool, true, false, none, some, if_cases}
use messi.Kernel.{Fd, create_fd, check}
use messi.Linux.Server.Links.{Ptr, alloc_client}
use messi.Linux.Server.State.{
  Server, client_connected, client_disconnected, set_client, server_close_fd,
}
use messi.Linux.Server.Send.{ServerSetup}
use messi.Linux.Server.Accept.{
  server_client_init, after_client_init, client_allocated, accepted, process_listener,
}
use messi.Linux.Server.Api.{destroy_one, destroy_loop, destroy_pending_disconnect_clients}
use messi.Linux.Server.Rules.Current.{CurrentIs, call_back-CurrentIs}
use messi.Linux.Server.Orderly.NewClient.{client_init-current}

module _ {C2s S2c : Type 0} (setup : ServerSetup C2s S2c) (p : Ptr) where
  after_client_init-CurrentIs :
      (r : Bool × Server C2s) (i : ℕ) (fd : Fd)
      → CurrentIs p r.1
      → CurrentIs p (after_client_init setup r i fd)
  unfolding after_client_init
  after_client_init-CurrentIs (true, s) i fd h =
      call_back-CurrentIs p setup (client_connected i) (setup.on_client_connected i) s h
  after_client_init-CurrentIs (false, s) i fd h = h

  client_allocated-CurrentIs :
      (q : Ptr) (fd : Fd) (s : Server C2s)
      → CurrentIs p s
      → CurrentIs p (client_allocated setup q fd s)
  unfolding client_allocated
  client_allocated-CurrentIs none fd s h = h
  client_allocated-CurrentIs (some i) fd s h =
      after_client_init-CurrentIs (server_client_init i fd s) i fd (client_init-current i fd s ∙ h)

  accepted-CurrentIs :
      (fd : Fd) (s : Server C2s) → CurrentIs p s → CurrentIs p (accepted setup fd s)
  unfolding accepted
  accepted-CurrentIs none s h = h
  accepted-CurrentIs (some fd) s h =
      let w2 = (check (check s.world).1).1 in
      let t : Server C2s = record s { links = (alloc_client s.links).1; world = w2 } in
      if_cases (CurrentIs p) (check s.world).0 _ _
        (λ k.
          if_cases (CurrentIs p) (check (check s.world).1).0 _ _
            (λ k'. client_allocated-CurrentIs (alloc_client s.links).0 (some fd) t h) (λ k'. h))
        (λ k. h)

  pub process_listener-CurrentIs :
      (s : Server C2s) → CurrentIs p s → CurrentIs p (process_listener setup s)
  unfolding process_listener
  process_listener-CurrentIs s h =
      accepted-CurrentIs (create_fd s.world).0 (record s { world = (create_fd s.world).1 }) h

  destroy_one-CurrentIs :
      (i : ℕ) (s : Server C2s) → CurrentIs p s → CurrentIs p (destroy_one setup i s).1
  unfolding destroy_one set_client
  destroy_one-CurrentIs i s h =
      call_back-CurrentIs p setup (client_disconnected i) (setup.on_client_disconnected i)
        (set_client i (record (s.clients i) { keep_alive_timer_fd = none })
          (record s { world = server_close_fd (s.clients i).keep_alive_timer_fd s.world }))
        h

  destroy_loop-CurrentIs :
      (n : ℕ) (q : Ptr) (s : Server C2s) → CurrentIs p s → CurrentIs p (destroy_loop setup n q s)
  unfolding destroy_loop
  destroy_loop-CurrentIs zero q s h = h
  destroy_loop-CurrentIs (suc n) none s h = h
  destroy_loop-CurrentIs (suc n) (some i) s h =
      let r = destroy_one setup i s in
      destroy_loop-CurrentIs n r.0 r.1 (destroy_one-CurrentIs i s h)

  pub destroy-CurrentIs :
      (s : Server C2s) → CurrentIs p s → CurrentIs p (destroy_pending_disconnect_clients setup s)
  unfolding destroy_pending_disconnect_clients
  destroy-CurrentIs s h =
      destroy_loop-CurrentIs setup.clients_max s.links.pending_disconnect_list_p s h
