-- ===== src/Linux/Client/Life/Loop.antt =====
-- The loop of a client on messi/c_source/templates/linux/client.c, and with it its whole life.
use messi.Base.{
  some_eq, ◌⊎◌, ℕ, ◌≡◌, refl, sym, ap, List, [], ◌∷◌, true, Option, none, some, if_cases,
  if◌then◌else◌, inl, inr, subst,
}
use messi.Kernel.{Turn, answers, is_open, Fd, callback, note}
use messi.Reason.{Reason}
use messi.Linux.Client.State.{
  close_fd, Client, Setup, disconnected, pending_disconnect, disconnect, call_back, send_each,
}
use messi.Linux.Client.Connect.{process_reconnect_timer}
use messi.Linux.Client.Api.{
  same_fd, Buffers, client_init, client_start, dispatch, finish_disconnect, client_process,
}
use messi.Linux.Client.Rules.{process_socket-Kept, process_keep_alive_timer-Kept}
use messi.Linux.Client.Life.{IsLive, run, client_main}
use messi.Linux.Client.Life.States.{
  closed_open, IsBusy, IsDown, IsDown-IsLive, IsBusy-Kept, start_reconnect_timer-IsDown, Ready,
  init-Ready,
}
use messi.Linux.Client.Life.Connecting.{connect_or_retry-IsLive}

module _ {C2s S2c : Type 0} (setup : Setup C2s S2c) where
  -- What the parts of `NAME_client_process` need.
  IsLive-IsBusy : (c : Client S2c) → IsLive c → IsBusy c.reconnect_timer_fd c
  IsLive-IsBusy c h = record { down = h.down; timed = h.timed; alone = h.alone; same = refl }

  same_open : (f : ℕ) (fd : Fd) → same_fd (some f) fd ≡ true → is_open fd ≡ true
  same_open f none e = e
  same_open f (some g) e = refl

  not_open : (fd : Fd) → (is_open fd ≡ true → ⊥) → fd ≡ none
  not_open none not_so = refl
  not_open (some f) not_so = absurd (not_so refl)

  -- In an event: as above, or no disconnect is pending and the client is live.
  abbrev Handled : Client S2c → Type 0
  Handled c = IsLive c ⊎ ((timer : Fd) × IsBusy timer c)

  dispatch-Handled : (f : ℕ) (c : Client S2c) → IsLive c → Handled (dispatch setup (some f) c)
  unfolding dispatch process_reconnect_timer
  dispatch-Handled f c h =
      let timer = c.reconnect_timer_fd in
      let busy = IsLive-IsBusy c h in
      if_cases Handled (same_fd (some f) c.server_fd) _ _
        (λ k. inr (timer, process_socket-Kept (IsBusy timer) (IsBusy-Kept timer) setup c busy))
        (λ k.
          if_cases Handled (same_fd (some f) c.keep_alive_timer_fd) _ _
            (λ k'.
              inr (timer, process_keep_alive_timer-Kept (IsBusy timer) (IsBusy-Kept timer) c busy))
            (λ k'.
              if_cases Handled (same_fd (some f) c.reconnect_timer_fd) _ _
                (λ k''. inl (
                  connect_or_retry-IsLive setup
                    (record c {
                      reconnect_timer_fd = none;
                      world = close_fd c.reconnect_timer_fd c.world;
                    })
                    (record {
                      server =
                          not_open c.server_fd
                            (λ e. closed_open (h.alone e) (same_open f c.reconnect_timer_fd k''));
                      up = h.waiting (same_open f c.reconnect_timer_fd k'');
                      no_timer = refl;
                    })))
                (λ k''. inl h)))

  module _ (quiet : (r : Reason) (c : Client S2c) → setup.on_disconnected r c ≡ []) where
    call_back-quiet :
        (r : Reason) (c : Client S2c)
        → call_back setup (disconnected r) (setup.on_disconnected r) c
          ≡ record c { world = note (callback (disconnected r)) c.world }
    unfolding call_back send_each
    call_back-quiet r c =
        let noted : Client S2c = record c { world = note (callback (disconnected r)) c.world } in
        ap (λ ms. send_each setup ms noted) (quiet r noted)

    finish_disconnect-IsDown :
        (c : Client S2c)
        → c.pending_disconnect ≡ true
        → c.server_fd ≡ none
        → IsDown (finish_disconnect setup c)
    unfolding finish_disconnect disconnect pending_disconnect
    finish_disconnect-IsDown c pending closed =
        let c' = disconnect c in
        let told =
          call_back setup (disconnected c'.disconnect_reason)
            (setup.on_disconnected c'.disconnect_reason) c' in
        start_reconnect_timer-IsDown told (
          subst IsDown (sym (call_back-quiet c'.disconnect_reason c'))
            (record { server = rw pending closed; up = refl }))

    finished :
        (c : Client S2c)
        → Handled c
        → IsLive (if c.pending_disconnect then finish_disconnect setup c else c)
    finished c (inl h) =
        if_cases IsLive c.pending_disconnect _ _
          (λ k. IsDown-IsLive _ (finish_disconnect-IsDown c k (h.down k))) (λ k. h)
    finished c (inr (timer, h)) =
        if_cases IsLive c.pending_disconnect _ _
          (λ k. IsDown-IsLive _ (finish_disconnect-IsDown c k (h.down k)))
          (λ k. record { down = h.down; timed = h.timed; alone = h.alone; waiting = λ e. k })

    client_process-IsLive :
        (f : ℕ) (c : Client S2c) → IsLive c → IsLive (client_process setup (some f) c)
    unfolding client_process
    client_process-IsLive f c h = finished (dispatch setup (some f) c) (dispatch-Handled f c h)

    run-IsLive : (ts : List Turn) (c : Client S2c) → IsLive c → IsLive (run setup ts c)
    unfolding run
    run-IsLive [] c h = h
    run-IsLive (t ∷ ts) c h =
        let c' : Client S2c = record c { world = answers t c.world } in
        run-IsLive ts (client_process setup (some t.fd) c') (
          client_process-IsLive t.fd c'
            (record { down = h.down; timed = h.timed; alone = h.alone; waiting = h.waiting }))

    main-IsLive :
        (o : Option (Client S2c)) (ts : List Turn) (c : Client S2c)
        → Ready o
        → (elim o [ none ↦ none | some d ↦ some (run setup ts (client_start setup d)) ]) ≡ some c
        → IsLive c
    unfolding client_start
    main-IsLive none ts c h e = absurd (cc)
    main-IsLive (some d) ts c h e =
        subst IsLive (some_eq e)
          (run-IsLive ts (client_start setup d) (connect_or_retry-IsLive setup d h))

    -- The life of a client, whose user sends nothing when it is disconnected, whatever the memory of the
    -- client held, whatever `epoll_wait` reports and each call returns: between the events a client with
    -- a socket has a keep alive timer and no reconnect timer; a client with a reconnect timer has no
    -- disconnect pending; and one with a disconnect pending has no socket.
    pub client_main-IsLive :
        (atoi : List ℕ → ℕ) (uri : List ℕ) (b : Buffers) (old : Client S2c) (ts : List Turn)
        (c : Client S2c)
        → client_main setup atoi uri b old ts ≡ some c
        → IsLive c
    unfolding client_main
    client_main-IsLive atoi uri b old ts c =
        main-IsLive (client_init atoi uri b old) ts c (init-Ready atoi uri b old)
