-- ===== src/Linux/Server/Life/Start.antt =====
-- The start of a server on messi/c_source/templates/linux/server.c, and with it its whole life.
use messi.Base.{
  some_eq, ℕ, zero, suc, ◌≡◌, refl, sym, ap, ◌∙◌, subst, List, [], ◌∷◌, Bool, true, false, Option,
  none, some, if◌then◌else◌, arith, length, if_cases,
}
use messi.Kernel.{Turn, Fd, World, create_fd, check, close, note}
use messi.Linux.Server.Links.{Links}
use messi.Linux.Server.State.{Server, ServerEvent, server_epoll_ctl_add}
use messi.Linux.Server.Send.{ServerSetup}
use messi.Linux.Server.Api.{
  init_parsed, server_init, start_out, start_addressed, start_address, start_socket, server_start,
  ServerBuffers,
}
use messi.Linux.Server.Lists.{clients_from, server_init-Lists}
use messi.Linux.Server.Orderly.Steps.{calls-IsOrderly}
use messi.Linux.Server.Orderly.Polite.{IsPoliteUser}
use messi.Uri.{parse_tcp_uri}
use messi.Linux.Server.Rules.Known.{greeted, InLog, Knows, create_fd-InLog, watched-InLog}
use messi.Linux.Server.Life.{serve, server_main, IsServing, stranger}
use messi.Linux.Server.Life.Serving.{kept-Serving}
use messi.Linux.Server.Life.Events.{serve-Serving}

length-clients_from : (k n : ℕ) → length (clients_from k n) ≡ suc n
length-clients_from k zero = refl
length-clients_from k (suc n) = ap suc (length-clients_from (suc k) n)

-- No client.
abbrev nobody : ℕ → Bool
nobody j = false

module _ {C2s : Type 0} where
  init_parsed-log :
      (o : Option (List ℕ × ℕ)) (n : ℕ) (b : ServerBuffers) (old s : Server C2s)
      → init_parsed o n b old ≡ some s
      → s.world ≡ old.world
  unfolding init_parsed
  init_parsed-log none n b old s e = absurd (cc)
  init_parsed-log (some (host, port)) n b old s e =
      sym (ap (λ (t : Server C2s). t.world) (some_eq e))

  init_parsed-idle :
      (o : Option (List ℕ × ℕ)) (n : ℕ) (b : ServerBuffers) (old s : Server C2s)
      → init_parsed o n b old ≡ some s
      → s.current_client_p ≡ none
  unfolding init_parsed
  init_parsed-idle none n b old s e = absurd (cc)
  init_parsed-idle (some (host, port)) n b old s e =
      sym (ap (λ (t : Server C2s). t.current_client_p) (some_eq e))

  -- `NAME_server_start` touches neither the clients nor their lists, and tells the user of none.
  abbrev Started : Server C2s → Bool × Server C2s → Type 0
  Started s r =
      (r.1.links ≡ s.links)
      × (r.1.clients ≡ s.clients)
      × (r.1.current_client_p ≡ s.current_client_p)
      × Knows nobody r.1

  start_addressed-Started :
      (fd : Fd) (s : Server C2s) (w : World (ServerEvent C2s))
      → InLog nobody w
      → Started s (start_addressed fd s w)
  unfolding start_addressed start_out check close note
  start_addressed-Started fd s w h =
      let (bound, w1) = check w in
      let (listening, w2) = check w1 in
      let (non_blocking, w3) = check w2 in
      let (added, w4) = server_epoll_ctl_add fd w3 in
      let h4 = watched-InLog nobody fd w3 h in
      if_cases (Started s) bound _ _
        (λ k.
          if_cases (Started s) listening _ _
            (λ k.
              if_cases (Started s) non_blocking _ _
                (λ k.
                  if_cases (Started s) added _ _ (λ k. (refl, refl, refl, h4))
                    (λ k. (refl, refl, refl, h4)))
                (λ k. (refl, refl, refl, h)))
            (λ k. (refl, refl, refl, h)))
        (λ k. (refl, refl, refl, h))

  start_address-Started :
      (host : List ℕ) (fd : Fd) (s : Server C2s) (w : World (ServerEvent C2s))
      → InLog nobody w
      → Started s (start_address host fd s w)
  unfolding start_address start_out check close note
  start_address-Started [] fd s w h = start_addressed-Started fd s w h
  start_address-Started (a ∷ host) fd s w h =
      if_cases (Started s) (check w).0 _ _ (λ k. start_addressed-Started fd s (check w).1 h)
        (λ k. (refl, refl, refl, h))

  start_socket-Started : (fd : Fd) (s : Server C2s) → Knows nobody s → Started s (start_socket fd s)
  unfolding start_socket start_out check close note
  start_socket-Started none s h = (refl, refl, refl, h)
  start_socket-Started (some fd) s h =
      if_cases (Started s) (check s.world).0 _ _
        (λ k. start_address-Started s.address (some fd) s (check s.world).1 h)
        (λ k. (refl, refl, refl, h))

  server_start-Started : (s : Server C2s) → Knows nobody s → Started s (server_start s)
  unfolding server_start
  server_start-Started s h =
      let r =
        start_socket-Started (create_fd s.world).0 (record s { world = (create_fd s.world).1 })
          (create_fd-InLog nobody s.world h) in
      (r.0, r.1, r.2, r.3)

module _ {C2s S2c : Type 0} (setup : ServerSetup C2s S2c) where
  -- After `NAME_server_init`, before the user is told of any client.
  abbrev IsFresh : Server C2s → Type 0
  IsFresh s = IsServing setup s × (s.links.pending_disconnect_list_p ≡ none) × Knows nobody s

  init-Serving :
      (atoi : List ℕ → ℕ) (uri : List ℕ) (b : ServerBuffers) (old s : Server C2s) (n : ℕ)
      → setup.clients_max ≡ suc n
      → old.links.fault ≡ false
      → old.world.log ≡ []
      → server_init atoi uri (suc n) b old ≡ some s
      → IsFresh s
  unfolding server_init
  init-Serving atoi uri b old s n many sound silent e =
      let lists = server_init-Lists atoi uri n b old s sound e in
      let world = init_parsed-log (parse_tcp_uri atoi uri 16) (suc n) b old s e in
      let told : Knows nobody s =
        λ j. ap (greeted j) (ap (λ (w : World (ServerEvent C2s)). w.log) world ∙ silent) in
      (
        record {
          orderly = record {
            connected = [];
            free = clients_from 0 n;
            pending = [];
            lists = lists;
            total = omega (arith, many, length-clients_from 0 n);
            fresh = λ i k. absurd (cc);
            owners = λ i k. let out = told i in absurd (ground arith);
            spared = λ i k. rw (told i) refl;
          };
          idle = init_parsed-idle (parse_tcp_uri atoi uri 16) (suc n) b old s e;
        },
        lists.pending,
        told,
      )

  Started-Serving :
      (s : Server C2s) (r : Bool × Server C2s)
      → Started s r
      → IsFresh s
      → IsServing setup r.1 × (r.1.links.pending_disconnect_list_p ≡ none)
  Started-Serving s (ok, t) kept (h, empty, told) = (
    kept-Serving setup s t
        (calls-IsOrderly setup.clients_max (stranger s) (stranger s) s t kept.0 kept.1 h.orderly)
        (λ j. kept.3 j ∙ sym (told j)) (kept.2 ∙ h.idle),
    ap (λ (l : Links). l.pending_disconnect_list_p) kept.0 ∙ empty,
  )

  module _ (polite : IsPoliteUser setup) where
    started-Serving :
        (r : Bool × Server C2s) (ts : List Turn) (s : Server C2s)
        → IsServing setup r.1 × (r.1.links.pending_disconnect_list_p ≡ none)
        → (if r.0 then some (serve setup ts r.1) else none) ≡ some s
        → IsServing setup s × (s.links.pending_disconnect_list_p ≡ none)
    started-Serving (true, t) ts s h e =
        subst (λ u. IsServing setup u × (u.links.pending_disconnect_list_p ≡ none)) (some_eq e)
          (serve-Serving setup polite ts t h.0 h.1)
    started-Serving (false, t) ts s h e = absurd (cc)

    main-Serving :
        (o : Option (Server C2s)) (ts : List Turn) (s : Server C2s)
        → ((t : Server C2s) → o ≡ some t → IsFresh t)
        → (elim o [
          | none ↦ none
          | some s ↦
              let (started, s') = server_start s in
              if started then some (serve setup ts s') else none
        ])
          ≡ some s
        → IsServing setup s × (s.links.pending_disconnect_list_p ≡ none)
    main-Serving none ts s h e = absurd (cc)
    main-Serving (some t) ts s h e =
        let fresh = h t refl in
        started-Serving (server_start t) ts s
          (Started-Serving t (server_start t) (server_start-Started t fresh.2) fresh) e

    pub server_main-Serving :
        (atoi : List ℕ → ℕ) (uri : List ℕ) (b : ServerBuffers) (old : Server C2s) (ts : List Turn)
        (s : Server C2s) (n : ℕ)
        → setup.clients_max ≡ suc n
        → old.links.fault ≡ false
        → old.world.log ≡ []
        → server_main setup atoi uri b old ts ≡ some s
        → IsServing setup s × (s.links.pending_disconnect_list_p ≡ none)
    unfolding server_main
    server_main-Serving atoi uri b old ts s n many sound silent =
        main-Serving (server_init atoi uri setup.clients_max b old) ts s (λ t e.
          init-Serving atoi uri b old t n many sound silent
            (ap (λ k. server_init atoi uri k b old) (sym many) ∙ e))
