-- ===== src/Linux/Server/Orderly/GivenUp.antt =====
-- The answer to a new connection: what `process_listener` of messi/c_source/templates/linux/server.c leaves
-- when each of its calls succeeds, and when one fails.
use messi.Base.{
  ℕ, ◌≡◌, refl, sym, ap, ◌∙◌, subst, List, [], ◌∷◌, Bool, true, false, none, some, ◌==◌, ◌&&◌,
  arith, if_cases,
}
use messi.Kernel.{
  is_open, Call, closed, Fd, World, note, close, check, attempt, create_fd, note_opened,
}
use messi.Linux.Client.Resources.{Releases}
use messi.Linux.Server.Links.Chains.{without}
use messi.Linux.Server.Links.{Ptr, Links, alloc_client, free_connected_client}
use messi.Linux.Server.Links.Moves.{Lists, free_connected_client-Lists}
use messi.Linux.Server.Links.Alloc.{alloc_client-Lists}
use messi.Linux.Server.State.{Server, ServerEvent, client_connected, server_epoll_ctl_add}
use messi.Linux.Server.Messages.{client_start_keep_alive_timer, client_reset_input, set_input}
use messi.Linux.Server.Send.{ServerSetup, server_call_back}
use messi.Linux.Server.Accept.{
  init_out_1, init_out_2, init_timer_started, init_timer_created, server_client_init,
  after_client_init, client_allocated, accepted, process_listener,
}
use messi.Linux.Server.Resources.{server_client_init-Releases}
use messi.Linux.Server.Rules.Known.{greeted, Knows, create_fd-InLog}
use messi.Linux.Server.Orderly.NewClient.{
  alloc_none, without_first, Holds, client_init-Holds, client_init-Knows,
}

module _ {C2s : Type 0} where
  -- Whether `accept`, `messi_make_non_blocking` and `setsockopt` succeed.
  abbrev pub gets_socket : World (ServerEvent C2s) → Bool
  gets_socket w = is_open (w.fds 0) && (w.statuses 0 && w.statuses 1)

  -- Whether `timerfd_create`, `timerfd_settime` and both calls of `epoll_ctl` succeed behind these.
  abbrev pub gets_timer : World (ServerEvent C2s) → Bool
  gets_timer w = is_open (w.fds 1) && (w.statuses 2 && (w.statuses 3 && w.statuses 4))

  -- The answers that `client_init` gets decide its result.
  init_timer_created-answer :
      (t : Fd) (i : ℕ) (fd : Fd) (s : Server C2s)
      → (init_timer_created t i fd s).0
        ≡ (is_open t && (s.world.statuses 0 && (s.world.statuses 1 && s.world.statuses 2)))
  unfolding init_timer_created init_timer_started init_out_1 init_out_2
      client_start_keep_alive_timer server_epoll_ctl_add attempt
  init_timer_created-answer none i fd s = refl
  init_timer_created-answer (some t) i fd s = ground arith

  client_init-answer :
      (i : ℕ) (fd : Fd) (s : Server C2s)
      → (server_client_init i fd s).0 ≡ (
          is_open (s.world.fds 0)
          && (s.world.statuses 0 && (s.world.statuses 1 && s.world.statuses 2)))
  unfolding server_client_init client_reset_input set_input create_fd
  client_init-answer i fd s = init_timer_created-answer (s.world.fds 0) i fd _

module _ {C2s S2c : Type 0} (setup : ServerSetup C2s S2c) (s : Server C2s) (cs fs ps : List ℕ) where
  -- Nothing is left of the connection: the lists are the same, the user was told nothing of it, and each
  -- descriptor that was created was closed, and deleted from epoll if it was added.
  pub record Refused (s' : Server C2s) : Type 0 where
    pub lists : Lists s'.links cs fs ps
    pub told : Knows (λ j. greeted j s.world.log) s'
    pub released : (fd : ℕ) → Releases fd 0 0 s.world.log s'.world.log

  pub data Answered (s' : Server C2s) : Type 0 where
    no_socket : gets_socket s.world ≡ false → Refused s' → s'.clients ≡ s.clients → Answered s'
    no_room : fs ≡ [] → Refused s' → s'.clients ≡ s.clients → Answered s'
    no_timer :
        (i : ℕ) (rest : List ℕ)
        → gets_socket s.world ≡ true
        → gets_timer s.world ≡ false
        → fs ≡ i ∷ rest
        → Refused s'
        → (s'.clients i).client_fd ≡ s.world.fds 0
        → ((j : ℕ) → (j == i) ≡ false → (s'.clients j).client_fd ≡ (s.clients j).client_fd)
        → Answered s'
    taken :
        (i : ℕ) (rest : List ℕ) (t : Server C2s)
        → gets_socket s.world ≡ true
        → gets_timer s.world ≡ true
        → fs ≡ i ∷ rest
        → Lists t.links (i ∷ cs) rest ps
        → Knows (λ j. greeted j s.world.log) t
        → (t.clients i).client_fd ≡ s.world.fds 0
        → ((j : ℕ) → (j == i) ≡ false → (t.clients j).client_fd ≡ (s.clients j).client_fd)
        → s' ≡ server_call_back setup (client_connected i) (setup.on_client_connected i) t
        → Answered s'

  module _ (lists : Lists s.links cs fs ps) (fd : ℕ) (got : s.world.fds 0 ≡ some fd) where
    -- The server with the new descriptor, before a client is looked for.
    abbrev reached : Server C2s
    reached = record s { world = (check (check (create_fd s.world).1).1).1 }

    closed-Refused :
        (w : World (ServerEvent C2s))
        → w.log ≡ (create_fd s.world).1.log
        → Refused (record s { world = close (some fd) w })
    unfolding close note create_fd
    closed-Refused w e = record {
      lists = lists;
      told = λ j. ap (greeted j) e ∙ create_fd-InLog _ s.world (λ j. refl) j;
      released = λ g.
          subst (λ log. Releases g 0 0 s.world.log (closed (some fd) ∷ log))
            (sym (e ∙ ap (λ f. note_opened f s.world.log) got)) (omega arith, omega arith);
    }

    after_client_init-Answered :
        (i : ℕ) (rest : List ℕ) (t : Server C2s) (r : Bool × Server C2s)
        → gets_socket s.world ≡ true
        → fs ≡ i ∷ rest
        → t.clients ≡ s.clients
        → t.world.log ≡ (create_fd s.world).1.log
        → Lists t.links (i ∷ cs) rest ps
        → Holds i (some fd) t r
        → Knows (λ j. greeted j s.world.log) r.1
        → r.0 ≡ gets_timer s.world
        → (r.0 ≡ false → (g : ℕ) → Releases g 0 0 t.world.log r.1.world.log)
        → Answered (after_client_init setup r i (some fd))
    unfolding after_client_init close note create_fd
    after_client_init-Answered i rest t (true, u) socket e c log new holds told answer freed =
        taken i rest u socket (sym answer) e
          (subst (λ (l : Links). Lists l (i ∷ cs) rest ps) (sym holds.links) new) told
          (holds.new ∙ sym got) (λ j other. holds.others j other ∙ ap (λ f. (f j).client_fd) c) refl
    after_client_init-Answered i rest t (false, u) socket e c log new holds told answer freed =
        let back : Lists (free_connected_client i u.links) (without i (i ∷ cs)) (i ∷ rest) ps =
          free_connected_client-Lists u.links i (i ∷ cs) rest ps
            (subst (λ (l : Links). Lists l (i ∷ cs) rest ps) (sym holds.links) new)
            (ground arith) in
        no_timer i rest socket (sym answer) e
          (record {
            lists =
                subst (λ (xs : List ℕ). Lists (free_connected_client i u.links) cs xs ps) (sym e)
                  (subst (λ (xs : List ℕ). Lists (free_connected_client i u.links) xs (i ∷ rest) ps)
                    (without_first i cs) back);
            told = told;
            released = λ g.
                let opened =
                  subst (λ (log : List (Call (ServerEvent C2s))). Releases g 0 0 log u.world.log)
                    (log ∙ ap (λ f. note_opened f s.world.log) got) (freed refl g) in
                (omega (arith, opened), omega (arith, opened));
          })
          (holds.new ∙ sym got) (λ j other. holds.others j other ∙ ap (λ f. (f j).client_fd) c)

    client_allocated-Answered :
        (gs : List ℕ)
        → fs ≡ gs
        → gets_socket s.world ≡ true
        → Answered (
            client_allocated setup
              (alloc_client s.links).0
              (some fd)
              (record reached { links = (alloc_client s.links).1 }))
    unfolding client_allocated check create_fd
    client_allocated-Answered [] e socket =
        let none_free : s.links.free_list_p ≡ none =
          (subst (λ (xs : List ℕ). Lists s.links cs xs ps) e lists).free in
        subst
          (λ (r : Ptr × Links).
            Answered (client_allocated setup r.0 (some fd) (record reached { links = r.1 })))
          (sym (alloc_none s.links none_free)) (no_room e (closed-Refused reached.world refl) refl)
    client_allocated-Answered (i ∷ rest) e socket =
        let (first, new) =
          alloc_client-Lists s.links i cs rest ps
            (subst (λ (xs : List ℕ). Lists s.links cs xs ps) e lists) in
        let t : Server C2s = record reached { links = (alloc_client s.links).1 } in
        subst (λ (p : Ptr). Answered (client_allocated setup p (some fd) t)) (sym first)
          (after_client_init-Answered i rest t (server_client_init i (some fd) t) socket e refl refl
            new (client_init-Holds i (some fd) t)
            (client_init-Knows _ i (some fd) t (create_fd-InLog _ s.world (λ j. refl)))
            (client_init-answer i (some fd) t)
            (λ failed g. server_client_init-Releases g i (some fd) t failed))

  accepted-Answered :
      (fd : Fd)
      → Lists s.links cs fs ps
      → s.world.fds 0 ≡ fd
      → Answered (accepted setup fd (record s { world = (create_fd s.world).1 }))
  unfolding accepted check create_fd
  accepted-Answered none lists got =
      no_socket (ground (arith, got))
        (record {
          lists = lists;
          told = create_fd-InLog _ s.world (λ j. refl);
          released = λ g.
              subst (λ f. Releases g 0 0 s.world.log (note_opened f s.world.log)) (sym got)
                (omega arith, omega arith);
        })
        refl
  accepted-Answered (some fd) lists got =
      if_cases Answered (s.world.statuses 0) _ _
        (λ k.
          if_cases Answered (s.world.statuses 1) _ _
            (λ k'. client_allocated-Answered lists fd got fs refl (ground (arith, got)))
            (λ k'.
              no_socket (ground (arith, got))
                (closed-Refused lists fd got (reached lists fd got).world refl) refl))
        (λ k.
          no_socket (ground (arith, got))
            (closed-Refused lists fd got (check (create_fd s.world).1).1 refl) refl)

  -- What `process_listener` does with a new connection, for any user. Let the three lists of clients be
  -- well formed. There are four cases, by what the calls answer and whether a client is free. If
  -- `accept` fails or the new socket cannot be set up, and if no client is free, then the lists and the
  -- clients are as before. If the keep alive timer cannot be created or started, or epoll refuses it or
  -- the socket, then the lists are as before, and so is the descriptor of every client but the first free
  -- one, which keeps the descriptor of the connection. In these three cases the user is not told of a
  -- client, and every descriptor that was created was closed, and deleted from epoll if it was added. If
  -- all calls succeed and a client is free, then the first free one is put in front of the connected ones
  -- with the new descriptor, no other one gets another descriptor, and the user is called for it.
  pub process_listener-Answered : Lists s.links cs fs ps → Answered (process_listener setup s)
  unfolding process_listener
  process_listener-Answered lists = accepted-Answered (s.world.fds 0) lists refl
