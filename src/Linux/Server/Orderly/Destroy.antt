-- ===== src/Linux/Server/Orderly/Destroy.antt =====
-- `destroy_pending_disconnect_clients` and `NAME_server_process` of messi/c_source/templates/linux/server.c
-- against the lists of clients, for a user who does nothing when a client is disconnected.
use messi.Base.{
  ℕ, zero, suc, ◌≤◌, true, ◌==◌, Bool-cases, inl, inr, ==→eq, if◌then◌else◌, ◌≡◌, refl, sym, ap,
  ◌∙◌, subst, List, [], ◌∷◌, Bool, false, none, arith, length,
}
use messi.Kernel.{Fd, note, callback, close}
use messi.Linux.Client.Api.{same_fd}
use messi.Linux.Server.Links.{Ptr, Links, free_pending_disconnect_client}
use messi.Linux.Server.Links.Chains.{has}
use messi.Linux.Server.Links.Moves.{Lists}
use messi.Linux.Server.Links.Pending.{free_pending_disconnect_client-Lists}
use messi.Linux.Server.State.{Server, client_disconnected, set_client, server_close_fd}
use messi.Linux.Server.Send.{Action, ServerSetup, act_each, server_call_back}
use messi.Linux.Server.Broadcast.{head_of, Chain-head}
use messi.Linux.Server.Api.{
  find_owner, process_owner, destroy_one, destroy_loop, destroy_pending_disconnect_clients,
  server_process,
}
use messi.Linux.Server.Orderly.{
  IsOrderly, IsOrderlyBut, no_client, any_client, SameFds, set_client-fds,
}
use messi.Linux.Server.Spares.{is_open}
use messi.Linux.Server.Rules.Known.{greeted, call_back-Knows}
use messi.Linux.Server.Orderly.Events.{process_owner-IsOrderly}

module _ {C2s S2c : Type 0} (setup : ServerSetup C2s S2c)
    (quiet : (i : ℕ) (s : Server C2s) → setup.on_client_disconnected i s ≡ []) where
  -- Calling back leaves the lists and the clients alone.
  call_back-quiet :
      (i : ℕ) (s : Server C2s)
      → server_call_back setup (client_disconnected i) (setup.on_client_disconnected i) s
        ≡ record s { world = note (callback (client_disconnected i)) s.world }
  unfolding server_call_back act_each
  call_back-quiet i s =
      let noted : Server C2s = record s {
        world = note (callback (client_disconnected i)) s.world;
      } in
      ap (λ (actions : List (Action S2c)). act_each setup actions noted) (quiet i noted)

  -- What the callback is called on: the timer is closed.
  abbrev timer_closed : ℕ → Server C2s → Server C2s
  timer_closed i s =
      set_client i (record (s.clients i) { keep_alive_timer_fd = none })
        (record s { world = server_close_fd (s.clients i).keep_alive_timer_fd s.world })

  timer_closed-links : (i : ℕ) (s : Server C2s) → (timer_closed i s).links ≡ s.links
  unfolding set_client
  timer_closed-links i s = refl

  -- The user has been told that these are disconnected, and of no other client.
  abbrev pub Dropped : List ℕ → Server C2s → Server C2s → Type 0
  Dropped ps s s' =
      (j : ℕ) → greeted j s'.world.log ≡ (if has j ps then false else greeted j s.world.log)

  destroy_one-Dropped : (i : ℕ) (s : Server C2s) → Dropped (i ∷ []) s (destroy_one setup i s).1
  unfolding destroy_one set_client server_close_fd close note
  destroy_one-Dropped i s =
      call_back-Knows (λ j. greeted j s.world.log)
        (λ j. if has j (i ∷ []) then false else greeted j s.world.log) setup (client_disconnected i)
        (setup.on_client_disconnected i) (timer_closed i s) (λ j b e. ground arith) (λ j. refl)

  Dropped-cons :
      (i : ℕ) (ps : List ℕ) (s s1 s' : Server C2s)
      → Dropped (i ∷ []) s s1
      → Dropped ps s1 s'
      → Dropped (i ∷ ps) s s'
  Dropped-cons i ps s s1 s' h k = λ j. ground (arith, h j, k j)

  module _ (n : ℕ) (stale away : ℕ → Bool) where
    abbrev Destroyed : ℕ → List ℕ → Ptr × Server C2s → Type 0
    Destroyed i ps r = (r.0 ≡ head_of ps) × ((h : IsOrderlyBut n stale away r.1) × (h.pending ≡ ps))

    freed-Destroyed :
        (i : ℕ) (ps : List ℕ) (s t : Server C2s) (h : IsOrderlyBut n stale away s)
        → SameFds s t
        → h.pending ≡ i ∷ ps
        → away i ≡ true
        → Destroyed i ps
            (t.links.next_p i, record t { links = free_pending_disconnect_client i t.links })
    freed-Destroyed i ps s t h same e gone =
        let first : Lists t.links h.connected h.free (i ∷ ps) =
          subst (λ (l : Links). Lists l h.connected h.free (i ∷ ps)) (sym same.links)
            (subst (Lists s.links h.connected h.free) e h.lists) in
        (
          Chain-head t.links.next_p (t.links.next_p i) ps first.pending.1,
          (
            record {
              connected = h.connected;
              free = i ∷ h.free;
              pending = ps;
              lists = free_pending_disconnect_client-Lists t.links i h.connected h.free ps first;
              total = omega (arith, h.total, ap length e);
              fresh = h.fresh;
              owners = λ j fresh up. h.owners j fresh (ap is_open (sym (same.fds j)) ∙ up);
              spared = λ j k. elim (Bool-cases (j == i)) [
                | inl same_i ↦ subst (λ m. away m ≡ true) (sym (==→eq j i same_i)) gone
                | inr other ↦ h.spared j (rw other at k)
              ];
            },
            refl,
          ),
        )

    destroy_one-Destroyed :
        (i : ℕ) (ps : List ℕ) (s : Server C2s) (h : IsOrderlyBut n stale away s)
        → h.pending ≡ i ∷ ps
        → away i ≡ true
        → Destroyed i ps (destroy_one setup i s)
    unfolding destroy_one
    destroy_one-Destroyed i ps s h e gone =
        let t =
          server_call_back setup (client_disconnected i) (setup.on_client_disconnected i)
            (timer_closed i s) in
        let same : SameFds s t = record {
          links =
              ap (λ (u : Server C2s). u.links) (call_back-quiet i (timer_closed i s))
              ∙ timer_closed-links i s;
          fds = λ j.
              ap (λ (u : Server C2s). (u.clients j).client_fd)
                (call_back-quiet i (timer_closed i s))
              ∙ set_client-fds i (record (s.clients i) { keep_alive_timer_fd = none })
                  (record s { world = server_close_fd (s.clients i).keep_alive_timer_fd s.world }) j
                  refl;
        } in
        freed-Destroyed i ps s t h same e gone

    abbrev Emptied : List ℕ → Server C2s → Server C2s → Type 0
    Emptied ps s s' = ((h' : IsOrderlyBut n stale away s') × (h'.pending ≡ [])) × Dropped ps s s'

    destroy_loop-Emptied :
        (k : ℕ) (ps : List ℕ) (s : Server C2s) (h : IsOrderlyBut n stale away s)
        → h.pending ≡ ps
        → length ps ≤ k
        → ((j : ℕ) → has j ps ≡ true → away j ≡ true)
        → Emptied ps s (destroy_loop setup k (head_of ps) s)
    unfolding destroy_loop
    destroy_loop-Emptied zero [] s h e low gone = ((h, e), λ j. refl)
    destroy_loop-Emptied (suc k) [] s h e low gone = ((h, e), λ j. refl)
    destroy_loop-Emptied zero (i ∷ ps) s h e low gone = absurd (omega arith)
    destroy_loop-Emptied (suc k) (i ∷ ps) s h e low gone =
        let (next, (h1, e1)) = destroy_one-Destroyed i ps s h e (gone i (ground arith)) in
        let r = destroy_one setup i s in
        let rest =
          destroy_loop-Emptied k ps r.1 h1 e1 (omega arith) (λ j k. gone j (ground arith)) in
        subst (λ (p : Ptr). Emptied (i ∷ ps) s (destroy_loop setup k p r.1)) (sym next)
          (
            rest.0,
            Dropped-cons i ps s r.1 (destroy_loop setup k (head_of ps) r.1)
                (destroy_one-Dropped i s) rest.1,
          )

  -- The same with stale clients, which stay the same; those to be disconnected will be free.
  pub destroy_all-IsOrderly :
      (stale away : ℕ → Bool) (s : Server C2s) (h : IsOrderlyBut setup.clients_max stale away s)
      → ((j : ℕ) → has j h.pending ≡ true → away j ≡ true)
      → IsOrderlyBut setup.clients_max stale away (destroy_pending_disconnect_clients setup s)
        × ((destroy_pending_disconnect_clients setup s).links.pending_disconnect_list_p ≡ none)
        × Dropped h.pending s (destroy_pending_disconnect_clients setup s)
  unfolding destroy_pending_disconnect_clients
  destroy_all-IsOrderly stale away s h gone =
      let n = setup.clients_max in
      let ((h', e), dropped) =
        subst (λ (p : Ptr). Emptied n stale away h.pending s (destroy_loop setup n p s))
          (sym
            (Chain-head s.links.next_p s.links.pending_disconnect_list_p h.pending h.lists.pending))
          (destroy_loop-Emptied n stale away n h.pending s h refl (omega (arith, h.total)) gone) in
      (
        h',
        (subst (Lists (destroy_pending_disconnect_clients setup s).links h'.connected h'.free) e
            h'.lists).pending,
        dropped,
      )

  -- The loop ends within as many rounds as there are clients: it frees every client with a disconnect
  -- pending. Let each of the clients be in one of the three lists, these be well formed, and only connected
  -- clients have a descriptor. If the user does nothing when a client is disconnected, then the same
  -- holds afterwards, and no client has a disconnect pending.
  pub destroy_pending_disconnect_clients-IsOrderly :
      (s : Server C2s)
      → IsOrderly setup.clients_max s
      → IsOrderly setup.clients_max (destroy_pending_disconnect_clients setup s)
        × ((destroy_pending_disconnect_clients setup s).links.pending_disconnect_list_p ≡ none)
  destroy_pending_disconnect_clients-IsOrderly s h =
      let (h', empty, told) = destroy_all-IsOrderly no_client any_client s h (λ j k. refl) in
      (h', empty)

  -- The server's loop: an event of a client, or of a descriptor that nobody has, is followed by the freeing
  -- of all that it disconnected. Let each of the clients be in one of the three lists, these be well
  -- formed, and only connected clients have a descriptor. If the descriptor is not the listener's, and the
  -- user does nothing when a client is disconnected, then the same holds after `NAME_server_process`, and
  -- no client has a disconnect pending.
  pub server_process-IsOrderly :
      (fd : Fd) (out in_ : Bool) (s : Server C2s)
      → same_fd fd s.listener_fd ≡ false
      → IsOrderly setup.clients_max s
      → IsOrderly setup.clients_max (server_process setup fd out in_ s)
        × ((server_process setup fd out in_ s).links.pending_disconnect_list_p ≡ none)
  unfolding server_process
  server_process-IsOrderly fd out in_ s other h =
      let owner =
        find_owner setup.clients_max s.links.connected_list_p fd s.links.next_p s.clients in
      rw other (
        destroy_pending_disconnect_clients-IsOrderly (process_owner setup owner out in_ s)
          (process_owner-IsOrderly setup setup.clients_max owner out in_ s h))
