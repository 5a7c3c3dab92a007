-- ===== src/Linux/Server/Orderly/Listener.antt =====
-- A new connection against the lists of clients: `process_listener` of
-- messi/c_source/templates/linux/server.c.
use messi.Base.{
  both_ways, ℕ, ◌+◌, ◌≡◌, refl, sym, ap, ◌∙◌, subst, inl, inr, List, [], ◌∷◌, Bool, true, false,
  none, some, ◌==◌, ◌||◌, arith, length, if◌then◌else◌, eq→==, ==→eq, Bool-cases, if_cases,
}
use messi.Kernel.{Fd, World, close, note, create_fd, check}
use messi.Linux.Server.Links.{Ptr, Links, alloc_client, free_connected_client}
use messi.Linux.Server.Links.Chains.{has}
use messi.Linux.Server.Links.Moves.{Lists, free_connected_client-Lists}
use messi.Linux.Server.Links.Alloc.{alloc_client-Lists}
use messi.Linux.Server.State.{Server, ServerEvent, client_connected}
use messi.Linux.Server.Send.{ServerSetup, server_call_back}
use messi.Linux.Server.Accept.{
  server_client_init, after_client_init, client_allocated, accepted, process_listener,
}
use messi.Linux.Server.Spares.{is_open}
use messi.Linux.Server.Orderly.{IsOrderlyBut}
use messi.Linux.Server.Orderly.Steps.{calls-IsOrderly}
use messi.Linux.Server.Orderly.NewClient.{
  alloc_none, or-left, without_first, Holds, client_init-Holds, client_init-Knows,
}
use messi.Linux.Server.Rules.Known.{InLog, Knows, create_fd-InLog, call_back-Knows}

-- The stale clients with another one, and without one.
abbrev pub and_client : ℕ → (ℕ → Bool) → ℕ → Bool
and_client i stale j = (j == i) || stale j

abbrev pub but_client : ℕ → (ℕ → Bool) → ℕ → Bool
but_client i stale j = if j == i then false else stale j

module _ {C2s S2c : Type 0} (setup : ServerSetup C2s S2c) (n : ℕ) where
  -- A new client is no longer stale, and the user knows it; one that is given up is stale, and free.
  pub data Settled (stale away known : ℕ → Bool) (s : Server C2s) : Type 0 where
    same : IsOrderlyBut n stale away s → Knows known s → Settled stale away known s
    joined :
        (i : ℕ)
        → IsOrderlyBut n (but_client i stale) (but_client i away) s
        → Knows (and_client i known) s
        → Settled stale away known s
    given_up :
        (i : ℕ) (h : IsOrderlyBut n (and_client i stale) away s)
        → has i h.free ≡ true
        → is_open (s.clients i).client_fd ≡ true
        → Knows known s
        → Settled stale away known s

  -- What the user does for a new client keeps the lists well formed, as long as the clients that are not
  -- to be touched are `stale`.
  abbrev pub Greets : Ptr → Type 0
  Greets current =
      (stale away : ℕ → Bool) (i : ℕ) (s : Server C2s)
      → stale i ≡ false
      → s.current_client_p ≡ current
      → IsOrderlyBut n stale away s
      → IsOrderlyBut n stale away
          (server_call_back setup (client_connected i) (setup.on_client_connected i) s)

  module _ (current : Ptr) (greets : Greets current) (stale away known : ℕ → Bool) where
    -- The first free client was put in front of the connected ones.
    record Allocated (i : ℕ) (t : Server C2s) : Type 0 where
      connected : List ℕ
      free : List ℕ
      pending : List ℕ
      lists : Lists t.links (i ∷ connected) free pending
      total : length connected + length free + length pending + 1 ≡ n
      idle : t.current_client_p ≡ current
      fresh : (j : ℕ) → has j connected ≡ true → stale j ≡ false
      owners :
          (j : ℕ)
          → stale j ≡ false
          → is_open (t.clients j).client_fd ≡ true
          → has j connected ≡ true
      was_away : away i ≡ true
      spared : (j : ℕ) → has j free ≡ true → away j ≡ true
      knows : Knows known t

    joined-IsOrderly :
        (i fd : ℕ) (t : Server C2s) (a : Allocated i t) (r : Bool × Server C2s)
        → Holds i (some fd) t r
        → IsOrderlyBut n (but_client i stale) (but_client i away) r.1
    joined-IsOrderly i fd t a r holds = record {
      connected = i ∷ a.connected;
      free = a.free;
      pending = a.pending;
      lists =
          subst (λ (l : Links). Lists l (i ∷ a.connected) a.free a.pending) (sym holds.links)
            a.lists;
      total = omega (arith, a.total);
      fresh = λ j k. ground (arith, a.fresh j);
      owners = λ j fresh up. elim (Bool-cases (j == i)) [
        | inl k ↦ rw k refl
        | inr k ↦ rw k (a.owners j (rw k at fresh) (ap is_open (sym (holds.others j k)) ∙ up))
      ];
      spared = λ j k. elim (Bool-cases (j == i)) [
        | inl e ↦ absurd (both_ways k (a.lists.apart_cf j (rw e refl)))
        | inr e ↦ rw e (a.spared j k)
      ];
    }

    given_up-IsOrderly :
        (i fd : ℕ) (t : Server C2s) (a : Allocated i t) (r : Bool × Server C2s) (v : Server C2s)
        → Holds i (some fd) t r
        → v.links ≡ free_connected_client i r.1.links
        → v.clients ≡ r.1.clients
        → (h : IsOrderlyBut n (and_client i stale) away v) × (has i h.free ≡ true)
    given_up-IsOrderly i fd t a (ok, u) v holds l c = (
      record {
        connected = a.connected;
        free = i ∷ a.free;
        pending = a.pending;
        lists =
            subst (λ (k : Links). Lists k a.connected (i ∷ a.free) a.pending) (sym l)
              (subst
                (λ (cs : List ℕ). Lists (free_connected_client i u.links) cs (i ∷ a.free) a.pending)
                (without_first i a.connected)
                (free_connected_client-Lists u.links i (i ∷ a.connected) a.free a.pending
                  (subst (λ (l : Links). Lists l (i ∷ a.connected) a.free a.pending)
                    (sym holds.links) a.lists)
                  (ground arith)));
        total = omega (arith, a.total);
        fresh = λ j k. ground (arith, a.fresh j, a.lists.distinct_c.0);
        owners = λ j fresh up. elim (Bool-cases (j == i)) [
          | inl k ↦ absurd (both_ways k (or-left (j == i) (stale j) fresh))
          | inr k ↦
              a.owners j (rw k at fresh) (
                ap is_open (sym (holds.others j k))
                ∙ ap (λ f. is_open (f j).client_fd) (sym c)
                ∙ up)
        ];
        spared = λ j k. elim (Bool-cases (j == i)) [
          | inl e ↦ subst (λ m. away m ≡ true) (sym (==→eq j i e)) a.was_away
          | inr e ↦ a.spared j (rw e at k)
        ];
      },
      ground arith,
    )

    after_client_init-Settled :
        (i fd : ℕ) (t : Server C2s) (a : Allocated i t) (r : Bool × Server C2s)
        → Holds i (some fd) t r
        → Knows known r.1
        → Settled stale away known (after_client_init setup r i (some fd))
    unfolding after_client_init close note
    after_client_init-Settled i fd t a (true, u) holds knows =
        joined i
          (greets (but_client i stale) (but_client i away) i u (rw (eq→== i i refl) refl)
            (holds.current ∙ a.idle) (joined-IsOrderly i fd t a (true, u) holds))
          (call_back-Knows known (and_client i known) setup (client_connected i)
            (setup.on_client_connected i) u (λ j b e. ground arith) knows)
    after_client_init-Settled i fd t a (false, u) holds knows =
        let (h, back) = given_up-IsOrderly i fd t a (false, u) _ holds refl refl in
        given_up i h back (ap is_open holds.new) knows

    client_allocated-Settled :
        (fd : ℕ) (s t : Server C2s) (h : IsOrderlyBut n stale away s) (fs : List ℕ)
        → h.free ≡ fs
        → t.links ≡ (alloc_client s.links).1
        → t.clients ≡ s.clients
        → t.current_client_p ≡ current
        → Knows known t
        → Settled stale away known (client_allocated setup (alloc_client s.links).0 (some fd) t)
    unfolding client_allocated close note
    client_allocated-Settled fd s t h [] e l c idle knows =
        let none_free : s.links.free_list_p ≡ none =
          (subst (λ (fs : List ℕ). Lists s.links h.connected fs h.pending) e h.lists).free in
        let full = alloc_none s.links none_free in
        subst (λ (p : Ptr). Settled stale away known (client_allocated setup p (some fd) t))
          (sym (ap (λ (r : Ptr × Links). r.0) full))
          (same
            (calls-IsOrderly n stale away s (record t { world = close (some fd) t.world })
              (l ∙ ap (λ (r : Ptr × Links). r.1) full) c h)
            knows)
    client_allocated-Settled fd s t h (i ∷ fs) e l c idle knows =
        let (first, lists) =
          alloc_client-Lists s.links i h.connected fs h.pending
            (subst (λ (gs : List ℕ). Lists s.links h.connected gs h.pending) e h.lists) in
        let a : Allocated i t = record {
          connected = h.connected;
          free = fs;
          pending = h.pending;
          lists = subst (λ (k : Links). Lists k (i ∷ h.connected) fs h.pending) (sym l) lists;
          total = omega (arith, h.total, ap length e);
          idle = idle;
          fresh = h.fresh;
          owners = λ j fresh up. h.owners j fresh (ap (λ f. is_open (f j).client_fd) (sym c) ∙ up);
          was_away = h.spared i (subst (λ gs. has i gs ≡ true) (sym e) (ground arith));
          spared = λ j k. h.spared j (subst (λ gs. has j gs ≡ true) (sym e) (ground arith));
          knows = knows;
        } in
        subst (λ (p : Ptr). Settled stale away known (client_allocated setup p (some fd) t))
          (sym first)
          (after_client_init-Settled i fd t a (server_client_init i (some fd) t)
            (client_init-Holds i (some fd) t) (client_init-Knows known i (some fd) t knows))

    accepted-Settled :
        (fd : Fd) (s : Server C2s)
        → s.current_client_p ≡ current
        → IsOrderlyBut n stale away s
        → Knows known s
        → Settled stale away known (accepted setup fd s)
    unfolding accepted check close note
    accepted-Settled none s idle h knows = same h knows
    accepted-Settled (some fd) s idle h knows =
        let w2 = (check (check s.world).1).1 in
        let closed : (w : World (ServerEvent C2s))
            → InLog known w
            → Settled stale away known (record s { world = w }) =
          λ w k. same (calls-IsOrderly n stale away s (record s { world = w }) refl refl h) k in
        if_cases (Settled stale away known) (check s.world).0 _ _
          (λ k.
            if_cases (Settled stale away known) (check (check s.world).1).0 _ _
              (λ k'.
                client_allocated-Settled fd s
                  (record s { links = (alloc_client s.links).1; world = w2 }) h h.free refl refl
                  refl idle knows)
              (λ k'. closed (close (some fd) w2) knows))
          (λ k. closed (close (some fd) (check s.world).1) knows)

    pub process_listener-Settled :
        (s : Server C2s)
        → s.current_client_p ≡ current
        → IsOrderlyBut n stale away s
        → Knows known s
        → Settled stale away known (process_listener setup s)
    unfolding process_listener
    process_listener-Settled s idle h knows =
        accepted-Settled (create_fd s.world).0 (record s { world = (create_fd s.world).1 }) idle
          (calls-IsOrderly n stale away s (record s { world = (create_fd s.world).1 }) refl refl h)
          (create_fd-InLog known s.world knows)
