-- ===== src/Linux/Server/Orderly.antt =====
-- The invariant of the clients of messi/c_source/templates/linux/server.c: every client is in one of
-- the three lists, and only connected clients have a descriptor. Whatever is written, and whomever the
-- server or the user disconnects, it is kept.
pub mod Steps
pub mod Events
pub mod Destroy
pub mod NewClient
pub mod Listener
pub mod GivenUp
pub mod Idle
pub mod Polite
mod Tests
use messi.Base.{
  ℕ, ◌+◌, ◌-◌, ◌≤◌, ◌≡◌, refl, sym, ap, ◌∙◌, subst, List, [], ◌∷◌, ◌++◌, Bool, true, false, Option,
  none, some, ◌==◌, if◌then◌else◌, arith, length, if_cases, ==→eq, eq→==, Bool-cases, inl, inr,
}
use messi.Kernel.{Fd, malloc}
use messi.Linux.Server.Links.{Links, move_client_to_pending_disconnect_list}
use messi.Linux.Server.Links.Chains.{has, without, has-without}
use messi.Linux.Server.Links.Moves.{Lists, move_client_to_pending_disconnect_list-Lists}
use messi.Linux.Server.State.{
  Server, ServerClient, set_client, free_client_output, disconnect_from, client_pending_disconnect,
}
use messi.Linux.Server.Output.{append_item, client_output_append, wrote_to}
use messi.Linux.Server.Rules.{Kept, KeptAt}
use messi.Linux.Server.Spares.{is_open}

length-without : (c : ℕ) (xs : List ℕ) → has c xs ≡ true → length (without c xs) + 1 ≡ length xs
unfolding without
length-without c [] i = absurd (cc)
length-without c (x ∷ xs) i = ground (arith, length-without c xs)

has-without_other :
    (a c : ℕ) (xs : List ℕ) → has a xs ≡ true → (a == c) ≡ false → has a (without c xs) ≡ true
unfolding without
has-without_other a c [] i d = i
has-without_other a c (x ∷ xs) i d = ground (arith, has-without_other a c xs)

-- There are `n` clients in the lists, and only connected ones have a descriptor, but for some others
-- that keep one, or hold one that was never written: the `stale`. The free ones are all `away`.
pub record IsOrderlyBut {C2s : Type 0} (n : ℕ) (stale away : ℕ → Bool) (s : Server C2s)
    : Type 0 where
  pub connected : List ℕ
  pub free : List ℕ
  pub pending : List ℕ
  pub lists : Lists s.links connected free pending
  pub total : length connected + length free + length pending ≡ n
  pub fresh : (i : ℕ) → has i connected ≡ true → stale i ≡ false
  pub owners :
      (i : ℕ) → stale i ≡ false → is_open (s.clients i).client_fd ≡ true → has i connected ≡ true
  pub spared : (i : ℕ) → has i free ≡ true → away i ≡ true

-- None of them, and all of them.
abbrev pub no_client : ℕ → Bool
no_client i = false

abbrev pub any_client : ℕ → Bool
any_client i = true

abbrev pub IsOrderly : {C2s : Type 0} → ℕ → Server C2s → Type 0
IsOrderly n = IsOrderlyBut n no_client any_client

module _ {C2s : Type 0} where
  -- Neither the lists nor the descriptors changed.
  pub record SameFds (s s' : Server C2s) : Type 0 where
    pub links : s'.links ≡ s.links
    pub fds : (i : ℕ) → (s'.clients i).client_fd ≡ (s.clients i).client_fd

  pub set_client-fds :
      (j : ℕ) (v : ServerClient) (s : Server C2s) (i : ℕ)
      → v.client_fd ≡ (s.clients j).client_fd
      → ((set_client j v s).clients i).client_fd ≡ (s.clients i).client_fd
  unfolding set_client
  set_client-fds j v s i e =
      if_cases (λ (c : ServerClient). c.client_fd ≡ (s.clients i).client_fd) (i == j) v
        (s.clients i) (λ k. e ∙ ap (λ (m : ℕ). (s.clients m).client_fd) (sym (==→eq i j k)))
        (λ k. refl)

  append_item-SameFds :
      (o : Option ℕ) (j : ℕ) (bytes : List ℕ) (s : Server C2s) → SameFds s (append_item o j bytes s)
  unfolding append_item set_client
  append_item-SameFds none j bytes s = record { links = refl; fds = λ i. refl }
  append_item-SameFds (some a) j bytes s = record {
    links = refl;
    fds = λ i. set_client-fds j _ s i refl;
  }

  append-SameFds :
      (j : ℕ) (bytes : List ℕ) (s : Server C2s) → SameFds s (client_output_append j bytes s)
  unfolding client_output_append
  append-SameFds j bytes s =
      let r =
        append_item-SameFds (malloc s.world).0 j bytes (record s { world = (malloc s.world).1 }) in
      record { links = r.links; fds = r.fds }

module _ {C2s : Type 0} (n : ℕ) (stale away : ℕ → Bool) where
  abbrev Orderly : Server C2s → Type 0
  Orderly = IsOrderlyBut n stale away

  pub SameFds-IsOrderly : (s s' : Server C2s) → SameFds s s' → Orderly s → Orderly s'
  SameFds-IsOrderly s s' same h = record {
    connected = h.connected;
    free = h.free;
    pending = h.pending;
    lists = subst (λ (l : Links). Lists l h.connected h.free h.pending) (sym same.links) h.lists;
    total = h.total;
    fresh = h.fresh;
    owners = λ i fresh up. h.owners i fresh (ap is_open (sym (same.fds i)) ∙ up);
    spared = h.spared;
  }

  -- A connected client is moved to those to be disconnected, and its descriptor is gone.
  moved-IsOrderly :
      (j : ℕ) (s s' : Server C2s) (h : Orderly s)
      → has j h.connected ≡ true
      → s'.links ≡ move_client_to_pending_disconnect_list j s.links
      → ((i : ℕ)
          → is_open (s'.clients i).client_fd ≡ true
          → ((i == j) ≡ false) × (is_open (s.clients i).client_fd ≡ true))
      → Orderly s'
  moved-IsOrderly j s s' h here links fds = record {
    connected = without j h.connected;
    free = h.free;
    pending = j ∷ h.pending;
    lists =
        subst (λ (l : Links). Lists l (without j h.connected) h.free (j ∷ h.pending)) (sym links)
          (move_client_to_pending_disconnect_list-Lists s.links j h.connected h.free h.pending
            h.lists here);
    total = omega (arith, h.total, length-without j h.connected here);
    fresh = λ i k. h.fresh i (has-without i j h.connected k);
    owners = λ i fresh up.
        let (other, was) = fds i up in
        has-without_other i j h.connected (h.owners i fresh was) other;
    spared = h.spared;
  }

  disconnect_from-IsOrderly :
      (fd : Fd) (j : ℕ) (s : Server C2s)
      → stale j ≡ false
      → (s.clients j).client_fd ≡ fd
      → Orderly s
      → Orderly (disconnect_from fd j s)
  unfolding disconnect_from free_client_output set_client
  disconnect_from-IsOrderly none j s fresh e h = h
  disconnect_from-IsOrderly (some fd) j s fresh e h =
      moved-IsOrderly j s (disconnect_from (some fd) j s) h (h.owners j fresh (ap is_open e)) refl
        (λ i up. ground arith)

  pub Orderly-KeptAt : (j : ℕ) → stale j ≡ false → KeptAt j Orderly
  unfolding client_pending_disconnect
  Orderly-KeptAt j fresh = record {
    by_write = λ bytes s h.
        SameFds-IsOrderly s (wrote_to j bytes s) (record { links = refl; fds = λ i. refl }) h;
    by_append = λ bytes s h.
        SameFds-IsOrderly s (client_output_append j bytes s) (append-SameFds j bytes s) h;
    by_disconnect = λ s h. disconnect_from-IsOrderly (s.clients j).client_fd j s fresh refl h;
  }

-- With no stale client, whatever is written and whomever it disconnects.
pub Orderly-Kept : {C2s : Type 0} (n : ℕ) → Kept (IsOrderly {C2s = C2s} n)
Orderly-Kept n = record {
  by_write = λ j. (Orderly-KeptAt n no_client any_client j refl).by_write;
  by_append = λ j. (Orderly-KeptAt n no_client any_client j refl).by_append;
  by_disconnect = λ j. (Orderly-KeptAt n no_client any_client j refl).by_disconnect;
}
