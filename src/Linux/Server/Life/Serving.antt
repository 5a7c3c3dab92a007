-- ===== src/Linux/Server/Life/Serving.antt =====
-- The invariant of a server of messi/c_source/templates/linux/server.c when the clients that its user
-- knows stay the same, or change.
use messi.Base.{ℕ, ◌≡◌, refl, sym, ◌∙◌, Bool, true, none, if◌then◌else◌, arith}
use messi.Linux.Server.Links.Chains.{has}
use messi.Linux.Server.State.{Server}
use messi.Linux.Server.Send.{ServerSetup}
use messi.Linux.Server.Orderly.{IsOrderlyBut}
use messi.Linux.Server.Rules.Known.{greeted, Knows}
use messi.Linux.Server.Life.{IsServing, stranger}

module _ {C2s : Type 0} (n : ℕ) where
  -- The same server with other clients that may hold a descriptor, if these are right for it.
  pub relabelled :
      (stale away stale' : ℕ → Bool) (s : Server C2s) (h : IsOrderlyBut n stale away s)
      → ((j : ℕ) → stale j ≡ stale' j)
      → ((j : ℕ) → away j ≡ true → stale' j ≡ true)
      → IsOrderlyBut n stale' stale' s
  relabelled stale away stale' s h alike gone = record {
    connected = h.connected;
    free = h.free;
    pending = h.pending;
    lists = h.lists;
    total = h.total;
    fresh = λ j k. sym (alike j) ∙ h.fresh j k;
    owners = λ j fresh. h.owners j (alike j ∙ fresh);
    spared = λ j k. gone j (h.spared j k);
  }

  -- Those to be disconnected are given up in advance.
  pub given_up_pending :
      (stale : ℕ → Bool) (s : Server C2s) (h : IsOrderlyBut n stale stale s)
      → let stale' : ℕ → Bool = λ j. if has j h.pending then true else stale j in
        (h' : IsOrderlyBut n stale' stale' s) × (h'.pending ≡ h.pending)
  given_up_pending stale s h = (
    record {
      connected = h.connected;
      free = h.free;
      pending = h.pending;
      lists = h.lists;
      total = h.total;
      fresh = λ j k. ground (arith, h.fresh j k, h.lists.apart_cp j k);
      owners = λ j fresh. h.owners j (ground arith);
      spared = λ j k. ground (arith, h.spared j k);
    },
    refl,
  )

module _ {C2s : Type 0} where
  -- The clients that the user knows, in the form of `Knows`.
  abbrev pub known_in : Server C2s → ℕ → Bool
  known_in s j = greeted j s.world.log

  pub knows_same :
      (s s' : Server C2s) → Knows (known_in s) s' → (j : ℕ) → stranger s j ≡ stranger s' j
  knows_same s s' k j = ground (arith, k j)

module _ {C2s S2c : Type 0} (setup : ServerSetup C2s S2c) where
  -- The same clients are known.
  pub kept-Serving :
      (s s' : Server C2s)
      → IsOrderlyBut setup.clients_max (stranger s) (stranger s) s'
      → Knows (known_in s) s'
      → s'.current_client_p ≡ none
      → IsServing setup s'
  kept-Serving s s' h k idle = record {
    orderly =
        relabelled setup.clients_max (stranger s) (stranger s) (stranger s') s' h
          (knows_same s s' k) (λ j e. sym (knows_same s s' k j) ∙ e);
    idle = idle;
  }
