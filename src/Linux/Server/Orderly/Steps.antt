-- ===== src/Linux/Server/Orderly/Steps.antt =====
-- Single steps on a client leave the lists of messi/c_source/templates/linux/server.c well formed: the
-- writes from its queue, its input, and calls.
use messi.Base.{ℕ, ◌≡◌, refl, List, [], ◌∷◌, Bool, false}
use messi.Input.{Input}
use messi.Linux.Server.State.{Server, OutputItem, set_client}
use messi.Linux.Server.Output.{end_of_out}
use messi.Linux.Server.Send.{ServerSetup}
use messi.Linux.Server.Messages.{set_input, client_start_keep_alive_timer, server_handle_choice}
use messi.Linux.Server.Rules.Out.{OutKept}
use messi.Linux.Server.Rules.Events.{EventKept}
use messi.Linux.Server.Orderly.{
  IsOrderlyBut, SameFds, SameFds-IsOrderly, set_client-fds, Orderly-KeptAt,
}

module _ {C2s : Type 0} where
  set_input-SameFds : (i : ℕ) (v : Input) (s : Server C2s) → SameFds s (set_input i v s)
  unfolding set_input set_client
  set_input-SameFds i v s = record {
    links = refl;
    fds = λ j. set_client-fds i (record (s.clients i) { input = v }) s j refl;
  }

  end_of_out-SameFds :
      (i : ℕ) (items : List OutputItem) (s : Server C2s) → SameFds s (end_of_out i items s)
  unfolding end_of_out set_client
  end_of_out-SameFds i [] s = record {
    links = refl;
    fds = λ j. set_client-fds i (record (s.clients i) { output = [] }) s j refl;
  }
  end_of_out-SameFds i (item ∷ items) s = record {
    links = refl;
    fds = λ j. set_client-fds i (record (s.clients i) { output = item ∷ items }) s j refl;
  }

module _ {C2s : Type 0} (n : ℕ) (stale away : ℕ → Bool) where
  -- Calls, and the current client.
  pub calls-IsOrderly :
      (s s' : Server C2s)
      → s'.links ≡ s.links
      → s'.clients ≡ s.clients
      → IsOrderlyBut n stale away s
      → IsOrderlyBut n stale away s'
  calls-IsOrderly s s' l c =
      SameFds-IsOrderly n stale away s s' (record { links = l; fds = λ j i. (c i j).client_fd })

  Orderly-OutKept : (i : ℕ) → stale i ≡ false → OutKept {C2s = C2s} i (IsOrderlyBut n stale away)
  Orderly-OutKept i fresh = record {
    client = Orderly-KeptAt n stale away i fresh;
    by_free = λ a s. calls-IsOrderly s _ refl refl;
    by_end = λ items s. SameFds-IsOrderly n stale away s _ (end_of_out-SameFds i items s);
  }

  module _ {S2c : Type 0} (setup : ServerSetup C2s S2c) where
    -- If the handling of a message keeps the lists well formed, then so do all events.
    pub Orderly-EventKept :
        (i : ℕ)
        → stale i ≡ false
        → ((m : C2s) (s : Server C2s)
            → IsOrderlyBut n stale away s
            → IsOrderlyBut n stale away (server_handle_choice setup i m s))
        → EventKept setup i (IsOrderlyBut n stale away)
    unfolding client_start_keep_alive_timer
    Orderly-EventKept i fresh by_choice = record {
      out = Orderly-OutKept i fresh;
      by_input = λ v s. SameFds-IsOrderly n stale away s _ (set_input-SameFds i v s);
      by_timer = λ s. calls-IsOrderly s _ refl refl;
      by_read = λ rs s. calls-IsOrderly s _ refl refl;
      by_choice = by_choice;
    }
