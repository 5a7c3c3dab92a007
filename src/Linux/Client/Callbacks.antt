-- ===== src/Linux/Client/Callbacks.antt =====
-- What the user's callbacks are given by the Linux client, and what sending leaves alone
-- (messi/c_source/templates/linux/client.c).
use messi.Base.{ℕ, ◌≡◌, refl, ◌∙◌, List, [], ◌∷◌, ◌++◌, false, Option, none, some, arith}
use messi.Kernel.{Call, callback, note, close, write}
use messi.Reason.{Reason}
use messi.Linux.Client.State.{
  Client, Setup, Event, connected, disconnected, close_fd, pending_disconnect, write_all,
  send_encoded, client_send, send_each,
}

module _ {S2c : Type 0} where
  abbrev pub delivered : Event S2c → List S2c
  delivered connected = []
  delivered (disconnected r) = []
  delivered (Event.received m) = m ∷ []

  -- The messages that the user's callbacks were given, oldest first.
  abbrev pub deliveries : List (Call (Event S2c)) → List S2c
  deliveries [] = []
  deliveries (callback e ∷ log) = deliveries log ++ delivered e
  deliveries (_ ∷ log) = deliveries log

  -- What sending leaves alone. A disconnect that is pending stays so.
  pub record Quiet (c c' : Client S2c) : Type 0 where
    pub input : c'.input ≡ c.input
    pub workspace : c'.workspace_in_size ≡ c.workspace_in_size
    pub said : deliveries c'.world.log ≡ deliveries c.world.log
    pub pending : c'.pending_disconnect ≡ false → c.pending_disconnect ≡ false

  pub Quiet-refl : (c : Client S2c) → Quiet c c
  Quiet-refl c = record { input = refl; workspace = refl; said = refl; pending = λ h. h }

  pub Quiet-trans : (a b c : Client S2c) → Quiet a b → Quiet b c → Quiet a c
  Quiet-trans a b c h k = record {
    input = k.input ∙ h.input;
    workspace = k.workspace ∙ h.workspace;
    said = k.said ∙ h.said;
    pending = λ e. h.pending (k.pending e);
  }

  pub pending_disconnect-Quiet : (r : Reason) (c : Client S2c) → Quiet c (pending_disconnect r c)
  unfolding pending_disconnect close_fd close note
  pending_disconnect-Quiet r c = ground arith

  pub write_all-Quiet :
      (bytes : List ℕ) (r : Reason) (c : Client S2c) → Quiet c (write_all bytes r c).1
  unfolding write_all write pending_disconnect close_fd close note
  write_all-Quiet bytes r c = ground arith

  pub send_encoded-Quiet : (r : Option (List ℕ)) (c : Client S2c) → Quiet c (send_encoded r c)
  unfolding send_encoded
  send_encoded-Quiet none c = pending_disconnect-Quiet _ c
  send_encoded-Quiet (some bytes) c = write_all-Quiet _ _ c

module _ {C2s S2c : Type 0} (setup : Setup C2s S2c) where
  pub client_send-Quiet : (m : C2s) (c : Client S2c) → Quiet c (client_send setup m c)
  unfolding client_send
  client_send-Quiet m c = send_encoded-Quiet _ c

  pub send_each-Quiet : (ms : List C2s) (c : Client S2c) → Quiet c (send_each setup ms c)
  unfolding send_each
  send_each-Quiet [] c = Quiet-refl c
  send_each-Quiet (m ∷ ms) c =
      Quiet-trans c (client_send setup m c) (send_each setup ms (client_send setup m c))
        (client_send-Quiet m c) (send_each-Quiet ms (client_send setup m c))
