-- ===== src/Linux/Server/Rules.antt =====
-- Proof rules for what the Linux server of messi/c_source/templates/linux/server.c does to its clients:
-- a predicate that every step of writing to a client and of disconnecting one keeps is kept by
-- `client_write` and by all that the user's callbacks may do.
pub mod Out
pub mod Events
pub mod Current
pub mod Known
use messi.Base.{ℕ, zero, suc, List, [], ◌∷◌, Option, none, some, ◌==◌, ltb, length, if_cases}
use messi.Kernel.{Round, go_on, leave, WriteReply, sent, again, failed}
use messi.Linux.Server.Links.{Ptr}
use messi.Linux.Server.State.{Server, OutputItem, client_pending_disconnect}
use messi.Linux.Server.Output.{
  client_output_append, write_round, write_reply, wrote_to, client_write_loop, write_behind,
  client_write,
}
use messi.Linux.Server.Send.{
  Action, send, reply, broadcast, disconnect, ServerSetup, broadcast_loop, broadcast_bytes,
  disconnect_one, server_disconnect, send_bytes, server_send, reply_to, server_reply,
  server_broadcast, encode_user_message, act, act_each,
}

-- What each step on one client keeps, and on any client.
pub record KeptAt {C2s : Type 0} (i : ℕ) (P : Server C2s → Type 0) : Type 0 where
  pub by_write : (bytes : List ℕ) (s : Server C2s) → P s → P (wrote_to i bytes s)
  pub by_append : (bytes : List ℕ) (s : Server C2s) → P s → P (client_output_append i bytes s)
  pub by_disconnect : (s : Server C2s) → P s → P (client_pending_disconnect i s)

pub record Kept {C2s : Type 0} (P : Server C2s → Type 0) : Type 0 where
  pub by_write : (i : ℕ) (bytes : List ℕ) (s : Server C2s) → P s → P (wrote_to i bytes s)
  pub by_append :
      (i : ℕ) (bytes : List ℕ) (s : Server C2s) → P s → P (client_output_append i bytes s)
  pub by_disconnect : (i : ℕ) (s : Server C2s) → P s → P (client_pending_disconnect i s)

module _ {C2s : Type 0} (P : Server C2s → Type 0) where
  pub Kept-KeptAt : (i : ℕ) → Kept P → KeptAt i P
  Kept-KeptAt i kept = record {
    by_write = kept.by_write i;
    by_append = kept.by_append i;
    by_disconnect = kept.by_disconnect i;
  }

module _ {C2s : Type 0} (P : Server C2s → Type 0) (i : ℕ) (kept : KeptAt i P) where
  abbrev RoundKeeps : Round (List ℕ × Server C2s) → Type 0
  RoundKeeps (go_on (bytes, s)) = P s
  RoundKeeps (leave (bytes, s)) = P s

  write_round-Kept :
      (r : WriteReply) (bytes : List ℕ) (s : Server C2s)
      → P s
      → RoundKeeps (write_round r i bytes s)
  unfolding write_round
  write_round-Kept (sent n) bytes s h =
      if_cases RoundKeeps (n == length bytes) _ _ (λ e. h)
        (λ e. if_cases RoundKeeps (ltb 0 n) _ _ (λ e'. h) (λ e'. kept.by_disconnect s h))
  write_round-Kept again bytes s h = kept.by_append bytes s h
  write_round-Kept failed bytes s h = kept.by_disconnect s h

  last_round-Kept :
      (r : Round (List ℕ × Server C2s))
      → RoundKeeps r
      → P (elim r [ go_on r ↦ r.1 | leave r ↦ r.1 ])
  last_round-Kept (go_on (bytes, s)) h = h
  last_round-Kept (leave (bytes, s)) h = h

  next_rounds-Kept :
      (ws : List WriteReply) (r : Round (List ℕ × Server C2s))
      → ((bytes : List ℕ) (s : Server C2s) → P s → P (client_write_loop ws i bytes s))
      → RoundKeeps r
      → P (elim r [ go_on r ↦ client_write_loop ws i r.0 r.1 | leave r ↦ r.1 ])
  next_rounds-Kept ws (go_on (bytes, s)) ih h = ih bytes s h
  next_rounds-Kept ws (leave (bytes, s)) ih h = h

  client_write_loop-Kept :
      (ws : List WriteReply) (bytes : List ℕ) (s : Server C2s)
      → P s
      → P (client_write_loop ws i bytes s)
  unfolding client_write_loop
  client_write_loop-Kept [] [] s h = h
  client_write_loop-Kept (w ∷ ws) [] s h = h
  client_write_loop-Kept [] (b ∷ bs) s h = last_round-Kept _ (
      write_round-Kept (write_reply i (b ∷ bs) s) (b ∷ bs) (wrote_to i (b ∷ bs) s)
        (kept.by_write (b ∷ bs) s h))
  client_write_loop-Kept (w ∷ ws) (b ∷ bs) s h = next_rounds-Kept ws _ (client_write_loop-Kept ws) (
      write_round-Kept (write_reply i (b ∷ bs) s) (b ∷ bs) (wrote_to i (b ∷ bs) s)
        (kept.by_write (b ∷ bs) s h))

  write_behind-Kept :
      (q : List OutputItem) (bytes : List ℕ) (s : Server C2s) → P s → P (write_behind q i bytes s)
  unfolding write_behind
  write_behind-Kept [] bytes s h = client_write_loop-Kept s.world.writes bytes s h
  write_behind-Kept (x ∷ xs) bytes s h = kept.by_append bytes s h

  pub client_write-KeptAt : (bytes : List ℕ) (s : Server C2s) → P s → P (client_write i bytes s)
  unfolding client_write
  client_write-KeptAt bytes s h = write_behind-Kept (s.clients i).output bytes s h

  module _ {S2c : Type 0} (setup : ServerSetup C2s S2c) where
    send_bytes-KeptAt : (o : Option (List ℕ)) (s : Server C2s) → P s → P (send_bytes setup o i s)
    send_bytes-KeptAt none s h = h
    send_bytes-KeptAt (some bytes) s h = client_write-KeptAt bytes s h

    pub server_send-KeptAt : (m : S2c) (s : Server C2s) → P s → P (server_send setup i m s)
    unfolding server_send
    server_send-KeptAt m s h = send_bytes-KeptAt (encode_user_message setup m s) s h

module _ {C2s : Type 0} (P : Server C2s → Type 0) (kept : Kept P) where
  pub client_write-Kept :
      (i : ℕ) (bytes : List ℕ) (s : Server C2s) → P s → P (client_write i bytes s)
  client_write-Kept i = client_write-KeptAt P i (Kept-KeptAt P i kept)

  broadcast_loop-Kept :
      (n : ℕ) (p : Ptr) (bytes : List ℕ) (s : Server C2s) → P s → P (broadcast_loop n p bytes s)
  unfolding broadcast_loop
  broadcast_loop-Kept zero p bytes s h = h
  broadcast_loop-Kept (suc n) none bytes s h = h
  broadcast_loop-Kept (suc n) (some i) bytes s h =
      broadcast_loop-Kept n (s.links.next_p i) bytes (client_write i bytes s)
        (client_write-Kept i bytes s h)

  disconnect_one-Kept : (p : Ptr) (s : Server C2s) → P s → P (disconnect_one p s)
  disconnect_one-Kept none s h = h
  disconnect_one-Kept (some i) s h = kept.by_disconnect i s h

  server_disconnect-Kept : (p : Ptr) (s : Server C2s) → P s → P (server_disconnect p s)
  unfolding server_disconnect
  server_disconnect-Kept none s h = disconnect_one-Kept s.current_client_p s h
  server_disconnect-Kept (some i) s h = kept.by_disconnect i s h

  module _ {S2c : Type 0} (setup : ServerSetup C2s S2c) where
    server_send-Kept : (i : ℕ) (m : S2c) (s : Server C2s) → P s → P (server_send setup i m s)
    server_send-Kept i = server_send-KeptAt P i (Kept-KeptAt P i kept) setup

    reply_to-Kept : (p : Ptr) (m : S2c) (s : Server C2s) → P s → P (reply_to setup p m s)
    reply_to-Kept none m s h = h
    reply_to-Kept (some i) m s h = server_send-Kept i m s h

    broadcast_bytes-Kept :
        (o : Option (List ℕ)) (s : Server C2s) → P s → P (broadcast_bytes setup o s)
    broadcast_bytes-Kept none s h = h
    broadcast_bytes-Kept (some bytes) s h =
        broadcast_loop-Kept setup.clients_max s.links.connected_list_p bytes s h

    act-Kept : (a : Action S2c) (s : Server C2s) → P s → P (act setup a s)
    unfolding act server_reply server_broadcast
    act-Kept (send i m) s h = server_send-Kept i m s h
    act-Kept (reply m) s h = reply_to-Kept s.current_client_p m s h
    act-Kept (broadcast m) s h = broadcast_bytes-Kept (encode_user_message setup m s) s h
    act-Kept (disconnect p) s h = server_disconnect-Kept p s h

    -- What the user does in a callback.
    pub act_each-Kept :
        (actions : List (Action S2c)) (s : Server C2s) → P s → P (act_each setup actions s)
    unfolding act_each
    act_each-Kept [] s h = h
    act_each-Kept (a ∷ actions) s h = act_each-Kept actions (act setup a s) (act-Kept a s h)
