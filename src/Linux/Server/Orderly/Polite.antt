-- ===== src/Linux/Server/Orderly/Polite.antt =====
-- Users of messi/c_source/templates/linux/server.c whose callbacks touch no other client than their own,
-- but by a broadcast.
use messi.Base.{
  ℕ, ◌≡◌, refl, sym, subst, List, [], ◌∷◌, Bool, true, false, Option, none, some, arith, All,
  if_cases, if◌then◌else◌,
}
use messi.Kernel.{callback, note}
use messi.Linux.Server.Links.{Ptr}
use messi.Linux.Server.Links.Chains.{has}
use messi.Linux.Server.State.{Server, ServerEvent}
use messi.Linux.Server.Output.{client_write}
use messi.Linux.Server.Send.{
  Action, send, reply, broadcast, disconnect, ServerSetup, encode_user_message, broadcast_bytes,
  reply_to, server_reply, server_broadcast, disconnect_one, server_disconnect, act, act_each,
  server_call_back,
}
use messi.Linux.Server.Messages.{server_handle_choice}
use messi.Linux.Server.Broadcast.{write_to_each, broadcast_loop-Lists}
use messi.Linux.Server.Rules.{client_write-KeptAt, server_send-KeptAt, act_each-Kept}
use messi.Linux.Server.Rules.Current.{CurrentIs, CurrentIs-Kept}
use messi.Linux.Server.Orderly.{IsOrderlyBut, Orderly-KeptAt}
use messi.Linux.Server.Orderly.Steps.{calls-IsOrderly}

-- No other client than this one.
abbrev pub OnlyNames : ℕ → Ptr → Type 0
OnlyNames i none = Unit
OnlyNames i (some j) = j ≡ i

abbrev pub IsPolite : {S2c : Type 0} → ℕ → Action S2c → Type 0
IsPolite i (send j m) = j ≡ i
IsPolite i (reply m) = Unit
IsPolite i (broadcast m) = Unit
IsPolite i (disconnect p) = OnlyNames i p

pub record IsPoliteUser {C2s S2c : Type 0} (setup : ServerSetup C2s S2c) : Type 0 where
  pub connected : (i : ℕ) (s : Server C2s) → All (IsPolite i) (setup.on_client_connected i s)
  pub disconnected : (i : ℕ) (s : Server C2s) → setup.on_client_disconnected i s ≡ []
  pub message : (i : ℕ) (m : C2s) (s : Server C2s) → All (IsPolite i) (setup.on_message i m s)

module _ {C2s S2c : Type 0} (setup : ServerSetup C2s S2c) (stale away : ℕ → Bool) where
  abbrev Orderly : Server C2s → Type 0
  Orderly = IsOrderlyBut setup.clients_max stale away

  write_to_each-IsOrderly :
      (cs : List ℕ) (bytes : List ℕ) (s : Server C2s)
      → ((c : ℕ) → has c cs ≡ true → stale c ≡ false)
      → Orderly s
      → Orderly (write_to_each cs bytes s)
  write_to_each-IsOrderly [] bytes s fresh h = h
  write_to_each-IsOrderly (c ∷ cs) bytes s fresh h =
      write_to_each-IsOrderly cs bytes (client_write c bytes s) (λ d k. fresh d (ground arith))
        (client_write-KeptAt Orderly c
          (Orderly-KeptAt setup.clients_max stale away c (fresh c (ground arith))) bytes s h)

  broadcast_bytes-IsOrderly :
      (o : Option (List ℕ)) (s : Server C2s) → Orderly s → Orderly (broadcast_bytes setup o s)
  broadcast_bytes-IsOrderly none s h = h
  broadcast_bytes-IsOrderly (some bytes) s h =
      subst Orderly
        (sym (
          broadcast_loop-Lists h.free bytes setup.clients_max h.connected h.pending s h.lists
            (omega (arith, h.total))))
        (write_to_each-IsOrderly h.connected bytes s h.fresh h)

  module _ (i : ℕ) (fresh : stale i ≡ false) where
    disconnect_one-IsOrderly :
        (p : Ptr) (s : Server C2s) → OnlyNames i p → Orderly s → Orderly (disconnect_one p s)
    disconnect_one-IsOrderly none s own h = h
    disconnect_one-IsOrderly (some j) s own h =
        let own_fresh : stale j ≡ false = subst (λ k. stale k ≡ false) (sym own) fresh in
        (Orderly-KeptAt setup.clients_max stale away j own_fresh).by_disconnect s h

    send_to-IsOrderly :
        (j : ℕ) (m : S2c) (s : Server C2s) → j ≡ i → Orderly s → Orderly (act setup (send j m) s)
    unfolding act
    send_to-IsOrderly j m s own h =
        server_send-KeptAt Orderly j
          (Orderly-KeptAt setup.clients_max stale away j
            (subst (λ k. stale k ≡ false) (sym own) fresh))
          setup m s h

    reply_to-IsOrderly :
        (p : Ptr) (m : S2c) (s : Server C2s)
        → OnlyNames i p
        → Orderly s
        → Orderly (reply_to setup p m s)
    unfolding act
    reply_to-IsOrderly none m s own h = h
    reply_to-IsOrderly (some j) m s own h = send_to-IsOrderly j m s own h

    act-IsOrderly :
        (a : Action S2c) (s : Server C2s)
        → IsPolite i a
        → OnlyNames i s.current_client_p
        → Orderly s
        → Orderly (act setup a s)
    unfolding act server_reply server_broadcast server_disconnect
    act-IsOrderly (send j m) s own current h = send_to-IsOrderly j m s own h
    act-IsOrderly (reply m) s own current h = reply_to-IsOrderly s.current_client_p m s current h
    act-IsOrderly (broadcast m) s own current h =
        broadcast_bytes-IsOrderly (encode_user_message setup m s) s h
    act-IsOrderly (disconnect none) s own current h =
        disconnect_one-IsOrderly s.current_client_p s current h
    act-IsOrderly (disconnect (some j)) s own current h = disconnect_one-IsOrderly (some j) s own h

    act_each-IsOrderly :
        (actions : List (Action S2c)) (s : Server C2s)
        → All (IsPolite i) actions
        → OnlyNames i s.current_client_p
        → Orderly s
        → Orderly (act_each setup actions s)
    unfolding act_each
    act_each-IsOrderly [] s own current h = h
    act_each-IsOrderly (a ∷ actions) s own current h =
        let p = s.current_client_p in
        let same : CurrentIs p (act_each setup (a ∷ []) s) =
          act_each-Kept (CurrentIs p) (CurrentIs-Kept p) setup (a ∷ []) s refl in
        act_each-IsOrderly actions (act setup a s) own.1 (subst (OnlyNames i) (sym same) current)
          (act-IsOrderly a s own.0 current h)

    pub call_polite-IsOrderly :
        (e : ServerEvent C2s) (actions : Server C2s → List (Action S2c)) (s : Server C2s)
        → ((t : Server C2s) → All (IsPolite i) (actions t))
        → OnlyNames i s.current_client_p
        → Orderly s
        → Orderly (server_call_back setup e actions s)
    unfolding server_call_back
    call_polite-IsOrderly e actions s own current h =
        let noted : Server C2s = record s { world = note (callback e) s.world } in
        act_each-IsOrderly (actions noted) noted (own noted) current
          (calls-IsOrderly setup.clients_max stale away s noted refl refl h)

    pub polite_choice-IsOrderly :
        IsPoliteUser setup
        → (m : C2s) (s : Server C2s) → Orderly s
        → Orderly (server_handle_choice setup i m s)
    unfolding server_handle_choice
    polite_choice-IsOrderly polite m s h =
        let s1 : Server C2s = record s { current_client_p = some i } in
        let h1 = calls-IsOrderly setup.clients_max stale away s s1 refl refl h in
        let called = server_call_back setup (ServerEvent.received i m) (setup.on_message i m) s1 in
        calls-IsOrderly setup.clients_max stale away
          (if setup.to_server.known m then called else s1) (server_handle_choice setup i m s) refl
          refl
          (if_cases Orderly (setup.to_server.known m) called s1
            (λ k.
              call_polite-IsOrderly (ServerEvent.received i m) (setup.on_message i m) s1
                (polite.message i m) refl h1)
            (λ k. h1))
