-- ===== src/Async/Server/Acting.antt =====
-- What the user's callbacks of messi/c_source/templates/async/server.c can change, which is the log of
-- calls, and what a callback was given.
use messi.Base.{
  ℕ, zero, suc, ◌≡◌, refl, ap, ◌∙◌, List, [], ◌∷◌, ◌++◌, Option, none, some, ◌==◌, if◌then◌else◌,
}
use messi.Linux.Server.Links.{Ptr}
use messi.Linux.Server.State.{ServerEvent, client_connected, client_disconnected}
use messi.Linux.Server.Send.{Action, send, reply, broadcast, disconnect}
use messi.Async.Server.State.{
  AsyncServer, AsyncServerSetup, AsyncServerCall, callback, requests, async_broadcast_loop, written,
  async_encode_user_message, async_server_send, send_bytes, broadcast_bytes, reply_to, async_act,
  async_act_each,
}

module _ {C2s : Type 0} where
  abbrev received_from : ℕ → ServerEvent C2s → List C2s
  received_from i (client_connected j) = []
  received_from i (client_disconnected j) = []
  received_from i (ServerEvent.received j m) = if i == j then m ∷ [] else []

  -- The messages that the user was given from the client, oldest first.
  abbrev pub deliveries_from : ℕ → List (AsyncServerCall C2s) → List C2s
  deliveries_from i [] = []
  deliveries_from i (callback e ∷ log) = deliveries_from i log ++ received_from i e
  deliveries_from i (_ ∷ log) = deliveries_from i log

  -- Everything is as it was, but that calls of the framework were made.
  pub record OnlyCalls (s s' : AsyncServer C2s) : Type 0 where
    pub same : s' ≡ record s { log = s'.log }
    pub said : (i : ℕ) → deliveries_from i s'.log ≡ deliveries_from i s.log

  pub OnlyCalls-refl : (s : AsyncServer C2s) → OnlyCalls s s
  OnlyCalls-refl s = record { same = refl; said = λ i. refl }

  pub OnlyCalls-trans : (a b c : AsyncServer C2s) → OnlyCalls a b → OnlyCalls b c → OnlyCalls a c
  OnlyCalls-trans a b c h k = record {
    same = k.same ∙ ap (λ (s : AsyncServer C2s). record s { log = c.log }) h.same;
    said = λ i. k.said i ∙ h.said i;
  }

  written-OnlyCalls :
      (i : ℕ) (bytes : List ℕ) (s : AsyncServer C2s) → OnlyCalls s (requests (written i bytes) s)
  written-OnlyCalls i bytes s = record { same = refl; said = λ j. refl }

  broadcast_loop-OnlyCalls :
      (n : ℕ) (p : Ptr) (bytes : List ℕ) (s : AsyncServer C2s)
      → OnlyCalls s (async_broadcast_loop n p bytes s)
  unfolding async_broadcast_loop
  broadcast_loop-OnlyCalls zero p bytes s = OnlyCalls-refl s
  broadcast_loop-OnlyCalls (suc n) none bytes s = OnlyCalls-refl s
  broadcast_loop-OnlyCalls (suc n) (some i) bytes s =
      let s' = requests (written i bytes) s in
      OnlyCalls-trans s s' (async_broadcast_loop n (s.clients i).next_p bytes s')
        (written-OnlyCalls i bytes s) (broadcast_loop-OnlyCalls n (s.clients i).next_p bytes s')

module _ {C2s S2c : Type 0} (setup : AsyncServerSetup C2s S2c) where
  send_bytes-OnlyCalls :
      (o : Option (List ℕ)) (i : ℕ) (s : AsyncServer C2s) → OnlyCalls s (send_bytes setup o i s)
  send_bytes-OnlyCalls none i s = OnlyCalls-refl s
  send_bytes-OnlyCalls (some bytes) i s = written-OnlyCalls i bytes s

  reply_to-OnlyCalls :
      (p : Ptr) (m : S2c) (s : AsyncServer C2s) → OnlyCalls s (reply_to setup p m s)
  unfolding async_server_send
  reply_to-OnlyCalls none m s = OnlyCalls-refl s
  reply_to-OnlyCalls (some i) m s = send_bytes-OnlyCalls (async_encode_user_message setup m s) i s

  broadcast_bytes-OnlyCalls :
      (o : Option (List ℕ)) (s : AsyncServer C2s) → OnlyCalls s (broadcast_bytes setup o s)
  broadcast_bytes-OnlyCalls none s = OnlyCalls-refl s
  broadcast_bytes-OnlyCalls (some bytes) s =
      broadcast_loop-OnlyCalls setup.clients_max s.connected_list_p bytes s

  pub act-OnlyCalls : (a : Action S2c) (s : AsyncServer C2s) → OnlyCalls s (async_act setup a s)
  unfolding async_act
  act-OnlyCalls (send i m) s = send_bytes-OnlyCalls (async_encode_user_message setup m s) i s
  act-OnlyCalls (reply m) s = reply_to-OnlyCalls s.current_client_p m s
  act-OnlyCalls (broadcast m) s = broadcast_bytes-OnlyCalls (async_encode_user_message setup m s) s
  act-OnlyCalls (disconnect p) s = OnlyCalls-refl s

  pub act_each-OnlyCalls :
      (actions : List (Action S2c)) (s : AsyncServer C2s)
      → OnlyCalls s (async_act_each setup actions s)
  unfolding async_act_each
  act_each-OnlyCalls [] s = OnlyCalls-refl s
  act_each-OnlyCalls (a ∷ actions) s =
      OnlyCalls-trans s (async_act setup a s) (async_act_each setup actions (async_act setup a s))
        (act-OnlyCalls a s) (act_each-OnlyCalls actions (async_act setup a s))
