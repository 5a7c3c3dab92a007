-- ===== src/Linux/Server/Send.antt =====
-- Sending, and the user's callbacks: `encode_user_message`, `NAME_server_send`, `_reply`, `_broadcast`
-- and `_disconnect` of messi/c_source/templates/linux/server.c.
use messi.Base.{ℕ, zero, suc, List, [], ◌∷◌, ◌++◌, Option, none, some, length}
use messi.Header.{blank, header_create, header_bytes, header_size, server_to_client_user}
use messi.Kernel.{callback, note}
use messi.Protocol.{Codec}
use messi.Linux.Client.State.{size_sub}
use messi.Linux.Server.Links.{Ptr}
use messi.Linux.Server.State.{Server, ServerEvent, client_pending_disconnect}
use messi.Linux.Server.Output.{client_write}

-- What a callback may do, call by call; a message is the one that the user has prepared.
pub data Action (S2c : Type 0) : Type 0 where
  send : ℕ → S2c → Action S2c
  reply broadcast : S2c → Action S2c
  disconnect : Ptr → Action S2c

-- The protocol's code, what each callback does, and how many clients there are: the bound of the
-- walks along a list of clients.
pub record ServerSetup (C2s S2c : Type 0) : Type 0 where
  pub clients_max : ℕ
  pub to_server : Codec C2s
  pub to_client : Codec S2c
  pub on_client_connected : ℕ → Server C2s → List (Action S2c)
  pub on_client_disconnected : ℕ → Server C2s → List (Action S2c)
  pub on_message : ℕ → C2s → Server C2s → List (Action S2c)

module _ {C2s : Type 0} where
  -- The loop of `NAME_server_broadcast`.
  unfoldable pub broadcast_loop : ℕ → Ptr → List ℕ → Server C2s → Server C2s
  broadcast_loop zero p bytes s = s
  broadcast_loop (suc n) none bytes s = s
  broadcast_loop (suc n) (some i) bytes s =
      broadcast_loop n (s.links.next_p i) bytes (client_write i bytes s)

  -- With the client, or else the current one.
  abbrev pub disconnect_one : Ptr → Server C2s → Server C2s
  disconnect_one none s = s
  disconnect_one (some i) s = client_pending_disconnect i s

  unfoldable pub server_disconnect : Ptr → Server C2s → Server C2s
  server_disconnect none s = disconnect_one s.current_client_p s
  server_disconnect (some i) s = client_pending_disconnect i s

module _ {C2s S2c : Type 0} (setup : ServerSetup C2s S2c) where
  -- With the result of `NAME_server_to_client_encode`.
  abbrev pub framed : Option (List ℕ) → Option (List ℕ)
  framed none = none
  framed (some payload) =
      some (header_bytes (header_create blank server_to_client_user (length payload)) ++ payload)

  -- The bytes in `output.encoded`; `none` is a negative result.
  unfoldable pub encode_user_message : S2c → Server C2s → Option (List ℕ)
  encode_user_message m s =
      framed (setup.to_client.encode m (size_sub s.encoded_out_size header_size))

  abbrev pub send_bytes : Option (List ℕ) → ℕ → Server C2s → Server C2s
  send_bytes none i s = s
  send_bytes (some bytes) i s = client_write i bytes s

  unfoldable pub server_send : ℕ → S2c → Server C2s → Server C2s
  unfolding encode_user_message
  server_send i m s = send_bytes (encode_user_message m s) i s

  abbrev pub reply_to : Ptr → S2c → Server C2s → Server C2s
  reply_to none m s = s
  reply_to (some i) m s = server_send i m s

  unfoldable pub server_reply : S2c → Server C2s → Server C2s
  unfolding server_send
  server_reply m s = reply_to s.current_client_p m s

  abbrev pub broadcast_bytes : Option (List ℕ) → Server C2s → Server C2s
  broadcast_bytes none s = s
  broadcast_bytes (some bytes) s = broadcast_loop setup.clients_max s.links.connected_list_p bytes s

  unfoldable pub server_broadcast : S2c → Server C2s → Server C2s
  unfolding encode_user_message broadcast_loop
  server_broadcast m s = broadcast_bytes (encode_user_message m s) s

  unfoldable pub act : Action S2c → Server C2s → Server C2s
  unfolding server_send server_reply server_broadcast server_disconnect
  act (send i m) s = server_send i m s
  act (reply m) s = server_reply m s
  act (broadcast m) s = server_broadcast m s
  act (disconnect p) s = server_disconnect p s

  unfoldable pub act_each : List (Action S2c) → Server C2s → Server C2s
  unfolding act
  act_each [] s = s
  act_each (a ∷ actions) s = act_each actions (act a s)

  -- A callback is called: it is noted, and does what the user wrote in it.
  unfoldable pub server_call_back :
      ServerEvent C2s → (Server C2s → List (Action S2c)) → Server C2s → Server C2s
  unfolding act_each
  server_call_back e actions s =
      let s' = record s { world = note (callback e) s.world } in act_each (actions s') s'
