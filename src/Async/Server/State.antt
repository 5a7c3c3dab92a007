-- ===== src/Async/Server/State.antt =====
-- `struct NAME_server_t` of messi/c_source/templates/async/server.h, and sending: `encode_user_message`,
-- `NAME_server_send`, `_reply`, `_broadcast` and `_disconnect` of async/server.c. What the server asks of
-- the framework is a log of calls, the newest first. A client is its index.
use messi.Base.{
  ℕ, zero, suc, List, [], ◌∷◌, ◌++◌, Bool, Option, none, some, ◌==◌, if◌then◌else◌, length,
}
use messi.Header.{blank, header_create, header_bytes, header_size, server_to_client_user}
use messi.Input.{Input}
use messi.Protocol.{Codec}
use messi.Linux.Client.State.{size_sub}
use messi.Linux.Server.Links.{Ptr}
use messi.Linux.Server.State.{ServerEvent}
use messi.Linux.Server.Send.{Action, send, reply, broadcast, disconnect}

pub data AsyncServerCall (C2s : Type 0) : Type 0 where
  -- `async_stcp_server_add_client`, `_start`, `_stop`
  client_added : ℕ → AsyncServerCall C2s
  server_started server_stopped : AsyncServerCall C2s
  -- `async_timer_start` of a client's keep alive timer
  timer_started : ℕ → AsyncServerCall C2s
  -- `async_stcp_server_client_write`, and `_read` with the offset and the count
  written : ℕ → List ℕ → AsyncServerCall C2s
  reading : ℕ → ℕ → ℕ → AsyncServerCall C2s
  -- a callback of the user
  callback : ServerEvent C2s → AsyncServerCall C2s

pub record AsyncServerClient : Type 0 where
  -- whether `server_p` leads to the server; else it is NULL
  pub server_p : Bool
  pub input : Input
  pub next_p : Ptr

pub record AsyncServer (C2s : Type 0) : Type 0 where
  pub address : List ℕ
  pub port : ℕ
  -- whether the pointers to the user's two functions are set; else they are NULL
  pub has_on_client_connected : Bool
  pub has_on_client_disconnected : Bool
  pub current_client_p : Ptr
  pub connected_list_p : Ptr
  pub clients : ℕ → AsyncServerClient
  pub workspace_in_size : ℕ
  pub encoded_out_size : ℕ
  -- a field was reached through NULL
  pub fault : Bool
  -- what the coming reads return; an empty list is 0 bytes, and so is all behind the end
  pub reads : List (List ℕ)
  pub log : List (AsyncServerCall C2s)

-- The protocol's code, what each callback does, and how many clients there are: the bound of the walk
-- along the list of clients.
pub record AsyncServerSetup (C2s S2c : Type 0) : Type 0 where
  pub clients_max : ℕ
  pub to_server : Codec C2s
  pub to_client : Codec S2c
  pub on_client_connected : ℕ → AsyncServer C2s → List (Action S2c)
  pub on_client_disconnected : ℕ → AsyncServer C2s → List (Action S2c)
  pub on_message : ℕ → C2s → AsyncServer C2s → List (Action S2c)

module _ {C2s : Type 0} where
  abbrev pub requests : AsyncServerCall C2s → AsyncServer C2s → AsyncServer C2s
  requests a s = record s { log = a ∷ s.log }

  unfoldable pub set_input_of : ℕ → Input → AsyncServer C2s → AsyncServer C2s
  set_input_of i v s = record s {
    clients = λ j. if j == i then record (s.clients j) { input = v } else s.clients j;
  }

  -- The loop of `NAME_server_broadcast`.
  unfoldable pub async_broadcast_loop : ℕ → Ptr → List ℕ → AsyncServer C2s → AsyncServer C2s
  async_broadcast_loop zero p bytes s = s
  async_broadcast_loop (suc n) none bytes s = s
  async_broadcast_loop (suc n) (some i) bytes s =
      async_broadcast_loop n (s.clients i).next_p bytes (requests (written i bytes) s)

  -- The call that would disconnect the client is commented out.
  unfoldable pub async_server_disconnect : Ptr → AsyncServer C2s → AsyncServer C2s
  async_server_disconnect p s = s

module _ {C2s S2c : Type 0} (setup : AsyncServerSetup C2s S2c) where
  -- With the result of `NAME_server_to_client_encode`.
  abbrev framed : Option (List ℕ) → Option (List ℕ)
  framed none = none
  framed (some payload) =
      some (header_bytes (header_create blank server_to_client_user (length payload)) ++ payload)

  -- The bytes in `output.encoded`; `none` is a negative result.
  unfoldable pub async_encode_user_message : S2c → AsyncServer C2s → Option (List ℕ)
  async_encode_user_message m s =
      framed (setup.to_client.encode m (size_sub s.encoded_out_size header_size))

  abbrev pub send_bytes : Option (List ℕ) → ℕ → AsyncServer C2s → AsyncServer C2s
  send_bytes none i s = s
  send_bytes (some bytes) i s = requests (written i bytes) s

  unfoldable pub async_server_send : ℕ → S2c → AsyncServer C2s → AsyncServer C2s
  unfolding async_encode_user_message
  async_server_send i m s = send_bytes (async_encode_user_message m s) i s

  abbrev pub reply_to : Ptr → S2c → AsyncServer C2s → AsyncServer C2s
  reply_to none m s = s
  reply_to (some i) m s = async_server_send i m s

  unfoldable pub async_server_reply : S2c → AsyncServer C2s → AsyncServer C2s
  unfolding async_server_send
  async_server_reply m s = reply_to s.current_client_p m s

  abbrev pub broadcast_bytes : Option (List ℕ) → AsyncServer C2s → AsyncServer C2s
  broadcast_bytes none s = s
  broadcast_bytes (some bytes) s = async_broadcast_loop setup.clients_max s.connected_list_p bytes s

  unfoldable pub async_server_broadcast : S2c → AsyncServer C2s → AsyncServer C2s
  unfolding async_encode_user_message async_broadcast_loop
  async_server_broadcast m s = broadcast_bytes (async_encode_user_message m s) s

  unfoldable pub async_act : Action S2c → AsyncServer C2s → AsyncServer C2s
  unfolding async_server_send async_server_reply async_server_broadcast async_server_disconnect
  async_act (send i m) s = async_server_send i m s
  async_act (reply m) s = async_server_reply m s
  async_act (broadcast m) s = async_server_broadcast m s
  async_act (disconnect p) s = async_server_disconnect p s

  unfoldable pub async_act_each : List (Action S2c) → AsyncServer C2s → AsyncServer C2s
  unfolding async_act
  async_act_each [] s = s
  async_act_each (a ∷ actions) s = async_act_each actions (async_act a s)

  -- A callback is called: it is noted, and does what the user wrote in it.
  unfoldable pub async_server_call_back :
      ServerEvent C2s → (AsyncServer C2s → List (Action S2c)) → AsyncServer C2s → AsyncServer C2s
  unfolding async_act_each
  async_server_call_back e actions s =
      let s' = requests (callback e) s in async_act_each (actions s') s'
