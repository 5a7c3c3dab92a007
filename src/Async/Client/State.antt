-- ===== src/Async/Client/State.antt =====
-- `struct NAME_client_t` of messi/c_source/templates/async/client.h, and the disconnect and
-- `NAME_client_send` of async/client.c. The framework `async` is not part of the repository: what the
-- client asks of it is a log of calls, the newest first, and what its reads return is given.
use messi.Base.{ℕ, List, [], ◌∷◌, ◌++◌, Bool, false, Option, none, some, if◌then◌else◌, length}
use messi.Header.{blank, header_create, header_bytes, header_size, client_to_server_user}
use messi.Input.{Input}
use messi.Protocol.{Codec}
use messi.Reason.{Reason, message_encode_error}
use messi.Linux.Client.State.{Event, size_sub}

pub data Timer : Type 0 where
  keep_alive reconnect : Timer

-- What the framework tells the client: a timer has expired, a connect has come to its end, the
-- connection is lost, there is input, a posted call is made.
pub data Happening : Type 0 where
  expired : Timer → Happening
  connect_ended : Bool → Happening
  connection_lost input_arrived call_made : Happening

pub data AsyncCall (S2c : Type 0) : Type 0 where
  -- `async_timer_start`, `async_timer_stop`
  timer_started timer_stopped : Timer → AsyncCall S2c
  -- `async_stcp_client_connect`, `_disconnect`, `_write`
  connect_called : List ℕ → ℕ → AsyncCall S2c
  disconnect_called : AsyncCall S2c
  written : List ℕ → AsyncCall S2c
  -- `async_stcp_client_read` was given this room: the offset into the input buffer and the count
  reading : ℕ → ℕ → AsyncCall S2c
  -- `async_call` with `on_disconnected`
  call_posted : AsyncCall S2c
  -- a callback of the user
  callback : Event S2c → AsyncCall S2c
  -- the framework calls the client
  happened : Happening → AsyncCall S2c

pub record AsyncClient (S2c : Type 0) : Type 0 where
  pub address : List ℕ
  pub port : ℕ
  pub is_connected : Bool
  pub disconnect_reason : Reason
  pub pong_received : Bool
  pub input : Input
  -- the sizes of `input.workspace` and `output.encoded`
  pub workspace_in_size : ℕ
  pub encoded_out_size : ℕ
  -- what the coming reads return; an empty list is 0 bytes, and so is all behind the end
  pub reads : List (List ℕ)
  pub log : List (AsyncCall S2c)

-- The protocol's code, and the messages that each callback sends.
pub record AsyncSetup (C2s S2c : Type 0) : Type 0 where
  pub to_server : Codec C2s
  pub to_client : Codec S2c
  pub on_connected : AsyncClient S2c → List C2s
  pub on_disconnected : Reason → AsyncClient S2c → List C2s
  pub on_message : S2c → AsyncClient S2c → List C2s

module _ {S2c : Type 0} where
  -- The client calls the framework.
  abbrev pub calls : AsyncCall S2c → AsyncClient S2c → AsyncClient S2c
  calls a c = record c { log = a ∷ c.log }

  unfoldable pub disconnect_and_start_reconnect_timer : Reason → AsyncClient S2c → AsyncClient S2c
  disconnect_and_start_reconnect_timer reason c =
      if c.is_connected
      then record c {
        is_connected = false;
        disconnect_reason = reason;
        log = call_posted ∷ disconnect_called ∷ timer_stopped keep_alive ∷ c.log;
      }
      else c

  -- `NAME_client_send` from the result of `NAME_client_to_server_encode` on.
  unfoldable pub async_send_encoded : Option (List ℕ) → AsyncClient S2c → AsyncClient S2c
  unfolding disconnect_and_start_reconnect_timer
  async_send_encoded none c = disconnect_and_start_reconnect_timer message_encode_error c
  async_send_encoded (some payload) c =
      calls
        (written
          (header_bytes (header_create blank client_to_server_user (length payload)) ++ payload))
        c

module _ {C2s S2c : Type 0} (setup : AsyncSetup C2s S2c) where
  -- `NAME_client_send`, with the message that the user has prepared.
  unfoldable pub async_client_send : C2s → AsyncClient S2c → AsyncClient S2c
  unfolding async_send_encoded
  async_client_send m c =
      async_send_encoded (setup.to_server.encode m (size_sub c.encoded_out_size header_size)) c

  -- A callback sends its messages one by one.
  unfoldable pub async_send_each : List C2s → AsyncClient S2c → AsyncClient S2c
  unfolding async_client_send
  async_send_each [] c = c
  async_send_each (m ∷ ms) c = async_send_each ms (async_client_send m c)

  -- A callback is called: it is noted, and does what the user wrote in it.
  unfoldable pub async_call_back :
      Event S2c → (AsyncClient S2c → List C2s) → AsyncClient S2c → AsyncClient S2c
  unfolding async_send_each
  async_call_back e sends c = let c' = calls (callback e) c in async_send_each (sends c') c'
