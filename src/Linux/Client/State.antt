-- ===== src/Linux/Client/State.antt =====
-- `struct NAME_client_t` of messi/c_source/templates/linux/client.h, and the small helpers and
-- `NAME_client_send` of linux/client.c. The callbacks are the user's: each may look at the client,
-- its log included, and send messages.
use messi.Base.{
  ℕ, ◌+◌, ◌-◌, ◌%◌, ◌^◌, List, [], ◌∷◌, ◌++◌, Bool, true, false, Option, none, some, ◌==◌,
  if◌then◌else◌, length,
}
use messi.Header.{blank, header_create, header_bytes, header_size, client_to_server_user}
use messi.Input.{Input}
use messi.Kernel.{
  Fd, World, WriteReply, sent, again, failed, watched, unwatched, callback, note, attempt, close,
  write,
}
use messi.Protocol.{Codec}
use messi.Reason.{Reason, message_encode_error, connection_closed}

-- The calls of the user's callbacks.
pub data Event (S2c : Type 0) : Type 0 where
  connected : Event S2c
  disconnected : Reason → Event S2c
  received : S2c → Event S2c

pub record Client (S2c : Type 0) : Type 0 where
  pub address : List ℕ
  pub port : ℕ
  pub disconnect_reason : Reason
  pub server_fd : Fd
  pub keep_alive_timer_fd : Fd
  pub reconnect_timer_fd : Fd
  pub pong_received : Bool
  pub pending_disconnect : Bool
  pub input : Input
  -- the sizes of `input.workspace` and `output.encoded`
  pub workspace_in_size : ℕ
  pub encoded_out_size : ℕ
  pub world : World (Event S2c)

-- The protocol's code, and the messages that each callback sends.
pub record Setup (C2s S2c : Type 0) : Type 0 where
  pub to_server : Codec C2s
  pub to_client : Codec S2c
  pub on_connected : Client S2c → List C2s
  pub on_disconnected : Reason → Client S2c → List C2s
  pub on_message : S2c → Client S2c → List C2s

-- `a - b` on `size_t`
abbrev pub size_sub : ℕ → ℕ → ℕ
size_sub a b = (a + 2 ^ 64 - b) % 2 ^ 64

-- `size != n`, for the result of `write`
abbrev pub wrote_all : WriteReply → ℕ → Bool
wrote_all (sent k) n = k == n
wrote_all again n = false
wrote_all failed n = false

module _ {S2c : Type 0} where
  unfoldable pub epoll_ctl_add : Fd → World (Event S2c) → Bool × World (Event S2c)
  epoll_ctl_add fd w = attempt (watched fd) w

  unfoldable pub epoll_ctl_del : Fd → World (Event S2c) → World (Event S2c)
  epoll_ctl_del fd w = note (unwatched fd) w

  unfoldable pub close_fd : Fd → World (Event S2c) → World (Event S2c)
  unfolding epoll_ctl_del
  close_fd fd w = close fd (epoll_ctl_del fd w)

  unfoldable pub pending_disconnect : Reason → Client S2c → Client S2c
  pending_disconnect reason c = if c.pending_disconnect then c else record c {
    disconnect_reason = reason;
    server_fd = none;
    pending_disconnect = true;
    world = close_fd c.server_fd c.world;
  }

  unfoldable pub disconnect : Client S2c → Client S2c
  unfolding pending_disconnect
  disconnect c =
      let c' = pending_disconnect message_encode_error c in
      record c' {
        keep_alive_timer_fd = none;
        pending_disconnect = false;
        world = close_fd c'.keep_alive_timer_fd c'.world;
      }

  -- `write`, and what follows if it does not take all of the bytes.
  unfoldable pub write_all : List ℕ → Reason → Client S2c → Bool × Client S2c
  unfolding pending_disconnect
  write_all bytes reason c =
      let (reply, w) = write c.server_fd bytes c.world in
      if wrote_all reply (length bytes)
      then (true, record c { world = w })
      else (false, pending_disconnect reason (record c { world = w }))

  -- `NAME_client_send` from the result of `NAME_client_to_server_encode` on.
  unfoldable pub send_encoded : Option (List ℕ) → Client S2c → Client S2c
  unfolding pending_disconnect write_all
  send_encoded none c = pending_disconnect message_encode_error c
  send_encoded (some payload) c =
      (write_all
        (header_bytes (header_create blank client_to_server_user (length payload)) ++ payload)
        connection_closed c).1

module _ {C2s S2c : Type 0} (setup : Setup C2s S2c) where
  -- `NAME_client_send`, with the message that the user has prepared.
  unfoldable pub client_send : C2s → Client S2c → Client S2c
  unfolding send_encoded
  client_send m c =
      send_encoded (setup.to_server.encode m (size_sub c.encoded_out_size header_size)) c

  -- A callback sends its messages one by one.
  unfoldable pub send_each : List C2s → Client S2c → Client S2c
  unfolding client_send
  send_each [] c = c
  send_each (m ∷ ms) c = send_each ms (client_send m c)

  -- A callback is called: it is noted, and does what the user wrote in it.
  unfoldable pub call_back : Event S2c → (Client S2c → List C2s) → Client S2c → Client S2c
  unfolding send_each
  call_back e sends c =
      let c' = record c { world = note (callback e) c.world } in send_each (sends c') c'
