-- ===== src/Linux/Client/Api.antt =====
-- `NAME_client_init`, `NAME_client_start`, `NAME_client_stop` and `NAME_client_process` of
-- messi/c_source/templates/linux/client.c.
use messi.Base.{ℕ, List, Bool, true, false, Option, none, some, ◌==◌, if◌then◌else◌}
use messi.Input.{reset_input}
use messi.Kernel.{Fd}
use messi.Uri.{parse_tcp_uri}
use messi.Linux.Client.State.{Client, Setup, disconnected, close_fd, disconnect, call_back}
use messi.Linux.Client.Socket.{process_socket}
use messi.Linux.Client.Connect.{
  start_reconnect_timer, process_keep_alive_timer, connect_or_retry, process_reconnect_timer,
}

-- `fd == self_p->...`
abbrev pub same_fd : Fd → Fd → Bool
same_fd none none = true
same_fd none (some g) = false
same_fd (some f) none = false
same_fd (some f) (some g) = f == g

-- The caller's buffers. `input_left` and the other fields that `init` does not write keep what the
-- memory of the client holds: `old`.
pub record Buffers : Type 0 where
  pub encoded_in : List ℕ
  pub encoded_in_size : ℕ
  pub workspace_in_size : ℕ
  pub encoded_out_size : ℕ

-- `none` is the result -1: the URI is not accepted. The host buffer has 16 bytes.
unfoldable pub client_init :
    {S2c : Type 0} → (List ℕ → ℕ) → List ℕ → Buffers → Client S2c → Option (Client S2c)
client_init atoi uri b old = elim (parse_tcp_uri atoi uri 16) [
  | none ↦ none
  | some (host, port) ↦ some (record old {
    address = host;
    port = port;
    input = reset_input (record (old.input) { buf = b.encoded_in; buf_size = b.encoded_in_size });
    workspace_in_size = b.workspace_in_size;
    encoded_out_size = b.encoded_out_size;
    server_fd = none;
    keep_alive_timer_fd = none;
    reconnect_timer_fd = none;
    pending_disconnect = false;
  })
]

module _ {C2s S2c : Type 0} (setup : Setup C2s S2c) where
  unfoldable pub client_start : Client S2c → Client S2c
  unfolding connect_or_retry
  client_start c = connect_or_retry setup c

  -- The end of `NAME_client_stop`.
  abbrev stop_timer : Fd → Client S2c → Client S2c
  stop_timer none c = c
  stop_timer (some t) c = record c { reconnect_timer_fd = none; world = close_fd (some t) c.world }

  unfoldable pub client_stop : Client S2c → Client S2c
  unfolding disconnect
  client_stop c = let c' = disconnect c in stop_timer c'.reconnect_timer_fd c'

  -- The first part of `NAME_client_process`: to whom the descriptor belongs.
  unfoldable pub dispatch : Fd → Client S2c → Client S2c
  dispatch fd c =
      if same_fd fd c.server_fd
      then process_socket setup c
      else if same_fd fd c.keep_alive_timer_fd
      then process_keep_alive_timer c
      else if same_fd fd c.reconnect_timer_fd
      then process_reconnect_timer setup c
      else c

  -- The second part: a disconnect that is pending is carried out.
  unfoldable pub finish_disconnect : Client S2c → Client S2c
  unfolding disconnect
  finish_disconnect c =
      let c' = disconnect c in
      let told =
        call_back setup (disconnected c'.disconnect_reason)
          (setup.on_disconnected c'.disconnect_reason) c' in
      (start_reconnect_timer told).1

  unfoldable pub client_process : Fd → Client S2c → Client S2c
  unfolding dispatch finish_disconnect
  client_process fd c =
      let c' = dispatch fd c in if c'.pending_disconnect then finish_disconnect c' else c'
