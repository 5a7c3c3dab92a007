-- ===== src/Linux/Client/Life.antt =====
-- The life of a client on messi/c_source/templates/linux/client.c: `NAME_client_init`,
-- `NAME_client_start`, and the loop of the programs that use it, which give each descriptor that
-- `epoll_wait` reports to `NAME_client_process`.
pub mod States
pub mod Connecting
pub mod Loop
pub mod Rejoined
pub mod Marked
mod Tests
use messi.Base.{
  ◌⊎◌, ℕ, ◌≡◌, refl, sym, ap, ◌∙◌, List, [], ◌∷◌, Bool, true, false, Option, none, some, ◌==◌,
  if_cases, if◌then◌else◌, Bool-cases, inl, inr, subst,
}
use messi.Kernel.{Turn, answers, is_open, Fd, World, create_fd, check, callback, note}
use messi.Reason.{Reason, message_encode_error}
use messi.Input.{reset_input}
use messi.Uri.{parse_tcp_uri}
use messi.Linux.Client.State.{
  Client, Setup, Event, connected, disconnected, close_fd, epoll_ctl_add, pending_disconnect,
  disconnect, call_back, send_each,
}
use messi.Linux.Client.Socket.{process_socket}
use messi.Linux.Client.Connect.{
  watch_reconnect_timer, reconnect_timer_created, start_reconnect_timer, start_keep_alive_timer,
  process_keep_alive_timer, out_1, out_2, out_3, out_4, connection_made, with_keep_alive_timer,
  keep_alive_timer_created, make_keep_alive_timer, with_socket, socket_created, connect_to_server,
  connect_or_retry, process_reconnect_timer,
}
use messi.Linux.Client.Api.{
  same_fd, Buffers, client_init, client_start, dispatch, finish_disconnect, client_process,
}
use messi.Linux.Client.Rules.{
  ClientKept, call_back-Kept, process_socket-Kept, process_keep_alive_timer-Kept,
}

module _ {C2s S2c : Type 0} (setup : Setup C2s S2c) where
  -- `while (true) { res = epoll_wait(...); ... NAME_client_process(...); }`
  unfoldable pub run : List Turn → Client S2c → Client S2c
  run [] c = c
  run (t ∷ ts) c =
      run ts (client_process setup (some t.fd) (record c { world = answers t c.world }))

  -- `main` from `NAME_client_init` on; `none` if it fails. The memory of the client is `old`.
  unfoldable pub client_main :
      (List ℕ → ℕ) → List ℕ → Buffers → Client S2c → List Turn → Option (Client S2c)
  unfolding run
  client_main atoi uri b old ts = elim (client_init atoi uri b old) [
    | none ↦ none
    | some c ↦ some (run ts (client_start setup c))
  ]

module _ {S2c : Type 0} where
  -- Between the events: a client to be disconnected has no socket; one with a socket has a keep alive
  -- timer, and no reconnect timer; and one with a reconnect timer is not to be disconnected.
  pub record IsLive (c : Client S2c) : Type 0 where
    pub down : c.pending_disconnect ≡ true → c.server_fd ≡ none
    pub timed : is_open c.server_fd ≡ true → is_open c.keep_alive_timer_fd ≡ true
    pub alone : is_open c.server_fd ≡ true → c.reconnect_timer_fd ≡ none
    pub waiting : is_open c.reconnect_timer_fd ≡ true → c.pending_disconnect ≡ false
