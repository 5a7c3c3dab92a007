-- ===== src/Linux/Client/Reconnect.antt =====
-- What messi/c_source/templates/linux/client.c carries over from one connection to the next.
use messi.Base.{◌≡◌, refl, true, none, some, arith}
use messi.Kernel
use messi.Kernel.{World, Fd, attempt, note, check, create_fd, close}
use messi.Linux.Client.State.{
  epoll_ctl_add, close_fd, Client, Setup, Event, connected, disconnected, disconnect,
  pending_disconnect, call_back, send_each,
}
use messi.Linux.Client.Callbacks.{send_each-Quiet}
use messi.Linux.Client.Connect.{
  start_keep_alive_timer, reconnect_timer_created, watch_reconnect_timer, connect_to_server,
  connect_or_retry, process_reconnect_timer, start_reconnect_timer, with_socket, socket_created,
  make_keep_alive_timer, keep_alive_timer_created, with_keep_alive_timer, connection_made,
}
use messi.Linux.Client.Api.{finish_disconnect}

module _ {C2s S2c : Type 0} (setup : Setup C2s S2c) where
  connection_made-input : (s : Fd) (c : Client S2c) → (connection_made setup s c).1.input ≡ c.input
  unfolding connection_made call_back
  connection_made-input s c =
      let d : Client S2c = record c {
        server_fd = s;
        pong_received = true;
        world = note (Kernel.callback connected) c.world;
      } in
      (send_each-Quiet setup (setup.on_connected d) d).input

  with_keep_alive_timer-input :
      (s : Fd) (c : Client S2c) → (with_keep_alive_timer setup s c).1.input ≡ c.input
  unfolding with_keep_alive_timer
  with_keep_alive_timer-input s c =
      let c' : Client S2c = record c { world = (epoll_ctl_add c.keep_alive_timer_fd c.world).1 } in
      ground (arith, connection_made-input s (start_keep_alive_timer c').1)

  keep_alive_timer_created-input :
      (s t : Fd) (w : World (Event S2c)) (c : Client S2c)
      → (keep_alive_timer_created setup s t w c).1.input ≡ c.input
  unfolding keep_alive_timer_created
  keep_alive_timer_created-input s none w c = refl
  keep_alive_timer_created-input s (some t) w c =
      with_keep_alive_timer-input s (record c { keep_alive_timer_fd = some t; world = w })

  socket_created-input : (s : Fd) (c : Client S2c) → (socket_created setup s c).1.input ≡ c.input
  unfolding socket_created with_socket make_keep_alive_timer
  socket_created-input none c = refl
  socket_created-input (some s) c =
      let w = (epoll_ctl_add (some s) (check (check c.world).1).1).1 in
      ground (
        arith,
        keep_alive_timer_created-input (some s) (create_fd w).0 (create_fd w).1
            (record c { world = w }),
      )

  start_reconnect_timer-input : (c : Client S2c) → (start_reconnect_timer c).1.input ≡ c.input
  unfolding start_reconnect_timer reconnect_timer_created watch_reconnect_timer
  start_reconnect_timer-input c =
      reconnect_timer_created-input (create_fd c.world).0 (create_fd c.world).1 c
    where
      reconnect_timer_created-input :
          (t : Fd) (w : World (Event S2c)) (c' : Client S2c)
          → (reconnect_timer_created t w c').1.input ≡ c'.input
      reconnect_timer_created-input none w c' = refl
      reconnect_timer_created-input (some t) w c' = ground arith

  -- Neither a disconnect nor a new connection resets the input: the bytes of a frame that was cut off
  -- stand in front of the new stream, whatever the outcome of the calls.
  pub reconnect_keeps_input :
      (c : Client S2c)
      → ((finish_disconnect setup c).input ≡ c.input)
        × ((process_reconnect_timer setup c).input ≡ c.input)
  unfolding finish_disconnect process_reconnect_timer connect_or_retry connect_to_server disconnect
      pending_disconnect call_back
  reconnect_keeps_input c =
      let d = disconnect c in
      let told : Client S2c = record d {
        world = note (Kernel.callback (disconnected d.disconnect_reason)) d.world;
      } in
      let sends = setup.on_disconnected d.disconnect_reason told in
      let r : Client S2c = record c {
        reconnect_timer_fd = none;
        world = close_fd c.reconnect_timer_fd c.world;
      } in
      let fd = (create_fd r.world).0 in
      let up = socket_created setup fd (record r { world = (create_fd r.world).1 }) in
      (
        ground (
          arith,
          start_reconnect_timer-input (send_each setup sends told),
          (send_each-Quiet setup sends told).input,
        ),
        ground (
          arith,
          start_reconnect_timer-input up.1,
          socket_created-input fd (record r { world = (create_fd r.world).1 }),
        ),
      )
