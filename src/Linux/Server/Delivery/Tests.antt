-- ===== src/Linux/Server/Delivery/Tests.antt =====
-- Messages from a client of the Linux server, messi/c_source/templates/linux/server.c.
use messi.Base.{ℕ, ◌≡◌, refl, List, [], ◌∷◌, arith}
use messi.Header.{header_at, header_get_size, header_create, header_bytes, header_set_size}
use messi.Input.{Input, header, reset_input, received, message_type, message_payload}
use messi.Input.Frames.{frame}
use messi.Input.Receive.{held}
use messi.Kernel.{ReadReply, got, note, attempt, write, malloc}
use messi.Linux.Client.Tests.{bytes, bytes-CodecLaws}
use messi.Linux.Server.State.{Server, set_client, server_epoll_ctl_mod}
use messi.Linux.Server.Output.{client_write}
use messi.Linux.Server.Send.{ServerSetup, reply, server_call_back}
use messi.Linux.Server.Messages.{in_loop, process_client_socket_in}
use messi.Linux.Server.Rounds.{input_of, given_by, FitsReads}
use messi.Linux.Server.Delivery.{
  process_client_socket_in-sent, after_reads, cut_makes_no_difference,
}
use messi.Linux.Server.Tests.{world, server, connected_client}

-- The user replies with the message that came.
abbrev pub echo : ServerSetup ℕ ℕ
echo = record {
  clients_max = 3;
  to_server = bytes;
  to_client = bytes;
  on_client_connected = λ i s. [];
  on_client_disconnected = λ i s. [];
  on_message = λ i m s. reply m ∷ [];
}

abbrev pub empty_input : Input
empty_input = record {
  buf = 0 ∷ 0 ∷ 0 ∷ 0 ∷ 0 ∷ 0 ∷ 0 ∷ 0 ∷ [];
  buf_size = 8;
  size = 0;
  left = 4;
  state = header;
}

-- The frames of 7 and 9, in four reads.
abbrev pub reads : List ReadReply
reads =
    got (1 ∷ 0 ∷ [])
    ∷ got (0 ∷ 1 ∷ [])
    ∷ got (7 ∷ [])
    ∷ got (1 ∷ 0 ∷ 0 ∷ 1 ∷ [])
    ∷ got (9 ∷ [])
    ∷ []

abbrev pub listening : Server ℕ
listening = record (server [] []) {
  clients = λ i. record (connected_client [] i) { input = empty_input };
  world = record (world []) { reads = reads };
}

pub reads-fit : FitsReads echo 1 reads listening
unfolding in_loop received message_type message_payload server_call_back reset_input header_at
    header_get_size header_create header_bytes header_set_size note attempt set_client client_write
    write malloc server_epoll_ctl_mod
reads-fit = omega arith

process_client_socket_in-sent_example :
    (given_by 1 (process_client_socket_in echo 1 listening) ≡ 7 ∷ 9 ∷ [])
    × (held (input_of 1 (process_client_socket_in echo 1 listening)) ≡ [])
unfolding process_client_socket_in received message_type message_payload server_call_back
    reset_input header_at header_get_size frame header_bytes header_create header_set_size note
    attempt set_client client_write write malloc server_epoll_ctl_mod
process_client_socket_in-sent_example =
    process_client_socket_in-sent echo 1 bytes-CodecLaws listening 8
      ((7, 7 ∷ []) ∷ (9, 9 ∷ []) ∷ [])
      (record { storage = refl; room = omega arith; waits = omega arith; phase = omega arith }) refl
      refl (ground arith) reads-fit refl refl

-- The same bytes, one by one up to the first message, and then the header at once.
abbrev small_reads : List ReadReply
small_reads =
    got (1 ∷ [])
    ∷ got (0 ∷ [])
    ∷ got (0 ∷ [])
    ∷ got (1 ∷ [])
    ∷ got (7 ∷ [])
    ∷ got (1 ∷ 0 ∷ 0 ∷ 1 ∷ [])
    ∷ got (9 ∷ [])
    ∷ []

small_reads-fit :
    FitsReads echo 1 small_reads
      (record listening { world = record (world []) { reads = small_reads } })
unfolding in_loop received message_type message_payload server_call_back reset_input header_at
    header_get_size header_create header_bytes header_set_size note attempt set_client client_write
    write malloc server_epoll_ctl_mod
small_reads-fit = omega arith

cut_makes_no_difference_example :
    (given_by 1 (after_reads echo 1 reads listening)
      ≡ given_by 1 (after_reads echo 1 small_reads listening))
    × (held (input_of 1 (after_reads echo 1 reads listening))
        ≡ held (input_of 1 (after_reads echo 1 small_reads listening)))
unfolding process_client_socket_in received message_type message_payload server_call_back
    reset_input header_at header_get_size frame header_bytes header_create header_set_size note
    attempt set_client client_write write malloc server_epoll_ctl_mod
cut_makes_no_difference_example =
    cut_makes_no_difference echo 1 listening reads small_reads
      (record { storage = refl; room = omega arith; waits = omega arith; phase = omega arith }) refl
      reads-fit small_reads-fit refl refl
