-- ===== src/Linux/Client/Tests.antt =====
-- The Linux client, messi/c_source/templates/linux/client.c, at a protocol whose messages are numbers
-- below 256, encoded in one byte.
use messi.Base.{
  ℕ, zero, suc, ◌+◌, ◌≤◌, ◌≡◌, refl, List, [], ◌∷◌, true, false, Option, none, some, arith, ltb,
  length,
}
use messi.Header.{header_at, header_get_size, header_create, header_bytes, header_set_size}
use messi.Input.{header, reset_input, received, message_type, message_payload}
use messi.Input.Frames.{frame}
use messi.Input.Receive.{IsReading, held}
use messi.Kernel.{World, ReadReply, got, note, close, create_fd, attempt, check}
use messi.Protocol.{Codec, CodecLaws}
use messi.Protocol.Messages.{messages_in}
use messi.Reason.{connection_closed}
use messi.Linux.Client.State.{Client, Setup, Event, call_back}
use messi.Linux.Client.Socket.{process_socket, process_socket_loop}
use messi.Linux.Client.Connect.{
  connect_to_server, process_keep_alive_timer, process_reconnect_timer,
}
use messi.Linux.Client.Api.{finish_disconnect}
use messi.Linux.Client.Callbacks.{deliveries}
use messi.Linux.Client.Delivery.{FitsReads, Read, process_socket-Read, process_socket-frames}
use messi.Linux.Client.EndToEnd.{process_socket-sent}
use messi.Linux.Client.Resources.{Releases, connect_to_server-Releases}
use messi.Linux.Client.KeepAlive.{two_expiries_disconnect}
use messi.Linux.Client.Reconnect.{reconnect_keeps_input}

abbrev decode_byte : List ℕ → Option (ℕ × ℕ)
decode_byte [] = none
decode_byte (b ∷ bs) = some (1, b)

abbrev encode_byte : ℕ → ℕ → Option (List ℕ)
encode_byte m zero = none
encode_byte m (suc room) = some (m ∷ [])

abbrev pub bytes : Codec ℕ
bytes = record { new = λ size. true; decode = decode_byte; encode = encode_byte; known = λ m. true }

encode_byte_fits : (m room : ℕ) (bs : List ℕ) → encode_byte m room ≡ some bs → length bs ≤ room
encode_byte_fits m zero bs e = absurd (ground arith)
encode_byte_fits m (suc room) bs e = ground arith

decode-encode_byte :
    (m room : ℕ) (bs : List ℕ) → encode_byte m room ≡ some bs → decode_byte bs ≡ some (length bs, m)
decode-encode_byte m zero bs e = absurd (ground arith)
decode-encode_byte m (suc room) bs e = ground arith

pub bytes-CodecLaws : CodecLaws bytes
bytes-CodecLaws = record { encode_fits = encode_byte_fits; decode-encode = decode-encode_byte }

-- The user sends nothing.
abbrev pub silent : Setup ℕ ℕ
silent = record {
  to_server = bytes;
  to_client = bytes;
  on_connected = λ c. [];
  on_disconnected = λ r c. [];
  on_message = λ m c. [];
}

abbrev pub world : List ReadReply → World (Event ℕ)
world reads = record {
  statuses = λ n. true;
  fds = λ n. some (n + 5);
  reads = reads;
  writes = [];
  log = [];
}

-- A client that is connected and waits for a header, with room for eight bytes.
abbrev pub client : List ReadReply → Client ℕ
client reads = record {
  address = [];
  port = 6000;
  disconnect_reason = connection_closed;
  server_fd = some 3;
  keep_alive_timer_fd = some 4;
  reconnect_timer_fd = none;
  pong_received = true;
  pending_disconnect = false;
  input = record {
    buf = 0 ∷ 0 ∷ 0 ∷ 0 ∷ 0 ∷ 0 ∷ 0 ∷ 0 ∷ [];
    buf_size = 8;
    size = 0;
    left = 4;
    state = header;
  };
  workspace_in_size = 64;
  encoded_out_size = 64;
  world = world reads;
}

-- The frames of 7 and 9, in four reads.
abbrev pub reads : List ReadReply
reads =
    got (2 ∷ 0 ∷ [])
    ∷ got (0 ∷ 1 ∷ [])
    ∷ got (7 ∷ [])
    ∷ got (2 ∷ 0 ∷ 0 ∷ 1 ∷ [])
    ∷ got (9 ∷ [])
    ∷ []

abbrev sent : List (ℕ × List ℕ)
sent = (7, 7 ∷ []) ∷ (9, 9 ∷ []) ∷ []

pub client-IsReading : (rs : List ReadReply) → IsReading (client rs).input
client-IsReading rs = record {
  storage = refl;
  room = omega arith;
  waits = omega arith;
  phase = omega arith;
}

pub reads-fit : FitsReads silent reads (client reads)
unfolding process_socket_loop received message_type message_payload call_back note reset_input
    header_at header_get_size
reads-fit = omega arith

process_socket-sent_example :
    deliveries (process_socket silent (client reads)).world.log ≡ 7 ∷ 9 ∷ []
unfolding process_socket received message_type message_payload call_back note reset_input header_at
    header_get_size frame header_bytes header_create header_set_size
process_socket-sent_example =
    process_socket-sent silent bytes-CodecLaws (client reads) 8 sent (client-IsReading reads) refl
      refl (ground arith) reads-fit refl refl

process_socket-frames_example :
    (deliveries (process_socket silent (client reads)).world.log ≡ 7 ∷ 9 ∷ [])
    × (held (process_socket silent (client reads)).input ≡ [])
unfolding process_socket received message_type message_payload call_back note reset_input header_at
    header_get_size messages_in
process_socket-frames_example =
    process_socket-frames silent (client reads)
      ((2 ∷ 0 ∷ 0 ∷ 1 ∷ 7 ∷ []) ∷ (2 ∷ 0 ∷ 0 ∷ 1 ∷ 9 ∷ []) ∷ []) (client-IsReading reads) refl
      reads-fit
      (
        record { long = omega arith; exact = refl },
        (record { long = omega arith; exact = refl }, tt),
      )
      refl refl

process_socket-Read_example :
    (fs : List (List ℕ)) × Read silent
      (client reads)
      (2 ∷ 0 ∷ 0 ∷ 1 ∷ 7 ∷ 2 ∷ 0 ∷ 0 ∷ 1 ∷ 9 ∷ [])
      fs
      (process_socket silent (client reads))
unfolding process_socket received message_type message_payload call_back note reset_input header_at
    header_get_size
process_socket-Read_example =
    process_socket-Read silent (client reads) (client-IsReading reads) reads-fit refl

-- The third of the calls that return 0 or -1 fails: the socket is not added to epoll.
abbrev refused : Client ℕ
refused = record (client []) { world = record (world []) { statuses = λ n. ltb n 2 } }

connect_to_server-Releases_example :
    Releases 5 0 0 [] (connect_to_server silent refused).1.world.log
unfolding connect_to_server attempt check create_fd close note
connect_to_server-Releases_example = connect_to_server-Releases silent 5 refused refl

two_expiries_disconnect_example :
    (process_keep_alive_timer (process_keep_alive_timer (client []))).pending_disconnect ≡ true
two_expiries_disconnect_example = two_expiries_disconnect (client [])

reconnect_keeps_input_example :
    let c = client [] in
    ((finish_disconnect silent c).input ≡ c.input)
    × ((process_reconnect_timer silent c).input ≡ c.input)
reconnect_keeps_input_example = reconnect_keeps_input silent (client [])
