-- ===== src/Async/Client/Tests.antt =====
-- The client of messi/c_source/templates/async/client.c, at the protocol whose messages are numbers.
use messi.Base.{ℕ, ◌≡◌, refl, List, [], ◌∷◌, true, false, arith}
use messi.Header.{header_at, header_get_size, header_create, header_bytes, header_set_size}
use messi.Input.{header, reset_input, received, message_type, message_payload}
use messi.Input.Frames.{frame}
use messi.Input.Receive.{IsReading, held}
use messi.Reason.{connection_closed}
use messi.Linux.Client.Tests.{bytes, bytes-CodecLaws}
use messi.Async.Client.State.{
  AsyncClient, AsyncSetup, async_call_back, call_made, disconnect_and_start_reconnect_timer,
  connect_ended, connection_lost, expired, reconnect,
}
use messi.Async.Client.Handlers.{
  on_stcp_connected, on_stcp_disconnected, async_client_start, async_on_disconnected, on_stcp_input,
  on_stcp_input_loop,
}
use messi.Async.Client.Api.{async_client_stop}
use messi.Async.Client.Lifecycle.{
  happens, connecting, reconnect_runs, IsUnderWay, Reach, started, later, connect_ends,
  connection_is_lost,
}
use messi.Async.Client.UnderWay.{Reach-IsUnderWay}
use messi.Async.Client.Handling.{async_said}
use messi.Async.Client.Delivery.{AsyncFitsReads, on_stcp_input-sent}
use messi.Async.Client.Reconnect.{stopped_client_reconnects}

-- The user sends nothing.
abbrev silent : AsyncSetup ℕ ℕ
silent = record {
  to_server = bytes;
  to_client = bytes;
  on_connected = λ c. [];
  on_disconnected = λ r c. [];
  on_message = λ m c. [];
}

-- The frames of 7 and 9, in four reads.
abbrev reads : List (List ℕ)
reads = (2 ∷ 0 ∷ []) ∷ (0 ∷ 1 ∷ []) ∷ (7 ∷ []) ∷ (2 ∷ 0 ∷ 0 ∷ 1 ∷ []) ∷ (9 ∷ []) ∷ []

-- A client that waits for a header, with room for eight bytes.
abbrev idle : AsyncClient ℕ
idle = record {
  address = [];
  port = 6000;
  is_connected = false;
  disconnect_reason = connection_closed;
  pong_received = true;
  input = record {
    buf = 0 ∷ 0 ∷ 0 ∷ 0 ∷ 0 ∷ 0 ∷ 0 ∷ 0 ∷ [];
    buf_size = 8;
    size = 0;
    left = 4;
    state = header;
  };
  workspace_in_size = 64;
  encoded_out_size = 64;
  reads = reads;
  log = [];
}

abbrev client : AsyncClient ℕ
client = record idle { is_connected = true }

client-IsReading : IsReading client.input
client-IsReading = record {
  storage = refl;
  room = omega arith;
  waits = omega arith;
  phase = omega arith;
}

reads-fit : AsyncFitsReads silent reads client
unfolding on_stcp_input_loop received message_type message_payload async_call_back reset_input
    header_at header_get_size
reads-fit = omega arith

on_stcp_input-sent_example :
    (async_said (on_stcp_input silent client) ≡ 7 ∷ 9 ∷ [])
    × (held (on_stcp_input silent client).input ≡ [])
unfolding on_stcp_input received message_type message_payload async_call_back reset_input header_at
    header_get_size frame header_bytes header_create header_set_size
on_stcp_input-sent_example =
    on_stcp_input-sent silent bytes-CodecLaws client 8 ((7, 7 ∷ []) ∷ (9, 9 ∷ []) ∷ [])
      client-IsReading refl refl (ground arith) reads-fit refl refl

-- A client that was started, connected, and lost its connection.
abbrev connected_client : AsyncClient ℕ
connected_client =
    on_stcp_connected silent true (happens (connect_ended true) (async_client_start idle))

abbrev lost_client : AsyncClient ℕ
lost_client = on_stcp_disconnected (happens connection_lost connected_client)

connected_client-Reach : Reach silent connected_client
unfolding async_client_start
connected_client-Reach = later (started idle refl refl) (connect_ends true (omega arith))

lost_client-Reach : Reach silent lost_client
lost_client-Reach = later connected_client-Reach connection_is_lost

Reach-IsUnderWay_example : IsUnderWay lost_client
Reach-IsUnderWay_example = Reach-IsUnderWay silent lost_client-Reach

stopped_client_reconnects_example :
    let told = async_on_disconnected silent (happens call_made (async_client_stop lost_client)) in
    let again = async_client_start (happens (expired reconnect) told) in
    (reconnect_runs told.log ≡ 1) × IsUnderWay again × (connecting again.log ≡ 1)
unfolding async_client_start on_stcp_connected on_stcp_disconnected
    disconnect_and_start_reconnect_timer async_call_back
stopped_client_reconnects_example = stopped_client_reconnects silent lost_client-Reach refl
