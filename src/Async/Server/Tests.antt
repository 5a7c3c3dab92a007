-- ===== src/Async/Server/Tests.antt =====
-- The server of messi/c_source/templates/async/server.c, with an array of two clients.
use messi.Base.{ℕ, ◌≡◌, refl, List, [], ◌∷◌, Bool, true, false, none, arith}
use messi.Header.{header_at, header_get_size, header_create, header_bytes, header_set_size}
use messi.Input.{Input, header, reset_input, received, message_type, message_payload}
use messi.Input.Frames.{frame}
use messi.Input.Receive.{IsReading, held}
use messi.Uri.{parse_tcp_uri}
use messi.Uri.Tests.{codes, digits_from}
use messi.Linux.Client.Tests.{bytes, bytes-CodecLaws}
use messi.Linux.Server.Api.{ServerBuffers}
use messi.Async.Server.State.{
  client_added, AsyncServer, AsyncServerSetup, reading, async_server_broadcast,
  async_server_call_back,
}
use messi.Async.Server.Handlers.{
  on_stcp_client_connected, on_stcp_client_input, on_stcp_client_input_loop,
}
use messi.Async.Server.Api.{async_init_client, async_server_init, async_server_start}
use messi.Async.Server.Rounds.{ServerFitsReads, said_by, input_of}
use messi.Async.Server.Delivery.{on_stcp_client_input-sent}
use messi.Async.Server.Deaf.{unhandled_message_deafens}
use messi.Async.Server.Unset.{ServerReach, here, next, connects, broadcast_reaches_nobody}

-- The user sends nothing.
abbrev silent : AsyncServerSetup ℕ ℕ
silent = record {
  clients_max = 2;
  to_server = bytes;
  to_client = bytes;
  on_client_connected = λ i s. [];
  on_client_disconnected = λ i s. [];
  on_message = λ i m s. [];
}

abbrev empty_input : Input
empty_input = record {
  buf = 0 ∷ 0 ∷ 0 ∷ 0 ∷ 0 ∷ 0 ∷ 0 ∷ 0 ∷ [];
  buf_size = 8;
  size = 0;
  left = 4;
  state = header;
}

-- A server in whose memory is `server_p` of the clients and whether the callbacks are set.
abbrev server : Bool → List (List ℕ) → AsyncServer ℕ
server set reads = record {
  address = [];
  port = 6000;
  has_on_client_connected = set;
  has_on_client_disconnected = set;
  current_client_p = none;
  connected_list_p = none;
  clients = λ i. record { server_p = set; input = empty_input; next_p = none };
  workspace_in_size = 64;
  encoded_out_size = 64;
  fault = false;
  reads = reads;
  log = [];
}

-- The frames of 7 and 9, in four reads.
abbrev reads : List (List ℕ)
reads = (1 ∷ 0 ∷ []) ∷ (0 ∷ 1 ∷ []) ∷ (7 ∷ []) ∷ (1 ∷ 0 ∷ 0 ∷ 1 ∷ []) ∷ (9 ∷ []) ∷ []

empty_input-IsReading : IsReading empty_input
empty_input-IsReading = record {
  storage = refl;
  room = omega arith;
  waits = omega arith;
  phase = omega arith;
}

reads-fit : ServerFitsReads silent 1 reads (server true reads)
unfolding on_stcp_client_input_loop received message_type message_payload async_server_call_back
    reset_input header_at header_get_size
reads-fit = omega arith

on_stcp_client_input-sent_example :
    (said_by 1 (on_stcp_client_input silent 1 (server true reads)) ≡ 7 ∷ 9 ∷ [])
    × (held (input_of 1 (on_stcp_client_input silent 1 (server true reads))) ≡ [])
unfolding on_stcp_client_input received message_type message_payload async_server_call_back
    reset_input header_at header_get_size frame header_bytes header_create header_set_size
on_stcp_client_input-sent_example =
    on_stcp_client_input-sent silent 1 bytes-CodecLaws (server true reads) 8
      ((7, 7 ∷ []) ∷ (9, 9 ∷ []) ∷ []) refl empty_input-IsReading refl refl (ground arith) reads-fit
      refl (record { storage = refl; room = omega arith; waits = omega arith; phase = omega arith })

-- A message without a payload, of the type 9 that nobody knows.
abbrev unknown : List (List ℕ)
unknown = (9 ∷ 0 ∷ 0 ∷ 0 ∷ []) ∷ []

unhandled_message_deafens_example :
    let s1 = on_stcp_client_input silent 1 (server true unknown) in
    let s2 = on_stcp_client_input silent 1 (record s1 { reads = [] ∷ [] }) in
    (s2.clients ≡ s1.clients) × (s2.log ≡ reading 1 (input_of 1 s1).size 0 ∷ s1.log)
unfolding on_stcp_client_input received message_type message_payload async_server_call_back
    reset_input header_at header_get_size
unhandled_message_deafens_example =
    unhandled_message_deafens silent 1 9 (0 ∷ 0 ∷ 0 ∷ []) [] ([] ∷ []) (server true unknown) refl
      refl empty_input-IsReading (omega arith) refl refl tt

abbrev buffers : ServerBuffers
buffers = record {
  clients_input_bufs = [];
  client_input_size = 8;
  message_size = 64;
  workspace_in_size = 64;
}

-- What `NAME_server_init` makes of cleared memory with "tcp://:6000".
abbrev initialized : AsyncServer ℕ
initialized = record (server false []) {
  clients = async_init_client 2 buffers (server false []).clients;
  workspace_in_size = 64;
  encoded_out_size = 64;
  log = client_added 1 ∷ client_added 0 ∷ [];
}

-- The clients 0 and 1 connect.
abbrev two_connected : AsyncServer ℕ
two_connected =
    on_stcp_client_connected silent 1
      (on_stcp_client_connected silent 0 (async_server_start initialized))

two_connected-ServerReach : ServerReach silent (async_server_start initialized) two_connected
two_connected-ServerReach = next (next here (connects 0)) (connects 1)

broadcast_reaches_nobody_example : async_server_broadcast silent 7 two_connected ≡ two_connected
unfolding async_server_init parse_tcp_uri digits_from
broadcast_reaches_nobody_example =
    broadcast_reaches_nobody silent (digits_from 0) (codes "tcp://:6000") buffers (server false [])
      initialized two_connected 7 refl refl two_connected-ServerReach
