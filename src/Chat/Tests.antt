-- ===== src/Chat/Tests.antt =====
-- The chat programs of examples/chat: the user "bo" types "hi", and two clients are connected.
use messi.Base.{◌≤◌, ℕ, zero, suc, ◌+◌, ◌≡◌, refl, List, [], ◌∷◌, true, none, some, arith}
use messi.Header.{header_bytes, header_create, header_set_size}
use messi.Input.{header}
use messi.Protocol.{Codec}
use messi.Linux.Server.Links.Tests.{two_connected, two_connected-Lists}
use messi.Linux.Server.State.{Server}
use messi.Linux.Server.Send.{encode_user_message}
use messi.Linux.Server.Messages.{server_handle_choice}
use messi.Linux.Server.Broadcast.{write_to_each}
use messi.Chat.{ToServer, ToClient}
use messi.Chat.Client.{ChatClient, wrapped}
use messi.Chat.Client.Buffer.{
  InBuffer, ChatHappening, typed, told, chat_run, async_chat_run, line_stays-InBuffer,
}
use messi.Linux.Client.State.{Event, connected, disconnected}
use messi.Reason.{connection_closed}
use messi.Chat.Server.{chat_server}
use messi.Chat.Server.Everyone.{when_told, message_ind-everyone}

abbrev zeros : ℕ → List ℕ
zeros zero = []
zeros (suc n) = 0 ∷ zeros n

abbrev bo : List ℕ
bo = 98 ∷ 111 ∷ []

abbrev hi : List ℕ
hi = 104 ∷ 105 ∷ []

abbrev client : ChatClient
client = record { user = bo; line_length = 0; line_buf = zeros 128; is_connected = true }

-- The generated code: a chat message is encoded by its text.
abbrev to_server : Codec ToServer
to_server = record {
  new = λ size. true;
  decode = λ bytes. none;
  encode = λ m room. none;
  known = λ m. true;
}

abbrev encode_text : ToClient → List ℕ
encode_text ToClient.connect_rsp = []
encode_text (ToClient.message_ind user text) = text

abbrev to_client : Codec ToClient
to_client = record {
  new = λ size. true;
  decode = λ bytes. none;
  encode = λ m room. some (encode_text m);
  known = λ m. true;
}

abbrev serving : Server ToServer
serving = record {
  address = [];
  port = 6000;
  listener_fd = some 9;
  current_client_p = none;
  links = two_connected;
  clients = λ i. record {
    client_fd = some (10 + i);
    keep_alive_timer_fd = some (20 + i);
    input = record { buf = zeros 8; buf_size = 8; size = 0; left = 4; state = header };
    output = [];
  };
  workspace_in_size = 64;
  encoded_out_size = 64;
  world = record {
    statuses = λ n. true;
    fds = λ n. some (n + 100);
    reads = [];
    writes = [];
    log = [];
  };
}

message_ind-everyone_example :
    server_handle_choice (chat_server to_server to_client) 1 (ToServer.message_ind bo hi) serving
    ≡ record (write_to_each
        (1 ∷ 0 ∷ [])
        (2 ∷ 0 ∷ 0 ∷ 2 ∷ 104 ∷ 105 ∷ [])
        (when_told to_server to_client 1 (ToServer.message_ind bo hi) serving)) {
          current_client_p = none;
        }
unfolding encode_user_message header_bytes header_create header_set_size
message_ind-everyone_example =
    message_ind-everyone to_server to_client 1 bo hi (2 ∷ 0 ∷ 0 ∷ 2 ∷ 104 ∷ 105 ∷ []) serving
      (1 ∷ 0 ∷ []) (2 ∷ []) [] refl refl two_connected-Lists (omega arith)

-- "bo" connects, types a character, and loses the connection.
abbrev life : List ChatHappening
life =
    told connected
    ∷ told (Event.received ToClient.connect_rsp)
    ∷ typed 104
    ∷ told (disconnected connection_closed)
    ∷ []

line_stays-InBuffer_example :
    (InBuffer (chat_run life client) × (wrapped (chat_run life client) ≤ 126))
    × (InBuffer (async_chat_run life client) × (wrapped (async_chat_run life client) ≤ 126))
line_stays-InBuffer_example =
    line_stays-InBuffer life client (record { low = omega arith; size = refl })
