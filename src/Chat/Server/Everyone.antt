-- ===== src/Chat/Server/Everyone.antt =====
-- Who gets a chat message from the server of examples/chat/server/linux/main.c.
use messi.Base.{ℕ, ◌≤◌, ◌≡◌, ap, List, true, none, some, length}
use messi.Kernel.{note, callback}
use messi.Protocol.{Codec}
use messi.Linux.Server.Links.Moves.{Lists}
use messi.Linux.Server.State.{Server, ServerEvent}
use messi.Linux.Server.Send.{encode_user_message, server_call_back, act_each, act}
use messi.Linux.Server.Messages.{server_handle_choice}
use messi.Linux.Server.Broadcast.{write_to_each, server_broadcast-Lists}
use messi.Chat.{ToServer, ToClient}
use messi.Chat.Server.{chat_server}

module _ (to_server : Codec ToServer) (to_client : Codec ToClient) where
  -- What a callback for a message of the client finds.
  abbrev pub when_told : ℕ → ToServer → Server ToServer → Server ToServer
  when_told i m s = record s {
    current_client_p = some i;
    world = note (callback (ServerEvent.received i m)) s.world;
  }

  -- A chat message goes to everyone: if the message that a client sent is encoded for the clients, the lists
  -- of clients are well formed and at most ten are connected, then handling it is one `client_write` of it
  -- to each connected client, the sender included, in the order of the list.
  pub message_ind-everyone :
      (i : ℕ) (user text bytes : List ℕ) (s : Server ToServer) (cs fs ps : List ℕ)
      → to_server.known (ToServer.message_ind user text) ≡ true
      → encode_user_message (chat_server to_server to_client) (ToClient.message_ind user text) s
        ≡ some bytes
      → Lists s.links cs fs ps
      → length cs ≤ 10
      → server_handle_choice (chat_server to_server to_client) i (ToServer.message_ind user text) s
        ≡ record (write_to_each cs bytes (when_told i (ToServer.message_ind user text) s)) {
          current_client_p = none;
        }
  unfolding server_handle_choice server_call_back act_each act encode_user_message
  message_ind-everyone i user text bytes s cs fs ps known e l few =
      let setup = chat_server to_server to_client in
      let t = when_told i (ToServer.message_ind user text) s in
      rw known (
        ap (λ (u : Server ToServer). record u { current_client_p = none })
          (server_broadcast-Lists setup t (ToClient.message_ind user text) bytes cs fs ps e l few))
