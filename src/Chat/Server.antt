-- ===== src/Chat/Server.antt =====
-- The chat server of examples/chat/server/linux/main.c, on the Linux server: its callbacks. What it
-- prints, and the number of clients that it prints, are left out.
pub mod Everyone
pub mod Program
use messi.Base.{ℕ, List, [], ◌∷◌}
use messi.Protocol.{Codec}
use messi.Linux.Server.State.{Server}
use messi.Linux.Server.Send.{Action, reply, broadcast, ServerSetup}
use messi.Chat.{ToServer, ToClient, connect_req, connect_rsp}

-- `on_connect_req` and `on_message_ind`.
abbrev pub chat_on_message : ToServer → List (Action ToClient)
chat_on_message (connect_req user) = reply connect_rsp ∷ []
chat_on_message (ToServer.message_ind user text) = broadcast (ToClient.message_ind user text) ∷ []

-- What `main` gives to `chat_server_init`: ten clients and the callbacks; NULL stands for a callback
-- that does nothing. The generated code of the protocol is a parameter.
abbrev pub chat_server : Codec ToServer → Codec ToClient → ServerSetup ToServer ToClient
chat_server to_server to_client = record {
  clients_max = 10;
  to_server = to_server;
  to_client = to_client;
  on_client_connected = λ i s. [];
  on_client_disconnected = λ i s. [];
  on_message = λ i m s. chat_on_message m;
}
