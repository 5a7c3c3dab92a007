-- ===== src/Chat.antt =====
-- The chat programs of examples/chat, on the generated client and server: the messages of
-- examples/chat/chat.proto as the generated code presents them.
pub mod Client
pub mod Server
mod Tests
use messi.Base.{ℕ, List}

-- `enum chat_client_to_server_choice_t`, with the fields of the messages.
pub data ToServer : Type 0 where
  connect_req : (user : List ℕ) → ToServer
  message_ind : (user text : List ℕ) → ToServer

pub data ToClient : Type 0 where
  connect_rsp : ToClient
  message_ind : (user text : List ℕ) → ToClient
