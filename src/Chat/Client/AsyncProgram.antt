-- ===== src/Chat/Client/AsyncProgram.antt =====
-- The chat client of examples/chat/client/async/client.c on the async client: its callbacks and
-- `client_init`.
use messi.Base.{ℕ, List, [], false, none, some}
use messi.Protocol.{Codec}
use messi.Linux.Client.State.{connected}
use messi.Async.Client.State.{AsyncClient, AsyncSetup, async_send_each}
use messi.Async.Client.Api.{async_client_init}
use messi.Async.Client.Handlers.{async_client_start}
use messi.Chat.{ToServer, ToClient}
use messi.Chat.Client.{ChatClient, chat_sends, client_user_input}
use messi.Chat.Client.Program.{fresh_line, client_buffers}

-- `struct client_t`
pub record AsyncProgram : Type 0 where
  pub line : ChatClient
  pub library : AsyncClient ToClient

module _ (to_server : Codec ToServer) (to_client : Codec ToClient) where
  -- What `client_init` gives to `chat_client_init`, for this user.
  abbrev pub async_chat_client : List ℕ → AsyncSetup ToServer ToClient
  async_chat_client user = record {
    to_server = to_server;
    to_client = to_client;
    on_connected = λ c. chat_sends connected (fresh_line user);
    on_disconnected = λ r c. [];
    on_message = λ m c. [];
  }

  -- `client_user_input`, with the message that it sends.
  unfoldable pub async_input : ℕ → AsyncProgram → AsyncProgram
  async_input c p =
      let (line, sent) = client_user_input c p.line in
      record {
        line = line;
        library = async_send_each (async_chat_client p.line.user) sent p.library;
      }

-- `client_init`: the result of `chat_client_init` is not looked at. Where that fails, it leaves the memory
-- of the client alone but for the address. The characters of the line are not written.
unfoldable pub chat_client_init :
    (List ℕ → ℕ) → (user uri : List ℕ) → List ℕ → AsyncProgram → AsyncProgram
chat_client_init atoi user uri memory old =
    let line = record (old.line) { user = user; line_length = 0; is_connected = false } in
    elim (async_client_init atoi uri (client_buffers memory) old.library) [
      | none ↦ record { line = line; library = async_client_start old.library }
      | some c ↦ record { line = line; library = async_client_start c }
    ]
