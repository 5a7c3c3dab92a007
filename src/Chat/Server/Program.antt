-- ===== src/Chat/Server/Program.antt =====
-- `main` of examples/chat/server/linux/main.c.
use messi.Base.{ℕ, ◌≡◌, refl, List, [], ◌∷◌, Bool, true, false, none, some, Option, if◌then◌else◌}
use messi.Uri.Strings.{codes}
use messi.Kernel.{Turn}
use messi.Protocol.{Codec}
use messi.Linux.Server.State.{Server}
use messi.Linux.Server.Api.{ServerBuffers}
use messi.Linux.Server.Orderly.Polite.{IsPolite, IsPoliteUser}
use messi.Linux.Server.Life.{server_main, IsServing}
use messi.Linux.Server.Life.Start.{server_main-Serving}
use messi.Base.{All}
use messi.Chat.{ToServer, ToClient, connect_req}
use messi.Chat.Server.{chat_on_message, chat_server}

-- `parse_args`, with the arguments behind the name of the program.
abbrev pub server_uri : List (List ℕ) → List ℕ
server_uri (uri ∷ []) = uri
server_uri _ = codes "tcp://127.0.0.1:6000"

-- The buffers on the stack of `main`, with what `clients_input_buffers` holds.
abbrev pub server_buffers : List ℕ → ServerBuffers
server_buffers memory = record {
  clients_input_bufs = memory;
  client_input_size = 128;
  message_size = 128;
  workspace_in_size = 128;
}

module _ (to_server : Codec ToServer) (to_client : Codec ToClient) where
  -- `epoll` is whether `epoll_create1` succeeds. The end is that of the list of turns; `none` is the return
  -- before the loop.
  unfoldable pub chat_server_main :
      (List ℕ → ℕ)
      → List (List ℕ)
      → (epoll : Bool) → List ℕ
      → Server ToServer
      → List Turn
      → Option (Server ToServer)
  chat_server_main atoi args epoll memory old ts =
      if epoll
      then server_main (chat_server to_server to_client) atoi (server_uri args)
          (server_buffers memory) old ts
      else none

  chat_on_message-IsPolite : (i : ℕ) (m : ToServer) → All (IsPolite i) (chat_on_message m)
  chat_on_message-IsPolite i (connect_req user) = (tt, tt)
  chat_on_message-IsPolite i (ToServer.message_ind user text) = (tt, tt)

  chat_server-IsPoliteUser : IsPoliteUser (chat_server to_server to_client)
  chat_server-IsPoliteUser = record {
    connected = λ i s. tt;
    disconnected = λ i s. refl;
    message = λ i m s. chat_on_message-IsPolite i m;
  }

  -- The chat server stays in good order, whatever its clients and the system do.
  pub chat_server_main-Serving :
      (atoi : List ℕ → ℕ) (args : List (List ℕ)) (epoll : Bool) (memory : List ℕ)
      (old : Server ToServer) (ts : List Turn) (s : Server ToServer)
      → old.links.fault ≡ false
      → old.world.log ≡ []
      → chat_server_main atoi args epoll memory old ts ≡ some s
      → IsServing (chat_server to_server to_client) s × (s.links.pending_disconnect_list_p ≡ none)
  unfolding chat_server_main
  chat_server_main-Serving atoi args true memory old ts s sound silent e =
      server_main-Serving (chat_server to_server to_client) chat_server-IsPoliteUser atoi
        (server_uri args) (server_buffers memory) old ts s 9 refl sound silent e
  chat_server_main-Serving atoi args false memory old ts s sound silent e = absurd (cc)
