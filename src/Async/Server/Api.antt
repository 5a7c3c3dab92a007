-- ===== src/Async/Server/Api.antt =====
-- `NAME_server_init`, `_start` and `_stop` of messi/c_source/templates/async/server.c.
use messi.Base.{ℕ, zero, suc, ◌*◌, List, ◌∷◌, Option, none, some, ltb, if◌then◌else◌, take, drop}
use messi.Uri.{parse_tcp_uri}
use messi.Linux.Server.Api.{ServerBuffers}
use messi.Async.Server.State.{
  AsyncServer, AsyncServerClient, AsyncServerCall, client_added, server_started, server_stopped,
  requests,
}

-- `clients_p[i].input.data` of the clients below `clients_max`.
abbrev pub async_init_client : ℕ → ServerBuffers → (ℕ → AsyncServerClient) → ℕ → AsyncServerClient
async_init_client clients_max b old j =
    if ltb j clients_max
    then record (old j) {
      input = record ((old j).input) {
        buf = take b.client_input_size (drop (j * b.client_input_size) b.clients_input_bufs);
        buf_size = b.client_input_size;
      };
    }
    else old j

-- `async_stcp_server_add_client` for the clients below the number, in their order.
abbrev clients_added : {C2s : Type 0} → ℕ → List (AsyncServerCall C2s) → List (AsyncServerCall C2s)
clients_added zero log = log
clients_added (suc n) log = client_added n ∷ clients_added n log

-- With the result of `messi_parse_tcp_uri`; `none` is the result -1. The fields that `init` does not
-- write keep what the memory of the server and its clients holds, `old`: among them are the two
-- pointers to functions, the current client, the list of connected clients, and `server_p` of each client.
unfoldable pub async_server_init_parsed :
    {C2s : Type 0}
    → Option (List ℕ × ℕ)
    → ℕ
    → ServerBuffers
    → AsyncServer C2s
    → Option (AsyncServer C2s)
async_server_init_parsed none clients_max b old = none
async_server_init_parsed (some (host, port)) clients_max b old = some (record old {
  address = host;
  port = port;
  clients = async_init_client clients_max b old.clients;
  workspace_in_size = b.workspace_in_size;
  encoded_out_size = b.message_size;
  log = clients_added clients_max old.log;
})

unfoldable pub async_server_init :
    {C2s : Type 0}
    → (List ℕ → ℕ)
    → List ℕ
    → ℕ
    → ServerBuffers
    → AsyncServer C2s
    → Option (AsyncServer C2s)
unfolding async_server_init_parsed
async_server_init atoi uri clients_max b old =
    async_server_init_parsed (parse_tcp_uri atoi uri 16) clients_max b old

module _ {C2s : Type 0} where
  unfoldable pub async_server_start : AsyncServer C2s → AsyncServer C2s
  async_server_start s = requests server_started s

  unfoldable pub async_server_stop : AsyncServer C2s → AsyncServer C2s
  async_server_stop s = requests server_stopped s
