-- ===== src/Async/Client/Api.antt =====
-- `NAME_client_init` and `NAME_client_stop` of messi/c_source/templates/async/client.c;
-- `NAME_client_start` stands with the handlers, since the reconnect timer calls it.
use messi.Base.{ℕ, List, ◌∷◌, false, Option, none, some}
use messi.Input.{reset_input}
use messi.Uri.{parse_tcp_uri}
use messi.Linux.Client.Api.{Buffers}
use messi.Async.Client.State.{AsyncClient, keep_alive, reconnect, timer_stopped, disconnect_called}

-- With the result of `messi_parse_tcp_uri`; `none` is the result -1. The fields that `init` does not
-- write keep what the memory of the client holds, `old`.
unfoldable pub async_init_parsed :
    {S2c : Type 0} → Option (List ℕ × ℕ) → Buffers → AsyncClient S2c → Option (AsyncClient S2c)
async_init_parsed none b old = none
async_init_parsed (some (host, port)) b old = some (record old {
  address = host;
  port = port;
  is_connected = false;
  input = reset_input (record (old.input) { buf = b.encoded_in; buf_size = b.encoded_in_size });
  workspace_in_size = b.workspace_in_size;
  encoded_out_size = b.encoded_out_size;
})

unfoldable pub async_client_init :
    {S2c : Type 0} → (List ℕ → ℕ) → List ℕ → Buffers → AsyncClient S2c → Option (AsyncClient S2c)
unfolding async_init_parsed
async_client_init atoi uri b old = async_init_parsed (parse_tcp_uri atoi uri 16) b old

unfoldable pub async_client_stop : {S2c : Type 0} → AsyncClient S2c → AsyncClient S2c
async_client_stop c = record c {
  log = timer_stopped keep_alive ∷ timer_stopped reconnect ∷ disconnect_called ∷ c.log;
}
