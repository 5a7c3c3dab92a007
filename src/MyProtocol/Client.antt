-- ===== src/MyProtocol/Client.antt =====
-- The clients of examples/my_protocol/client/linux/main.c and examples/my_protocol/client/async/client.c.
use messi.Base.{ℕ, List, [], ◌∷◌, Bool, true, false, Option, none, some, if◌then◌else◌}
use messi.Uri.Strings.{codes}
use messi.Kernel.{Turn, answers, Call, callback}
use messi.Protocol.{Codec}
use messi.Linux.Client.State.{Client, Setup, Event, disconnected}
use messi.Linux.Client.Api.{Buffers, client_init, client_start, client_process}
use messi.Async.Client.State.{AsyncCall, AsyncClient, AsyncSetup}
use messi.Async.Client.Api.{async_client_init}
use messi.Async.Client.Handlers.{async_client_start}
use messi.MyProtocol.{ToServer, ToClient, foo_req, bar_ind, fie_rsp, foo_rsp, fie_req}

-- `on_foo_rsp` and `on_fie_req`.
abbrev pub answer : ToClient → List ToServer
answer foo_rsp = bar_ind ∷ bar_ind ∷ []
answer fie_req = fie_rsp ∷ []

abbrev pub address : List ℕ
address = codes "tcp://127.0.0.1:7840"

-- The buffers on the stack of `main`, with what `encoded_in` holds.
abbrev pub buffers : List ℕ → Buffers
buffers memory = record {
  encoded_in = memory;
  encoded_in_size = 128;
  workspace_in_size = 128;
  encoded_out_size = 128;
}

-- `on_disconnected` ends the program by `exit(0)`.
abbrev pub has_exited : {M : Type 0} → List (Call (Event M)) → Bool
has_exited [] = false
has_exited (callback (disconnected r) ∷ log) = true
has_exited (_ ∷ log) = has_exited log

-- The same in the async client: behind the event in which this holds there is no other one. What the
-- library would still do in that event is not cut off.
abbrev pub async_has_exited : {M : Type 0} → List (AsyncCall M) → Bool
async_has_exited [] = false
async_has_exited (AsyncCall.callback (disconnected r) ∷ log) = true
async_has_exited (_ ∷ log) = async_has_exited log

module _ (to_server : Codec ToServer) (to_client : Codec ToClient) where
  -- What `main` gives to `my_protocol_client_init`.
  abbrev pub my_client : Setup ToServer ToClient
  my_client = record {
    to_server = to_server;
    to_client = to_client;
    on_connected = λ c. foo_req ∷ [];
    on_disconnected = λ r c. [];
    on_message = λ m c. answer m;
  }

  -- The loop of `main`. After the event in which the program exits no other one is handled; what the
  -- library would still do in that event, such as to start the reconnect timer, is not cut off.
  unfoldable pub my_client_loop : List Turn → Client ToClient → Client ToClient
  my_client_loop [] c = c
  my_client_loop (t ∷ ts) c =
      let c' = client_process my_client (some t.fd) (record c { world = answers t c.world }) in
      let rest = my_client_loop ts c' in if has_exited c'.world.log then c' else rest

  -- `epoll` is whether `epoll_create1` succeeds; `none` is the return before the loop.
  unfoldable pub my_client_main :
      (List ℕ → ℕ)
      → (epoll : Bool) → List ℕ
      → Client ToClient
      → List Turn
      → Option (Client ToClient)
  unfolding my_client_loop
  my_client_main atoi epoll memory old ts =
      if epoll
      then elim (client_init atoi address (buffers memory) old) [
        | none ↦ none
        | some c ↦ some (my_client_loop ts (client_start my_client c))
      ]
      else none

  -- What `client_init` gives to `my_protocol_client_init`. `on_disconnected` sends nothing and ends the
  -- program by `exit(0)`: see `async_has_exited`.
  abbrev pub my_async_client : AsyncSetup ToServer ToClient
  my_async_client = record {
    to_server = to_server;
    to_client = to_client;
    on_connected = λ c. foo_req ∷ [];
    on_disconnected = λ r c. [];
    on_message = λ m c. answer m;
  }

-- `client_init`: the result of `my_protocol_client_init` is not looked at. Where that fails, it leaves the
-- memory of the client alone but for the address.
unfoldable pub my_async_client_init :
    (List ℕ → ℕ) → List ℕ → AsyncClient ToClient → AsyncClient ToClient
my_async_client_init atoi memory old = elim (async_client_init atoi address (buffers memory) old) [
  | none ↦ async_client_start old
  | some c ↦ async_client_start c
]
