-- ===== src/MyProtocol/Server.antt =====
-- The server of examples/my_protocol/server/linux/main.c.
pub mod Replies
pub mod Answers
use messi.Base.{ℕ, ◌+◌, List, [], ◌∷◌, Bool, true, false, Option, none, some, ltb, if◌then◌else◌}
use messi.Uri.Strings.{codes}
use messi.Kernel.{Turn, Call}
use messi.Protocol.{Codec}
use messi.Linux.Server.State.{Server, ServerEvent}
use messi.Linux.Server.Send.{Action, reply, disconnect, ServerSetup}
use messi.Linux.Server.Api.{ServerBuffers, server_init, server_start, server_process}
use messi.Linux.Server.Spares.{given_from}
use messi.Linux.Server.Life.{answered}
use messi.MyProtocol.{ToServer, ToClient, foo_req, bar_ind, fie_rsp, foo_rsp, fie_req}

abbrev pub bar_inds : List ToServer → ℕ
bar_inds [] = 0
bar_inds (bar_ind ∷ ms) = 1 + bar_inds ms
bar_inds (foo_req ∷ ms) = bar_inds ms
bar_inds (fie_rsp ∷ ms) = bar_inds ms

-- `count` of `on_bar_ind` once it is counted up: how often that was called, for the only client that
-- there is.
abbrev pub count : Server ToServer → ℕ
count s = bar_inds (given_from 0 s.world.log)

-- `on_foo_req`, `on_bar_ind` and `on_fie_rsp`. The last one also ends the program by `exit(0)`.
abbrev pub my_on_message : ToServer → Server ToServer → List (Action ToClient)
my_on_message foo_req s = reply foo_rsp ∷ []
my_on_message bar_ind s = if ltb (count s) 2 then [] else reply fie_req ∷ []
my_on_message fie_rsp s = disconnect none ∷ []

abbrev pub has_fie_rsp : List ToServer → Bool
has_fie_rsp [] = false
has_fie_rsp (fie_rsp ∷ ms) = true
has_fie_rsp (foo_req ∷ ms) = has_fie_rsp ms
has_fie_rsp (bar_ind ∷ ms) = has_fie_rsp ms

-- The buffers on the stack of `main`, with what `clients_input_buffers` holds.
abbrev pub my_server_buffers : List ℕ → ServerBuffers
my_server_buffers memory = record {
  clients_input_bufs = memory;
  client_input_size = 128;
  message_size = 128;
  workspace_in_size = 128;
}

module _ (to_server : Codec ToServer) (to_client : Codec ToClient) where
  -- What `main` gives to `my_protocol_server_init`: one client; NULL stands for a callback that does
  -- nothing.
  abbrev pub my_server : ServerSetup ToServer ToClient
  my_server = record {
    clients_max = 1;
    to_server = to_server;
    to_client = to_client;
    on_client_connected = λ i s. [];
    on_client_disconnected = λ i s. [];
    on_message = λ i m s. my_on_message m s;
  }

  -- The loop of `main`. After the event in which the program exits no other one is handled; what the
  -- library would still do in that event is not cut off.
  unfoldable pub my_server_loop : List Turn → Server ToServer → Server ToServer
  my_server_loop [] s = s
  my_server_loop (t ∷ ts) s =
      let s' = server_process my_server (some t.fd) t.out t.in_ (answered t s) in
      let rest = my_server_loop ts s' in
      if has_fie_rsp (given_from 0 s'.world.log) then s' else rest

  -- `epoll` is whether `epoll_create1` succeeds; `none` is the return before the loop.
  unfoldable pub my_server_main :
      (List ℕ → ℕ)
      → (epoll : Bool) → List ℕ
      → Server ToServer
      → List Turn
      → Option (Server ToServer)
  unfolding my_server_loop
  my_server_main atoi epoll memory old ts =
      if epoll
      then elim (server_init atoi (codes "tcp://127.0.0.1:7840") 1 (my_server_buffers memory) old) [
        | none ↦ none
        | some s ↦
            let (started, s') = server_start s in
            if started then some (my_server_loop ts s') else none
      ]
      else none
