-- ===== src/Linux/Server/Life.antt =====
-- The life of a server on messi/c_source/templates/linux/server.c: `NAME_server_init`,
-- `NAME_server_start`, and the loop of the programs that use it, which give each descriptor that
-- `epoll_wait` reports to `NAME_server_process`.
pub mod Serving
pub mod Events
pub mod Start
mod Tests
use messi.Base.{
  ℕ, zero, suc, ◌≤◌, ◌≡◌, refl, sym, ap, ◌∙◌, subst, List, [], ◌∷◌, Bool, true, false, Option, none,
  some, ◌==◌, if◌then◌else◌, arith, length, if_cases, Bool-cases, inl, inr,
}
use messi.Kernel.{Turn, answers, Fd, World, ReadReply, WriteReply, create_fd, check}
use messi.Linux.Client.Api.{same_fd}
use messi.Linux.Server.Links.{Ptr}
use messi.Linux.Server.Links.Chains.{has}
use messi.Linux.Server.Links.Moves.{Lists}
use messi.Linux.Server.State.{
  Server, ServerClient, ServerEvent, client_connected, server_epoll_ctl_add,
}
use messi.Linux.Server.Send.{ServerSetup}
use messi.Linux.Server.Accept.{process_listener}
use messi.Linux.Server.Api.{
  Owner, socket_of, keep_alive_timer_of, nobody, find_owner, process_owner, server_process,
  destroy_pending_disconnect_clients, init_parsed, server_init, start_out, start_addressed,
  start_address, start_socket, server_start, ServerBuffers,
}
use messi.Linux.Server.Lists.{owner_in, find_owner-Chain, clients_from, server_init-Lists}
use messi.Linux.Server.Rules.Events.{process_client_socket-Kept}
use messi.Linux.Server.Rules.Current.{
  CurrentIs, CurrentIs-Kept, call_back-CurrentIs, idle-EventKept,
}
use messi.Linux.Server.Rules.Known.{greeted}
use messi.Linux.Server.Orderly.{IsOrderlyBut, Orderly-KeptAt}
use messi.Linux.Server.Orderly.Steps.{calls-IsOrderly, Orderly-EventKept}
use messi.Linux.Server.Orderly.Listener.{
  Settled, same, joined, given_up, but_client, and_client, process_listener-Settled,
}
use messi.Linux.Server.Orderly.Polite.{
  OnlyNames, IsPoliteUser, call_polite-IsOrderly, polite_choice-IsOrderly,
}
use messi.Linux.Server.Orderly.Destroy.{destroy_all-IsOrderly}
use messi.Linux.Server.Orderly.Idle.{process_listener-CurrentIs, destroy-CurrentIs}

abbrev pub answered : {C2s : Type 0} → Turn → Server C2s → Server C2s
answered t s = record s { world = answers t s.world }

module _ {C2s S2c : Type 0} (setup : ServerSetup C2s S2c) where
  -- `while (true) { res = epoll_wait(...); ... NAME_server_process(...); }`
  unfoldable pub serve : List Turn → Server C2s → Server C2s
  serve [] s = s
  serve (t ∷ ts) s = serve ts (server_process setup (some t.fd) t.out t.in_ (answered t s))

  -- `main` from `NAME_server_init` on; `none` if it fails or `NAME_server_start` does. The memory of the
  -- server is `old`.
  unfoldable pub server_main :
      (List ℕ → ℕ) → List ℕ → ServerBuffers → Server C2s → List Turn → Option (Server C2s)
  unfolding serve
  server_main atoi uri b old ts = elim (server_init atoi uri setup.clients_max b old) [
    | none ↦ none
    | some s ↦ let (started, s') = server_start s in if started then some (serve ts s') else none
  ]

-- The user was not told that this client is connected, or was told that it is disconnected.
abbrev pub stranger : {C2s : Type 0} → Server C2s → ℕ → Bool
stranger s i = if greeted i s.world.log then false else true

module _ {C2s S2c : Type 0} (setup : ServerSetup C2s S2c) where
  -- Each client is in one of the three lists and these are well formed, and no field was reached through
  -- NULL; the user knows every connected client and no free one, and one that it knows and that has a
  -- descriptor is connected; and no client is the current one.
  pub record IsServing (s : Server C2s) : Type 0 where
    pub orderly : IsOrderlyBut setup.clients_max (stranger s) (stranger s) s
    pub idle : s.current_client_p ≡ none
