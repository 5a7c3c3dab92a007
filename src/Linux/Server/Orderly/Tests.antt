-- ===== src/Linux/Server/Orderly/Tests.antt =====
-- The events of the Linux server, messi/c_source/templates/linux/server.c, with an array of three clients.
use messi.Base.{ℕ, ◌≡◌, refl, [], ◌∷◌, true, false, none, some, ltb, if◌then◌else◌, arith, ◌==◌}
use messi.Linux.Server.Links.Tests.{two_connected-Lists}
use messi.Linux.Server.State.{Server, client_pending_disconnect}
use messi.Linux.Server.Api.{server_process, destroy_pending_disconnect_clients}
use messi.Linux.Server.Accept.{process_listener}
use messi.Linux.Server.Tests.{server, connected_client, silent}
use messi.Linux.Server.Orderly.{IsOrderly, Orderly-Kept}
use messi.Linux.Server.Orderly.Destroy.{
  destroy_pending_disconnect_clients-IsOrderly, server_process-IsOrderly,
}
use messi.Linux.Server.Orderly.GivenUp.{Answered, process_listener-Answered}
use messi.Kernel.{create_fd, check, attempt}
use messi.Linux.Server.Links.{alloc_client}

-- The clients 1 and 0 are connected.
abbrev serving : Server ℕ
serving = record (server [] []) {
  clients = λ i.
      if ltb i 2
      then connected_client [] i
      else record (connected_client [] i) { client_fd = none; keep_alive_timer_fd = none };
}

serving-IsOrderly : IsOrderly 3 serving
serving-IsOrderly = record {
  connected = 1 ∷ 0 ∷ [];
  free = 2 ∷ [];
  pending = [];
  lists = two_connected-Lists;
  total = refl;
  fresh = λ i k. refl;
  owners = λ i fresh up. ground arith;
  spared = λ i k. refl;
}

-- The client 1 is to be disconnected.
abbrev losing : Server ℕ
losing = client_pending_disconnect 1 serving

losing-IsOrderly : IsOrderly 3 losing
losing-IsOrderly = (Orderly-Kept 3).by_disconnect 1 serving serving-IsOrderly

destroy_pending_disconnect_clients-IsOrderly_example :
    IsOrderly 3 (destroy_pending_disconnect_clients silent losing)
    × ((destroy_pending_disconnect_clients silent losing).links.pending_disconnect_list_p ≡ none)
destroy_pending_disconnect_clients-IsOrderly_example =
    destroy_pending_disconnect_clients-IsOrderly silent (λ i s. refl) losing losing-IsOrderly

-- The timer of the client 0 expires.
server_process-IsOrderly_example :
    IsOrderly 3 (server_process silent (some 20) false true serving)
    × ((server_process silent (some 20) false true serving).links.pending_disconnect_list_p ≡ none)
server_process-IsOrderly_example =
    server_process-IsOrderly silent (λ i s. refl) (some 20) false true serving refl
      serving-IsOrderly

-- The keep alive timer of the new client cannot be started.
abbrev failing : Server ℕ
failing = record serving {
  world = record (serving.world) { statuses = λ n. if n == 2 then false else true };
}

process_listener-Answered_example :
    Answered silent failing (1 ∷ 0 ∷ []) (2 ∷ []) [] (process_listener silent failing)
process_listener-Answered_example =
    process_listener-Answered silent failing (1 ∷ 0 ∷ []) (2 ∷ []) [] two_connected-Lists

-- The free client 2 keeps the descriptor of the connection.
descriptor_kept : ((process_listener silent failing).clients 2).client_fd ≡ some 100
unfolding process_listener create_fd check attempt alloc_client
descriptor_kept = refl
