-- ===== src/Linux/Server/Links/Tests.antt =====
-- The lists of messi/c_source/templates/linux/server.c for an array of three clients.
use messi.Base.{◌≡◌, refl, [], ◌∷◌, true, false, none, some, arith, ◌==◌, if◌then◌else◌}
use messi.Linux.Server.Links.{
  Links, alloc_client, free_pending_disconnect_client, move_client_to_pending_disconnect_list,
}
use messi.Linux.Server.Links.Chains.{without}
use messi.Linux.Server.Links.Alloc.{alloc_client-Lists}
use messi.Linux.Server.Links.Moves.{Lists, move_client_to_pending_disconnect_list-Lists}
use messi.Linux.Server.Links.Pending.{disconnect_in_callback_faults}

-- After `NAME_server_init`, in cleared memory.
abbrev pub initial : Links
initial = record {
  next_p = λ i. if i == 0 then some 1 else if i == 1 then some 2 else none;
  prev_p = λ i. none;
  connected_list_p = none;
  free_list_p = some 0;
  pending_disconnect_list_p = none;
  fault = false;
}

initial-Lists : Lists initial [] (0 ∷ 1 ∷ 2 ∷ []) []
initial-Lists = record {
  connected = refl;
  free = (refl, (refl, (refl, refl)));
  pending = refl;
  backed = tt;
  distinct_c = tt;
  distinct_f = (refl, (refl, (refl, tt)));
  distinct_p = tt;
  apart_cf = λ a h. ground arith;
  apart_cp = λ a h. ground arith;
  apart_fp = λ a h. refl;
  sound = refl;
}

-- Two clients are connected, and then the first of them, 0, has a disconnect pending.
abbrev pub two_connected : Links
two_connected = (alloc_client (alloc_client initial).1).1

pub two_connected-Lists : Lists two_connected (1 ∷ 0 ∷ []) (2 ∷ []) []
two_connected-Lists =
    (alloc_client-Lists (alloc_client initial).1 1 (0 ∷ []) (2 ∷ []) []
      (alloc_client-Lists initial 0 [] (1 ∷ 2 ∷ []) [] initial-Lists).1).1

move_client_to_pending_disconnect_list-Lists_example :
    Lists (move_client_to_pending_disconnect_list 0 two_connected) (1 ∷ []) (2 ∷ []) (0 ∷ [])
unfolding without
move_client_to_pending_disconnect_list-Lists_example =
    move_client_to_pending_disconnect_list-Lists two_connected 0 (1 ∷ 0 ∷ []) (2 ∷ []) []
      two_connected-Lists refl

-- The client 1, connected last, has a disconnect pending.
abbrev one_pending : Links
one_pending = move_client_to_pending_disconnect_list 1 two_connected

one_pending-Lists : Lists one_pending (0 ∷ []) (2 ∷ []) (1 ∷ [])
unfolding without
one_pending-Lists =
    move_client_to_pending_disconnect_list-Lists two_connected 1 (1 ∷ 0 ∷ []) (2 ∷ []) []
      two_connected-Lists refl

disconnect_in_callback_faults_example :
    (free_pending_disconnect_client 1 (move_client_to_pending_disconnect_list 0 one_pending)).fault
    ≡ true
unfolding move_client_to_pending_disconnect_list alloc_client
disconnect_in_callback_faults_example =
    disconnect_in_callback_faults one_pending 1 0 (0 ∷ []) (2 ∷ []) [] one_pending-Lists refl refl
