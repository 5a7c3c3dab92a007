-- ===== src/Linux/Server/Life/Events.antt =====
-- The invariant of a server in its loop, on messi/c_source/templates/linux/server.c.
use messi.Base.{
  ℕ, ◌≡◌, refl, sym, ap, ◌∙◌, ◌==◌, ==→eq, Bool-cases, inl, inr, subst, List, [], ◌∷◌, Bool, true,
  none, some, if◌then◌else◌, arith, if_cases,
}
use messi.Kernel.{Turn, Fd}
use messi.Linux.Client.Api.{same_fd}
use messi.Linux.Server.Links.Chains.{has}
use messi.Linux.Server.State.{Server, ServerClient, client_connected}
use messi.Linux.Server.Send.{ServerSetup}
use messi.Linux.Server.Accept.{process_listener}
use messi.Linux.Server.Api.{
  Owner, socket_of, keep_alive_timer_of, nobody, find_owner, process_owner, server_process,
  destroy_pending_disconnect_clients,
}
use messi.Linux.Server.Lists.{owner_in, find_owner-Chain}
use messi.Linux.Server.Rules.Events.{process_client_socket-Kept}
use messi.Linux.Server.Rules.Current.{CurrentIs, CurrentIs-Kept, idle-EventKept}
use messi.Linux.Server.Orderly.{IsOrderlyBut, Orderly-KeptAt}
use messi.Linux.Server.Orderly.Steps.{calls-IsOrderly, Orderly-EventKept}
use messi.Linux.Server.Orderly.Listener.{
  same, joined, given_up, but_client, process_listener-Settled,
}
use messi.Linux.Server.Orderly.Polite.{
  OnlyNames, IsPoliteUser, call_polite-IsOrderly, polite_choice-IsOrderly,
}
use messi.Linux.Server.Orderly.Destroy.{Dropped, destroy_all-IsOrderly}
use messi.Linux.Server.Orderly.Idle.{process_listener-CurrentIs, destroy-CurrentIs}
use messi.Linux.Server.Rules.Known.{Knows, Knows-Kept, Knows-EventKept}
use messi.Linux.Server.Life.{answered, serve, IsServing, stranger}
use messi.Linux.Server.Life.Serving.{
  relabelled, given_up_pending, known_in, knows_same, kept-Serving,
}

-- To a client of these.
abbrev OwnedIn : List ℕ → Owner → Type 0
OwnedIn cs (socket_of i) = has i cs ≡ true
OwnedIn cs (keep_alive_timer_of i) = has i cs ≡ true
OwnedIn cs nobody = Unit

OwnedIn-cons : (i : ℕ) (cs : List ℕ) (o : Owner) → OwnedIn cs o → OwnedIn (i ∷ cs) o
OwnedIn-cons i cs (socket_of j) h = ground arith
OwnedIn-cons i cs (keep_alive_timer_of j) h = ground arith
OwnedIn-cons i cs nobody h = tt

owner_in-OwnedIn :
    (fd : Fd) (clients : ℕ → ServerClient) (cs : List ℕ) → OwnedIn cs (owner_in fd clients cs)
owner_in-OwnedIn fd clients [] = tt
owner_in-OwnedIn fd clients (i ∷ is) =
    if_cases (OwnedIn (i ∷ is)) (same_fd fd (clients i).client_fd) _ _ (λ k. ground arith)
      (λ k.
        if_cases (OwnedIn (i ∷ is)) (same_fd fd (clients i).keep_alive_timer_fd) _ _
          (λ k'. ground arith)
          (λ k'. OwnedIn-cons i is (owner_in fd clients is) (owner_in-OwnedIn fd clients is)))

module _ {C2s S2c : Type 0} (setup : ServerSetup C2s S2c) (polite : IsPoliteUser setup) where
  process_owner-Serving :
      (o : Owner) (out in_ : Bool) (s : Server C2s) (h : IsServing setup s)
      → OwnedIn h.orderly.connected o
      → IsServing setup (process_owner setup o out in_ s)
  unfolding process_owner
  process_owner-Serving (socket_of i) out in_ s h own =
      let n = setup.clients_max in
      let fresh = h.orderly.fresh i own in
      kept-Serving setup s (process_owner setup (socket_of i) out in_ s)
        (process_client_socket-Kept setup (IsOrderlyBut n (stranger s) (stranger s)) i
          (Orderly-EventKept n (stranger s) (stranger s) setup i fresh
            (polite_choice-IsOrderly setup (stranger s) (stranger s) i fresh polite))
          out in_ s h.orderly)
        (process_client_socket-Kept setup (Knows (known_in s)) i
          (Knows-EventKept (known_in s) setup i) out in_ s (λ j. refl))
        (process_client_socket-Kept setup (CurrentIs none) i (idle-EventKept setup i) out in_ s
          h.idle)
  process_owner-Serving (keep_alive_timer_of i) out in_ s h own =
      let kept =
        Orderly-KeptAt setup.clients_max (stranger s) (stranger s) i (h.orderly.fresh i own) in
      kept-Serving setup s (process_owner setup (keep_alive_timer_of i) out in_ s)
        (kept.by_disconnect s h.orderly) ((Knows-Kept (known_in s)).by_disconnect i s (λ j. refl))
        ((CurrentIs-Kept none).by_disconnect i s h.idle)
  process_owner-Serving nobody out in_ s h own = h

  process_listener-Serving :
      (s : Server C2s) → IsServing setup s → IsServing setup (process_listener setup s)
  process_listener-Serving s h =
      let n = setup.clients_max in
      let s' = process_listener setup s in
      let idle = process_listener-CurrentIs setup none s h.idle in
      elim (process_listener-Settled setup n none
        (λ stale away i t fresh e orderly.
          call_polite-IsOrderly setup stale away i fresh (client_connected i)
            (setup.on_client_connected i) t (polite.connected i) (subst (OnlyNames i) (sym e) tt)
            orderly)
        (stranger s) (stranger s) (known_in s) s h.idle h.orderly (λ j. refl)) [
          | same orderly knows ↦ kept-Serving setup s s' orderly knows idle
          | joined i orderly knows ↦
              let told : (j : ℕ) → but_client i (stranger s) j ≡ stranger s' j =
                λ j. ground (arith, knows j) in
              record {
                orderly = relabelled n _ _ (stranger s') s' orderly told (λ j e. sym (told j) ∙ e);
                idle = idle;
              }
          | given_up i orderly back held knows ↦
              let gone = orderly.spared i back in
              record {
                orderly =
                    relabelled n _ _ (stranger s') s' orderly
                      (λ j. elim (Bool-cases (j == i)) [
                        | inl e ↦ rw e (
                            sym (
                              ap (stranger s') (==→eq j i e)
                              ∙ sym (knows_same s s' knows i)
                              ∙ gone))
                        | inr e ↦ rw e (knows_same s s' knows j)
                      ])
                      (λ j e. sym (knows_same s s' knows j) ∙ e);
                idle = idle;
              }
        ]

  destroy-Serving :
      (s : Server C2s)
      → IsServing setup s
      → IsServing setup (destroy_pending_disconnect_clients setup s)
        × ((destroy_pending_disconnect_clients setup s).links.pending_disconnect_list_p ≡ none)
  destroy-Serving s h =
      let n = setup.clients_max in
      let s' = destroy_pending_disconnect_clients setup s in
      let ps = h.orderly.pending in
      let stale : ℕ → Bool = λ j. if has j ps then true else stranger s j in
      let (left, e) = given_up_pending n (stranger s) s h.orderly in
      let gone : (j : ℕ) → has j left.pending ≡ true → stale j ≡ true =
        λ j k. let here : has j ps ≡ true = ap (has j) (sym e) ∙ k in ground (arith, here) in
      let (orderly, empty, dropped) =
        destroy_all-IsOrderly setup polite.disconnected stale stale s left gone in
      let all : Dropped setup polite.disconnected ps s s' =
        subst (λ qs. Dropped setup polite.disconnected qs s s') e dropped in
      let told : (j : ℕ) → stale j ≡ stranger s' j = λ j. ground (arith, all j) in
      (
        record {
          orderly =
              relabelled n stale stale (stranger s') s' orderly told (λ j e. sym (told j) ∙ e);
          idle = destroy-CurrentIs setup none s h.idle;
        },
        empty,
      )

  -- One event, whatever happens in it.
  pub server_process-Serving :
      (fd : Fd) (out in_ : Bool) (s : Server C2s)
      → IsServing setup s
      → IsServing setup (server_process setup fd out in_ s)
        × ((server_process setup fd out in_ s).links.pending_disconnect_list_p ≡ none)
  unfolding server_process
  server_process-Serving fd out in_ s h =
      let n = setup.clients_max in
      let cs = h.orderly.connected in
      let owner = find_owner n s.links.connected_list_p fd s.links.next_p s.clients in
      let own : OwnedIn cs owner =
        subst (OwnedIn cs)
          (sym (
            find_owner-Chain n s.links.connected_list_p fd s.links.next_p s.clients cs
              (omega (arith, h.orderly.total)) h.orderly.lists.connected))
          (owner_in-OwnedIn fd s.clients cs) in
      destroy-Serving
        (if same_fd fd s.listener_fd
          then process_listener setup s
          else process_owner setup owner out in_ s)
        (if_cases (IsServing setup) (same_fd fd s.listener_fd) _ _
          (λ k. process_listener-Serving s h) (λ k. process_owner-Serving owner out in_ s h own))

  -- The invariant of the server's loop: whatever `epoll_wait` reports and however the calls turn out.
  pub serve-Serving :
      (ts : List Turn) (s : Server C2s)
      → IsServing setup s
      → s.links.pending_disconnect_list_p ≡ none
      → IsServing setup (serve setup ts s)
        × ((serve setup ts s).links.pending_disconnect_list_p ≡ none)
  unfolding serve
  serve-Serving [] s h empty = (h, empty)
  serve-Serving (t ∷ ts) s h empty =
      let orderly =
        calls-IsOrderly setup.clients_max (stranger s) (stranger s) s (answered t s) refl refl
          h.orderly in
      let (h', empty') =
        server_process-Serving (some t.fd) t.out t.in_ (answered t s)
          (kept-Serving setup s (answered t s) orderly (λ j. refl) h.idle) in
      serve-Serving ts (server_process setup (some t.fd) t.out t.in_ (answered t s)) h' empty'
