-- ===== src/Linux/Server/Lists.antt =====
-- The lists of clients at the start, and the search in them: `NAME_server_init` and the loop of
-- `NAME_server_process` of messi/c_source/templates/linux/server.c.
use messi.Base.{
  some_eq, ℕ, zero, suc, ◌+◌, ◌≤◌, ◌<◌, ◌≡◌, refl, sym, subst, List, [], ◌∷◌, false, Option, none,
  some, arith, length, if◌then◌else◌,
}
use messi.Uri.{parse_tcp_uri}
use messi.Kernel.{Fd}
use messi.Linux.Client.Api.{same_fd}
use messi.Linux.Server.Links.{Ptr, Links}
use messi.Linux.Server.Links.Chains.{has, Chain, Distinct}
use messi.Linux.Server.Links.Moves.{Lists}
use messi.Linux.Server.State.{Server, ServerClient}
use messi.Linux.Server.Api.{
  ServerBuffers, init_next, init_parsed, server_init, Owner, socket_of, keep_alive_timer_of, nobody,
  find_owner,
}

-- The clients from `k` on, `n` of them behind `k`.
abbrev pub clients_from : ℕ → ℕ → List ℕ
clients_from k zero = k ∷ []
clients_from k (suc n) = k ∷ clients_from (suc k) n

init_next-Chain :
    (last : ℕ) (old : ℕ → Ptr) (k n : ℕ)
    → k + n ≡ last
    → Chain (init_next last old) (some k) (clients_from k n)
init_next-Chain last old k zero e = (refl, ground arith)
init_next-Chain last old k (suc n) e =
    let h : init_next last old k ≡ some (suc k) = ground arith in
    (
      refl,
      subst (λ (p : Ptr). Chain (init_next last old) p (clients_from (suc k) n)) (sym h)
          (init_next-Chain last old (suc k) n (omega arith)),
    )

has-clients_from : (a k n : ℕ) → a < k → has a (clients_from k n) ≡ false
has-clients_from a k zero h = ground arith
has-clients_from a k (suc n) h = ground (arith, has-clients_from a (suc k) n (omega arith))

clients_from-Distinct : (k n : ℕ) → Distinct (clients_from k n)
clients_from-Distinct k zero = (refl, tt)
clients_from-Distinct k (suc n) =
    (has-clients_from k (suc k) n (omega arith), clients_from-Distinct (suc k) n)

init-Lists :
    (n : ℕ) (l : Links)
    → l.fault ≡ false
    → Lists
        (record l {
          next_p = init_next n l.next_p;
          free_list_p = some 0;
          connected_list_p = none;
          pending_disconnect_list_p = none;
        })
        []
        (clients_from 0 n)
        []
init-Lists n l sound = record {
  connected = refl;
  free = init_next-Chain n l.next_p 0 n (omega arith);
  pending = refl;
  backed = tt;
  distinct_c = tt;
  distinct_f = clients_from-Distinct 0 n;
  distinct_p = tt;
  apart_cf = λ a h. absurd (cc);
  apart_cp = λ a h. absurd (cc);
  apart_fp = λ a h. refl;
  sound = sound;
}

init_parsed-Lists :
    {C2s : Type 0} (o : Option (List ℕ × ℕ)) (n : ℕ) (b : ServerBuffers) (old s : Server C2s)
    → old.links.fault ≡ false
    → init_parsed o (suc n) b old ≡ some s
    → Lists s.links [] (clients_from 0 n) []
unfolding init_parsed
init_parsed-Lists none n b old s sound e = absurd (cc)
init_parsed-Lists {C2s = C2s} (some (host, port)) n b old s sound e =
    subst (λ (t : Server C2s). Lists t.links [] (clients_from 0 n) []) (some_eq e)
      (subst
        (λ k.
          Lists
            (record (old.links) {
              next_p = init_next k old.links.next_p;
              free_list_p = some 0;
              connected_list_p = none;
              pending_disconnect_list_p = none;
            })
            [] (clients_from 0 n) [])
        (omega arith) (init-Lists n old.links sound))

-- What `NAME_server_init` leaves for an array of at least one client, if it accepts the URI and no field
-- was reached through NULL before: every client is free, in the order of the array, none is connected
-- and none has a disconnect pending.
pub server_init-Lists :
    {C2s : Type 0} (atoi : List ℕ → ℕ) (uri : List ℕ) (n : ℕ) (b : ServerBuffers)
    (old s : Server C2s)
    → old.links.fault ≡ false
    → server_init atoi uri (suc n) b old ≡ some s
    → Lists s.links [] (clients_from 0 n) []
unfolding server_init
server_init-Lists atoi uri n b old s sound e =
    init_parsed-Lists (parse_tcp_uri atoi uri 16) n b old s sound e

-- To whom a descriptor belongs, on a list of clients.
abbrev pub owner_in : Fd → (ℕ → ServerClient) → List ℕ → Owner
owner_in fd clients [] = nobody
owner_in fd clients (i ∷ is) =
    if same_fd fd (clients i).client_fd
    then socket_of i
    else if same_fd fd (clients i).keep_alive_timer_fd
    then keep_alive_timer_of i
    else owner_in fd clients is

-- The search for the owner of a descriptor along the linked list of connected clients, given as many
-- rounds as there are of them or more, finds the first of these clients, in the order of the list, whose
-- socket or keep alive timer it is, or nobody.
pub find_owner-Chain :
    (n : ℕ) (p : Ptr) (fd : Fd) (next : ℕ → Ptr) (clients : ℕ → ServerClient) (cs : List ℕ)
    → length cs ≤ n
    → Chain next p cs
    → find_owner n p fd next clients ≡ owner_in fd clients cs
unfolding find_owner
find_owner-Chain zero p fd next clients [] h c = refl
find_owner-Chain zero p fd next clients (i ∷ is) h c = absurd (omega arith)
find_owner-Chain (suc n) none fd next clients [] h c = refl
find_owner-Chain (suc n) (some j) fd next clients [] h c = absurd (cc)
find_owner-Chain (suc n) none fd next clients (i ∷ is) h c = absurd (cc)
find_owner-Chain (suc n) (some j) fd next clients (i ∷ is) h c =
    rw (some_eq c.0, find_owner-Chain n (next i) fd next clients is (omega arith) c.1)
