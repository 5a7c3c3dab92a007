-- ===== src/Linux/Server/Broadcast.antt =====
-- `NAME_server_broadcast` of messi/c_source/templates/linux/server.c against the list of connected
-- clients.
use messi.Base.{
  ℕ, zero, suc, ◌≤◌, ◌≡◌, refl, sym, ap, ◌∙◌, inl, inr, subst, List, [], ◌∷◌, ◌++◌, append_assoc,
  true, Option, none, some, arith, length,
}
use messi.Linux.Server.Links.{Ptr, Links, move_client_to_pending_disconnect_list}
use messi.Linux.Server.Links.Chains.{has, without, Chain, Distinct}
use messi.Linux.Server.Links.Moves.{Lists, move_client_to_pending_disconnect_list-Lists}
use messi.Linux.Server.State.{Server}
use messi.Linux.Server.Output.{client_write}
use messi.Linux.Server.Send.{
  ServerSetup, broadcast_loop, broadcast_bytes, encode_user_message, server_broadcast,
}
use messi.Linux.Server.Output.Moves.{client_write-links}

abbrev pub head_of : List ℕ → Ptr
head_of [] = none
head_of (x ∷ xs) = some x

-- The end of a list is led to by a pointer to its first client.
Chain-end :
    (next : ℕ → Ptr) (head : Ptr) (before after : List ℕ)
    → Chain next head (before ++ after)
    → Chain next (head_of after) after
Chain-end next head [] [] c = refl
Chain-end next head [] (x ∷ xs) c = (refl, c.1)
Chain-end next head (b ∷ before) after c = Chain-end next (next b) before after c.1

pub Chain-head :
    (next : ℕ → Ptr) (head : Ptr) (xs : List ℕ) → Chain next head xs → head ≡ head_of xs
Chain-head next head [] c = c
Chain-head next head (x ∷ xs) c = c.0

has-middle : (i : ℕ) (before after : List ℕ) → has i (before ++ i ∷ after) ≡ true
has-middle i [] after = ground arith
has-middle i (b ∷ before) after = ground (arith, has-middle i before after)

without-middle :
    (i : ℕ) (before after : List ℕ)
    → Distinct (before ++ i ∷ after)
    → without i (before ++ i ∷ after) ≡ before ++ after
unfolding without
without-middle i [] after d = ground arith
without-middle i (b ∷ before) after d =
    ground (arith, has-middle i before after, without-middle i before after d.1)

next-head :
    (next : ℕ → Ptr) (head : Ptr) (i : ℕ) (before after : List ℕ)
    → Chain next head (before ++ i ∷ after)
    → next i ≡ head_of after
next-head next head i before after c =
    Chain-head next (next i) after (Chain-end next head before (i ∷ after) c).1

-- The message is written to one client after the other.
abbrev pub write_to_each : {C2s : Type 0} → List ℕ → List ℕ → Server C2s → Server C2s
write_to_each [] bytes s = s
write_to_each (i ∷ is) bytes s = write_to_each is bytes (client_write i bytes s)

module _ {C2s : Type 0} (fs : List ℕ) (bytes : List ℕ) where
  -- The lists of clients while a broadcast goes on: those that it has passed, and those still to come.
  record Passing (before after : List ℕ) (s : Server C2s) : Type 0 where
    ps : List ℕ
    lists : Lists s.links (before ++ after) fs ps

  write-Passing :
      (i : ℕ) (before after : List ℕ) (s : Server C2s)
      → Passing before (i ∷ after) s
      → (b : List ℕ) × Passing b after (client_write i bytes s)
  write-Passing i before after s k = elim (client_write-links i bytes s) [
    | inl e ↦ (
      before ++ i ∷ [],
      record {
        ps = k.ps;
        lists =
            subst (λ (l : Links). Lists l ((before ++ i ∷ []) ++ after) fs k.ps) (sym e)
              (subst (λ (cs : List ℕ). Lists s.links cs fs k.ps)
                (sym (append_assoc before (i ∷ []) after)) k.lists);
      },
    )
    | inr e ↦ (
      before,
      record {
        ps = i ∷ k.ps;
        lists =
            subst (λ (l : Links). Lists l (before ++ after) fs (i ∷ k.ps)) (sym e)
              (subst
                (λ (cs : List ℕ).
                  Lists (move_client_to_pending_disconnect_list i s.links) cs fs (i ∷ k.ps))
                (without-middle i before after k.lists.distinct_c)
                (move_client_to_pending_disconnect_list-Lists s.links i (before ++ i ∷ after) fs
                  k.ps k.lists (has-middle i before after)));
      },
    )
  ]

  broadcast_loop-Passing :
      (n : ℕ) (before after : List ℕ) (s : Server C2s)
      → length after ≤ n
      → Passing before after s
      → broadcast_loop n (head_of after) bytes s ≡ write_to_each after bytes s
  unfolding broadcast_loop
  broadcast_loop-Passing zero before [] s h k = refl
  broadcast_loop-Passing zero before (i ∷ after) s h k = absurd (omega arith)
  broadcast_loop-Passing (suc n) before [] s h k = refl
  broadcast_loop-Passing (suc n) before (i ∷ after) s h k =
      let (b, k') = write-Passing i before after s k in
      ap (λ (p : Ptr). broadcast_loop n p bytes (client_write i bytes s))
        (next-head s.links.next_p s.links.connected_list_p i before after k.lists.connected)
      ∙ broadcast_loop-Passing n b after (client_write i bytes s) (omega arith) k'

  -- A broadcast writes to every client that was connected at its start, once each and in the order of
  -- the list, although a failed write takes a client out of that list while the loop goes along it.
  -- The loop is given as many rounds as there are connected clients, or more.
  pub broadcast_loop-Lists :
      (n : ℕ) (cs ps : List ℕ) (s : Server C2s)
      → Lists s.links cs fs ps
      → length cs ≤ n
      → broadcast_loop n s.links.connected_list_p bytes s ≡ write_to_each cs bytes s
  broadcast_loop-Lists n cs ps s l h =
      ap (λ (p : Ptr). broadcast_loop n p bytes s)
        (Chain-head s.links.next_p s.links.connected_list_p cs l.connected)
      ∙ broadcast_loop-Passing n [] cs s h (record { ps = ps; lists = l })

module _ {C2s S2c : Type 0} (setup : ServerSetup C2s S2c) (s : Server C2s) where
  broadcast_bytes-Lists :
      (o : Option (List ℕ)) (bytes : List ℕ) (cs fs ps : List ℕ)
      → o ≡ some bytes
      → Lists s.links cs fs ps
      → length cs ≤ setup.clients_max
      → broadcast_bytes setup o s ≡ write_to_each cs bytes s
  broadcast_bytes-Lists none bytes cs fs ps e l h = absurd (cc)
  broadcast_bytes-Lists (some b) bytes cs fs ps e l h =
      let e' : b ≡ bytes = cc in
      broadcast_loop-Lists fs b setup.clients_max cs ps s l h
      ∙ ap (λ (b' : List ℕ). write_to_each cs b' s) e'

  -- `NAME_server_broadcast` writes to every client that was connected at its start, once each and in the
  -- order of the list, although a failed write takes a client out of that list while the loop goes
  -- along it: if the message is encoded, the lists of clients are well formed and no more clients are
  -- connected than there are, the result is that of one `client_write` per connected client.
  pub server_broadcast-Lists :
      (m : S2c) (bytes : List ℕ) (cs fs ps : List ℕ)
      → encode_user_message setup m s ≡ some bytes
      → Lists s.links cs fs ps
      → length cs ≤ setup.clients_max
      → server_broadcast setup m s ≡ write_to_each cs bytes s
  unfolding server_broadcast
  server_broadcast-Lists m bytes cs fs ps e l h =
      broadcast_bytes-Lists (encode_user_message setup m s) bytes cs fs ps e l h
