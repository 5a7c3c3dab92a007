-- ===== src/Linux/Server/Rules/Out.antt =====
-- The proof rule for `process_client_socket_out` of messi/c_source/templates/linux/server.c: what the
-- steps on the client keep, and the freeing of an item and the end of the loop, it keeps.
use messi.Base.{ℕ, List, [], ◌∷◌, ◌==◌, ltb, if_cases}
use messi.Kernel.{Round, go_on, leave, again, failed, WriteReply, sent, freed, note}
use messi.Linux.Server.State.{Server, OutputItem}
use messi.Linux.Server.Output.{
  item_bytes, write_reply, wrote_to, out_round, out_loop, end_of_out, process_client_socket_out,
}
use messi.Linux.Server.Rules.{KeptAt}

pub record OutKept {C2s : Type 0} (i : ℕ) (P : Server C2s → Type 0) : Type 0 where
  pub client : KeptAt i P
  pub by_free : (a : ℕ) (s : Server C2s) → P s → P (record s { world = note (freed a) s.world })
  pub by_end : (items : List OutputItem) (s : Server C2s) → P s → P (end_of_out i items s)

module _ {C2s : Type 0} (P : Server C2s → Type 0) (i : ℕ) (kept : OutKept i P) where
  -- The items behind, with the server.
  abbrev OutKeeps : Round (List OutputItem × Server C2s) → Type 0
  OutKeeps (go_on (items, s)) = P s
  OutKeeps (leave (items, s)) = P s

  out_round-Kept :
      (r : WriteReply) (item : OutputItem) (items : List OutputItem) (s : Server C2s)
      → P s
      → OutKeeps (out_round r i item items s)
  unfolding out_round
  out_round-Kept (sent k) item items s h =
      if_cases OutKeeps (k == item.size) _ _ (λ e. kept.by_free item.address s h)
        (λ e. if_cases OutKeeps (ltb 0 k) _ _ (λ e'. h) (λ e'. kept.client.by_disconnect s h))
  out_round-Kept again item items s h = h
  out_round-Kept failed item items s h = kept.client.by_disconnect s h

  last_out-Kept :
      (r : Round (List OutputItem × Server C2s))
      → OutKeeps r
      → let t : List OutputItem × Server C2s = elim r [ go_on r ↦ r | leave r ↦ r ] in P t.1
  last_out-Kept (go_on r) h = h
  last_out-Kept (leave r) h = h

  next_out-Kept :
      (ws : List WriteReply) (r : Round (List OutputItem × Server C2s))
      → ((items : List OutputItem) (s : Server C2s) → P s → P (out_loop ws i items s).1)
      → OutKeeps r
      → let t : List OutputItem × Server C2s = elim r [
        | go_on r ↦ out_loop ws i r.0 r.1
        | leave r ↦ r
      ] in
        P t.1
  next_out-Kept ws (go_on (items, s)) ih h = ih items s h
  next_out-Kept ws (leave r) ih h = h

  out_loop-Kept :
      (ws : List WriteReply) (items : List OutputItem) (s : Server C2s)
      → P s
      → P (out_loop ws i items s).1
  unfolding out_loop
  out_loop-Kept [] [] s h = h
  out_loop-Kept (w ∷ ws) [] s h = h
  out_loop-Kept [] (item ∷ items) s h =
      let bytes = item_bytes item in
      last_out-Kept _ (
        out_round-Kept (write_reply i bytes s) item items (wrote_to i bytes s)
          (kept.client.by_write bytes s h))
  out_loop-Kept (w ∷ ws) (item ∷ items) s h =
      let bytes = item_bytes item in
      next_out-Kept ws _ (out_loop-Kept ws) (
        out_round-Kept (write_reply i bytes s) item items (wrote_to i bytes s)
          (kept.client.by_write bytes s h))

  pub process_client_socket_out-Kept : (s : Server C2s) → P s → P (process_client_socket_out i s)
  unfolding process_client_socket_out
  process_client_socket_out-Kept s h =
      let r = out_loop s.world.writes i (s.clients i).output s in
      kept.by_end r.0 r.1 (out_loop-Kept s.world.writes (s.clients i).output s h)
