-- ===== src/Linux/Server/Output/Moves.antt =====
-- What `client_write` of messi/c_source/templates/linux/server.c does with the lists of clients.
use messi.Base.{
  ℕ, ◌≡◌, refl, ◌⊎◌, inl, inr, subst, List, [], ◌∷◌, Option, none, some, ◌==◌, ltb, length,
  if_cases,
}
use messi.Kernel.{Fd, Round, go_on, leave, WriteReply, sent, again, failed}
use messi.Linux.Server.Links.{Links, move_client_to_pending_disconnect_list}
use messi.Linux.Server.State.{
  Server, OutputItem, client_pending_disconnect, disconnect_from, free_client_output, set_client,
}
use messi.Linux.Server.Output.{
  append_item, client_output_append, write_round, write_reply, wrote_to, client_write_loop,
  write_behind, client_write,
}

module _ {C2s : Type 0} (i : ℕ) where
  -- The lists of clients are as they were, or the client was moved to those to be disconnected.
  abbrev pub Moves : Links → Server C2s → Type 0
  Moves l s = (s.links ≡ l) ⊎ (s.links ≡ move_client_to_pending_disconnect_list i l)

  disconnect_from-links : (f : Fd) (s : Server C2s) → Moves s.links (disconnect_from f i s)
  unfolding disconnect_from free_client_output set_client
  disconnect_from-links none s = inl refl
  disconnect_from-links (some f) s = inr refl

  client_pending_disconnect-links : (s : Server C2s) → Moves s.links (client_pending_disconnect i s)
  unfolding client_pending_disconnect
  client_pending_disconnect-links s = disconnect_from-links (s.clients i).client_fd s

  append_item-links :
      (o : Option ℕ) (bytes : List ℕ) (s : Server C2s) → (append_item o i bytes s).links ≡ s.links
  unfolding append_item set_client
  append_item-links none bytes s = refl
  append_item-links (some a) bytes s = refl

  client_output_append-links :
      (bytes : List ℕ) (s : Server C2s) → (client_output_append i bytes s).links ≡ s.links
  unfolding client_output_append
  client_output_append-links bytes s = append_item-links _ bytes _

  abbrev Keeps : Links → Round (List ℕ × Server C2s) → Type 0
  Keeps l (go_on (bytes, s)) = s.links ≡ l
  Keeps l (leave (bytes, s)) = Moves l s

  write_round-links :
      (r : WriteReply) (bytes : List ℕ) (s : Server C2s) → Keeps s.links (write_round r i bytes s)
  unfolding write_round
  write_round-links (sent n) bytes s =
      if_cases (Keeps s.links) (n == length bytes) _ _ (λ h. inl refl)
        (λ h.
          if_cases (Keeps s.links) (ltb 0 n) _ _ (λ h'. refl)
            (λ h'. client_pending_disconnect-links s))
  write_round-links again bytes s = inl (client_output_append-links bytes s)
  write_round-links failed bytes s = client_pending_disconnect-links s

  last_round-links :
      (l : Links) (r : Round (List ℕ × Server C2s))
      → Keeps l r
      → Moves l (elim r [ go_on r ↦ r.1 | leave r ↦ r.1 ])
  last_round-links l (go_on (bytes, s)) k = inl k
  last_round-links l (leave (bytes, s)) k = k

  next_rounds-links :
      (ws : List WriteReply) (l : Links) (r : Round (List ℕ × Server C2s))
      → ((bytes : List ℕ) (s : Server C2s) → Moves s.links (client_write_loop ws i bytes s))
      → Keeps l r
      → Moves l (elim r [ go_on r ↦ client_write_loop ws i r.0 r.1 | leave r ↦ r.1 ])
  next_rounds-links ws l (go_on (bytes, s)) ih k =
      subst (λ (m : Links). Moves m (client_write_loop ws i bytes s)) k (ih bytes s)
  next_rounds-links ws l (leave (bytes, s)) ih k = k

  client_write_loop-links :
      (ws : List WriteReply) (bytes : List ℕ) (s : Server C2s)
      → Moves s.links (client_write_loop ws i bytes s)
  unfolding client_write_loop
  client_write_loop-links [] [] s = inl refl
  client_write_loop-links (w ∷ ws) [] s = inl refl
  client_write_loop-links [] (b ∷ bs) s =
      last_round-links s.links _
        (write_round-links (write_reply i (b ∷ bs) s) (b ∷ bs) (wrote_to i (b ∷ bs) s))
  client_write_loop-links (w ∷ ws) (b ∷ bs) s =
      next_rounds-links ws s.links _ (client_write_loop-links ws)
        (write_round-links (write_reply i (b ∷ bs) s) (b ∷ bs) (wrote_to i (b ∷ bs) s))

  write_behind-links :
      (q : List OutputItem) (bytes : List ℕ) (s : Server C2s)
      → Moves s.links (write_behind q i bytes s)
  unfolding write_behind
  write_behind-links [] bytes s = client_write_loop-links s.world.writes bytes s
  write_behind-links (x ∷ xs) bytes s = inl (client_output_append-links bytes s)

  pub client_write-links :
      (bytes : List ℕ) (s : Server C2s) → Moves s.links (client_write i bytes s)
  unfolding client_write
  client_write-links bytes s = write_behind-links (s.clients i).output bytes s
