-- ===== src/MyProtocol/Server/Replies.antt =====
-- One message at the server of examples/my_protocol/server/linux/main.c, and its answer.
use messi.Base.{
  ℕ, ◌+◌, ◌≡◌, refl, sym, List, [], ◌∷◌, ◌++◌, true, none, some, Option, ltb, if◌then◌else◌, arith,
  Bool-cases, inl, inr, subst,
}
use messi.Kernel.{callback, note}
use messi.Protocol.{Codec}
use messi.Linux.Server.State.{Server, ServerEvent}
use messi.Linux.Server.Send.{act_each, act, server_reply, server_call_back}
use messi.Linux.Server.Messages.{server_handle_choice}
use messi.Linux.Server.Spares.{given_from}
use messi.System.Follows.{Follows, Follows-trans, Follows-refl}
use messi.System.Stream.{Step, sends, do_step, do_step-Follows}
use messi.MyProtocol.{ToServer, ToClient, foo_req, bar_ind, fie_rsp, foo_rsp, fie_req}
use messi.MyProtocol.Server.{bar_inds, count, my_server}

-- What a callback finds.
abbrev pub told : ToServer → Server ToServer → Server ToServer
told m s = record s {
  current_client_p = some 0;
  world = note (callback (ServerEvent.received 0 m)) s.world;
}

-- The answer to one message, with the number of `bar_ind` messages up to it.
abbrev pub answer_to : ToServer → ℕ → Option ToClient
answer_to foo_req k = some foo_rsp
answer_to bar_ind k = if ltb k 2 then none else some fie_req
answer_to fie_rsp k = none

abbrev pub idle_again : Server ToServer → Server ToServer
idle_again s = record s { current_client_p = none }

bar_inds-append : (xs ys : List ToServer) → bar_inds (xs ++ ys) ≡ bar_inds ys + bar_inds xs
bar_inds-append [] ys = omega arith
bar_inds-append (foo_req ∷ xs) ys = bar_inds-append xs ys
bar_inds-append (bar_ind ∷ xs) ys = omega (arith, bar_inds-append xs ys)
bar_inds-append (fie_rsp ∷ xs) ys = bar_inds-append xs ys

pub count-told :
    (m : ToServer) (s : Server ToServer) → count (told m s) ≡ bar_inds (m ∷ []) + count s
unfolding note
count-told m s = bar_inds-append (given_from 0 s.world.log) (m ∷ [])

abbrev pub listed : Option ToClient → List (Step ToClient)
listed none = []
listed (some r) = sends r ∷ []

abbrev pub sends_each : List ToClient → List (Step ToClient)
sends_each [] = []
sends_each (r ∷ rs) = sends r ∷ sends_each rs

module _ (to_server : Codec ToServer) (to_client : Codec ToClient) where
  -- The messages of the client are handled one after the other.
  abbrev pub handle_each : List ToServer → Server ToServer → Server ToServer
  handle_each [] s = s
  handle_each (m ∷ ms) s =
      handle_each ms (server_handle_choice (my_server to_server to_client) 0 m s)

  abbrev pub replied : Option ToClient → Server ToServer → Server ToServer
  replied none s = s
  replied (some r) s = do_step (my_server to_server to_client) 0 (sends r) s

  pub choice_replies :
      (m : ToServer) (s : Server ToServer)
      → (m ≡ fie_rsp → ⊥)
      → to_server.known m ≡ true
      → server_handle_choice (my_server to_server to_client) 0 m s
        ≡ idle_again (replied (answer_to m (count (told m s))) (told m s))
  unfolding server_handle_choice server_call_back act_each act server_reply
  choice_replies foo_req s go known = rw known refl
  choice_replies bar_ind s go known =
      rw known (elim (Bool-cases (ltb (count (told bar_ind s)) 2)) [
        | inl k ↦ rw k refl
        | inr k ↦ rw k refl
      ])
  choice_replies fie_rsp s go known = absurd (go refl)

  -- Messages that the protocol knows, and that do not end the program.
  abbrev pub GoesOn : List ToServer → Type 0
  GoesOn [] = Unit
  GoesOn (m ∷ ms) = (to_server.known m ≡ true) × ((m ≡ fie_rsp) → ⊥) × GoesOn ms

  replied-Follows : (o : Option ToClient) (s : Server ToServer) → Follows 0 s (replied o s)
  replied-Follows none s = Follows-refl 0 s
  replied-Follows (some r) s = do_step-Follows (my_server to_server to_client) 0 (sends r) s

  pub choice-Follows :
      (m : ToServer) (s : Server ToServer)
      → (m ≡ fie_rsp → ⊥)
      → to_server.known m ≡ true
      → Follows 0 s (server_handle_choice (my_server to_server to_client) 0 m s)
  unfolding note
  choice-Follows m s go known =
      let h = replied-Follows (answer_to m (count (told m s))) (told m s) in
      subst (Follows 0 s) (sym (choice_replies m s go known))
        (record { fd = h.fd; memory = h.memory; room = h.room })

  pub handle_each-Follows :
      (ms : List ToServer) (s : Server ToServer) → GoesOn ms → Follows 0 s (handle_each ms s)
  handle_each-Follows [] s go = Follows-refl 0 s
  handle_each-Follows (m ∷ ms) s (known, go, rest) =
      let s' = server_handle_choice (my_server to_server to_client) 0 m s in
      Follows-trans 0 s s' (handle_each ms s') (choice-Follows m s go known)
        (handle_each-Follows ms s' rest)
