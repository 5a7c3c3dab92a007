-- ===== src/Linux/Server/Rules/Known.antt =====
-- Which clients the user of messi/c_source/templates/linux/server.c knows: those that it was told to be
-- connected, and not yet told to be disconnected. Only these two callbacks change it.
use messi.Base.{
  ℕ, ◌≡◌, refl, List, [], ◌∷◌, Bool, true, false, Option, none, some, ◌==◌, if◌then◌else◌, if_cases,
  ◌∙◌,
}
use messi.Kernel.{
  Fd, Call, World, WriteReply, sent, again, failed, callback, note, attempt, note_wrote, next_write,
  note_opened, note_allocated, create_fd, malloc, write, close, watched, armed,
}
use messi.Linux.Server.State.{
  Server, ServerEvent, OutputItem, client_connected, client_disconnected, set_client, free_items,
  free_client_output, disconnect_from, client_pending_disconnect, server_close_fd,
  server_epoll_ctl_add, server_epoll_ctl_mod,
}
use messi.Linux.Server.Output.{append_item, client_output_append, watch_out, end_of_out}
use messi.Linux.Server.Send.{Action, ServerSetup, server_call_back}
use messi.Linux.Server.Messages.{set_input, client_start_keep_alive_timer, server_handle_choice}
use messi.Linux.Server.Rules.{Kept, Kept-KeptAt, act_each-Kept}
use messi.Linux.Server.Rules.Events.{EventKept}

abbrev after_event : {C2s : Type 0} → ℕ → ServerEvent C2s → Bool → Bool
after_event i (client_connected j) b = if i == j then true else b
after_event i (client_disconnected j) b = if i == j then false else b
after_event i (ServerEvent.received j m) b = b

abbrev pub greeted : {C2s : Type 0} → ℕ → List (Call (ServerEvent C2s)) → Bool
greeted i [] = false
greeted i (callback e ∷ log) = after_event i e (greeted i log)
greeted i (_ ∷ log) = greeted i log

module _ {C2s : Type 0} (known : ℕ → Bool) where
  abbrev pub InLog : World (ServerEvent C2s) → Type 0
  InLog w = (j : ℕ) → greeted j w.log ≡ known j

  abbrev pub Knows : Server C2s → Type 0
  Knows s = InLog s.world

  note_wrote-known :
      (fd : Fd) (bytes : List ℕ) (r : WriteReply) (log : List (Call (ServerEvent C2s))) (j : ℕ)
      → greeted j (note_wrote fd bytes r log) ≡ greeted j log
  note_wrote-known fd bytes (sent n) log j = refl
  note_wrote-known fd bytes again log j = refl
  note_wrote-known fd bytes failed log j = refl

  note_opened-known :
      (fd : Fd) (log : List (Call (ServerEvent C2s))) (j : ℕ)
      → greeted j (note_opened fd log) ≡ greeted j log
  note_opened-known none log j = refl
  note_opened-known (some fd) log j = refl

  note_allocated-known :
      (a : Option ℕ) (log : List (Call (ServerEvent C2s))) (j : ℕ)
      → greeted j (note_allocated a log) ≡ greeted j log
  note_allocated-known none log j = refl
  note_allocated-known (some a) log j = refl

  pub create_fd-InLog : (w : World (ServerEvent C2s)) → InLog w → InLog (create_fd w).1
  unfolding create_fd
  create_fd-InLog w h = λ j. note_opened-known (w.fds 0) w.log j ∙ h j

  pub watched-InLog :
      (fd : Fd) (w : World (ServerEvent C2s)) → InLog w → InLog (server_epoll_ctl_add fd w).1
  unfolding server_epoll_ctl_add attempt
  watched-InLog fd w h = λ j.
      if_cases (λ log. greeted j log ≡ known j) (w.statuses 0) (watched fd ∷ w.log) w.log (λ k. h j)
        (λ k. h j)

  pub armed-InLog :
      (fd : Fd) (n : ℕ) (w : World (ServerEvent C2s)) → InLog w → InLog (attempt (armed fd n) w).1
  unfolding attempt
  armed-InLog fd n w h = λ j.
      if_cases (λ log. greeted j log ≡ known j) (w.statuses 0) (armed fd n ∷ w.log) w.log (λ k. h j)
        (λ k. h j)

  free_items-InLog :
      (items : List OutputItem) (w : World (ServerEvent C2s)) → InLog w → InLog (free_items items w)
  unfolding free_items note
  free_items-InLog [] w h = h
  free_items-InLog (item ∷ items) w h = free_items-InLog items (note (Call.freed item.address) w) h

  write-InLog :
      (fd : Fd) (bytes : List ℕ) (w : World (ServerEvent C2s))
      → InLog w
      → InLog (write fd bytes w).1
  unfolding write
  write-InLog none bytes w h = h
  write-InLog (some fd) bytes w h =
      λ j. note_wrote-known (some fd) bytes (next_write w.writes) w.log j ∙ h j

  watch_out-InLog :
      (q : List OutputItem) (fd : Fd) (w : World (ServerEvent C2s))
      → InLog w
      → InLog (watch_out q fd w)
  unfolding server_epoll_ctl_mod note
  watch_out-InLog [] fd w h = h
  watch_out-InLog (x ∷ xs) fd w h = h

  append_item-Knows :
      (o : Option ℕ) (i : ℕ) (bytes : List ℕ) (s : Server C2s)
      → Knows s
      → Knows (append_item o i bytes s)
  unfolding append_item
  append_item-Knows none i bytes s h = h
  append_item-Knows (some a) i bytes s h =
      watch_out-InLog (s.clients i).output (s.clients i).client_fd s.world h

  append-Knows :
      (i : ℕ) (bytes : List ℕ) (s : Server C2s) → Knows s → Knows (client_output_append i bytes s)
  unfolding client_output_append malloc
  append-Knows i bytes s h =
      append_item-Knows (malloc s.world).0 i bytes (record s { world = (malloc s.world).1 })
        (λ j. note_allocated-known (s.world.fds 0) s.world.log j ∙ h j)

  disconnect_from-Knows :
      (fd : Fd) (i : ℕ) (s : Server C2s) → Knows s → Knows (disconnect_from fd i s)
  unfolding disconnect_from free_client_output set_client server_close_fd close note
  disconnect_from-Knows none i s h = h
  disconnect_from-Knows (some fd) i s h =
      let s1 : Server C2s = record s { world = server_close_fd (some fd) s.world } in
      let s2 = set_client i (record (s.clients i) { client_fd = none }) s1 in
      free_items-InLog (s2.clients i).output s1.world h

  pub Knows-Kept : Kept Knows
  unfolding client_pending_disconnect
  Knows-Kept = record {
    by_write = λ i bytes s h. write-InLog (s.clients i).client_fd bytes s.world h;
    by_append = append-Knows;
    by_disconnect = λ i s h. disconnect_from-Knows (s.clients i).client_fd i s h;
  }

  end_of_out-Knows :
      (i : ℕ) (items : List OutputItem) (s : Server C2s) → Knows s → Knows (end_of_out i items s)
  unfolding end_of_out set_client server_epoll_ctl_mod note
  end_of_out-Knows i [] s h = h
  end_of_out-Knows i (item ∷ items) s h = h

-- A callback tells the user of one client at most, whatever the user does in it.
pub call_back-Knows :
    {C2s S2c : Type 0} (known known' : ℕ → Bool) (setup : ServerSetup C2s S2c) (e : ServerEvent C2s)
    (actions : Server C2s → List (Action S2c)) (s : Server C2s)
    → ((j : ℕ) (b : Bool) → b ≡ known j → after_event j e b ≡ known' j)
    → Knows known s
    → Knows known' (server_call_back setup e actions s)
unfolding server_call_back note
call_back-Knows {C2s = C2s} known known' setup e actions s told h =
    let noted : Server C2s = record s { world = note (callback e) s.world } in
    act_each-Kept (Knows known') (Knows-Kept known') setup (actions noted) noted
      (λ j. told j (greeted j s.world.log) (h j))

-- What comes from a client changes nothing of it.
pub Knows-EventKept :
    {C2s S2c : Type 0} (known : ℕ → Bool) (setup : ServerSetup C2s S2c) (i : ℕ)
    → EventKept setup i (Knows known)
unfolding set_input set_client client_start_keep_alive_timer server_handle_choice note
Knows-EventKept {C2s = C2s} known setup i = record {
  out = record {
    client = Kept-KeptAt (Knows known) i (Knows-Kept known);
    by_free = λ a s h. h;
    by_end = λ items s. end_of_out-Knows known i items s;
  };
  by_input = λ v s h. h;
  by_timer = λ s h. armed-InLog known _ 3 s.world h;
  by_read = λ rs s h. h;
  by_choice = λ m s h.
      let s1 : Server C2s = record s { current_client_p = some i } in
      if_cases (Knows known) (setup.to_server.known m) _ s1
        (λ k.
          call_back-Knows known known setup (ServerEvent.received i m) (setup.on_message i m) s1
            (λ j b e. e) h)
        (λ k. h);
}
