-- ===== src/Linux/Server/Spares.antt =====
-- What the Linux server of messi/c_source/templates/linux/server.c leaves alone of a client when it
-- writes to clients and disconnects them.
use messi.Base.{
  if_cases, eq→==, ℕ, ◌≡◌, refl, ap, ◌∙◌, sym, List, [], ◌∷◌, ◌++◌, true, false, Option, none, some,
  ◌==◌, if◌then◌else◌, ==→eq,
}
pub use messi.Kernel.{is_open}
use messi.Kernel.{
  Fd, Call, World, WriteReply, sent, again, failed, callback, note, note_wrote, next_write, write,
  malloc, note_allocated, close,
}
use messi.Linux.Server.State.{
  Server, ServerClient, ServerEvent, OutputItem, client_connected, client_disconnected, set_client,
  free_items, free_client_output, server_close_fd, server_epoll_ctl_mod, disconnect_from,
  client_pending_disconnect,
}
use messi.Linux.Server.Output.{append_item, client_output_append, wrote_to, watch_out}
use messi.Linux.Server.Rules.{Kept}

module _ {C2s : Type 0} (i : ℕ) where
  abbrev received_from : ServerEvent C2s → List C2s
  received_from (client_connected j) = []
  received_from (client_disconnected j) = []
  received_from (ServerEvent.received j m) = if i == j then m ∷ [] else []

  -- The messages that the user was given from the client, oldest first.
  abbrev pub given_from : List (Call (ServerEvent C2s)) → List C2s
  given_from [] = []
  given_from (callback e ∷ log) = given_from log ++ received_from e
  given_from (_ ∷ log) = given_from log

  -- The input of the client is the same, the user was given no message from it, and if it has a
  -- descriptor it had one before.
  pub record Spares (s s' : Server C2s) : Type 0 where
    pub input : (s'.clients i).input ≡ (s.clients i).input
    pub workspace : s'.workspace_in_size ≡ s.workspace_in_size
    pub said : given_from s'.world.log ≡ given_from s.world.log
    pub up : is_open (s'.clients i).client_fd ≡ true → is_open (s.clients i).client_fd ≡ true

  pub Spares-refl : (s : Server C2s) → Spares s s
  Spares-refl s = record { input = refl; workspace = refl; said = refl; up = λ h. h }

  pub Spares-trans : (a b c : Server C2s) → Spares a b → Spares b c → Spares a c
  Spares-trans a b c h k = record {
    input = k.input ∙ h.input;
    workspace = k.workspace ∙ h.workspace;
    said = k.said ∙ h.said;
    up = λ e. h.up (k.up e);
  }

  -- A write to the fields of a client, and calls.
  set_client-Spares :
      (j : ℕ) (v : ServerClient) (s : Server C2s) (w : World (ServerEvent C2s))
      → v.input ≡ (s.clients j).input
      → (is_open v.client_fd ≡ true → is_open (s.clients j).client_fd ≡ true)
      → given_from w.log ≡ given_from s.world.log
      → Spares s (record (set_client j v s) { world = w })
  unfolding set_client
  set_client-Spares j v s w same up said = record {
    input =
        if_cases (λ (c : ServerClient). c.input ≡ (s.clients i).input) (i == j) v (s.clients i)
          (λ k. same ∙ ap (λ (n : ℕ). (s.clients n).input) (sym (==→eq i j k))) (λ k. refl);
    workspace = refl;
    said = said;
    up =
        if_cases
          (λ (c : ServerClient).
            is_open c.client_fd ≡ true → is_open (s.clients i).client_fd ≡ true)
          (i == j) v (s.clients i)
          (λ k h. ap (λ (n : ℕ). is_open (s.clients n).client_fd) (==→eq i j k) ∙ up h) (λ k h. h);
  }

  free_items-said :
      (items : List OutputItem) (w : World (ServerEvent C2s))
      → given_from (free_items items w).log ≡ given_from w.log
  unfolding free_items note
  free_items-said [] w = refl
  free_items-said (item ∷ items) w = free_items-said items (note (Call.freed item.address) w)

  note_wrote-said :
      (fd : Fd) (bytes : List ℕ) (r : WriteReply) (log : List (Call (ServerEvent C2s)))
      → given_from (note_wrote fd bytes r log) ≡ given_from log
  note_wrote-said fd bytes (sent n) log = refl
  note_wrote-said fd bytes again log = refl
  note_wrote-said fd bytes failed log = refl

  write-said :
      (fd : Fd) (bytes : List ℕ) (w : World (ServerEvent C2s))
      → given_from (write fd bytes w).1.log ≡ given_from w.log
  unfolding write
  write-said none bytes w = refl
  write-said (some fd) bytes w = note_wrote-said (some fd) bytes (next_write w.writes) w.log

  note_allocated-said :
      (o : Option ℕ) (log : List (Call (ServerEvent C2s)))
      → given_from (note_allocated o log) ≡ given_from log
  note_allocated-said none log = refl
  note_allocated-said (some a) log = refl

  watch_out-said :
      (q : List OutputItem) (fd : Fd) (w : World (ServerEvent C2s))
      → given_from (watch_out q fd w).log ≡ given_from w.log
  unfolding server_epoll_ctl_mod note
  watch_out-said [] fd w = refl
  watch_out-said (x ∷ xs) fd w = refl

  append_item-Spares :
      (o : Option ℕ) (j : ℕ) (bytes : List ℕ) (s : Server C2s) → Spares s (append_item o j bytes s)
  unfolding append_item
  append_item-Spares none j bytes s = Spares-refl s
  append_item-Spares (some a) j bytes s =
      set_client-Spares j _ s _ refl (λ h. h)
        (watch_out-said (s.clients j).output (s.clients j).client_fd s.world)

  append-Spares :
      (j : ℕ) (bytes : List ℕ) (s : Server C2s) → Spares s (client_output_append j bytes s)
  unfolding client_output_append malloc
  append-Spares j bytes s =
      let s' : Server C2s = record s { world = (malloc s.world).1 } in
      Spares-trans s s' (append_item (malloc s.world).0 j bytes s')
        (record {
          input = refl;
          workspace = refl;
          said = note_allocated-said (s.world.fds 0) s.world.log;
          up = λ h. h;
        })
        (append_item-Spares (malloc s.world).0 j bytes s')

  free_client_output-Spares : (j : ℕ) (s : Server C2s) → Spares s (free_client_output j s)
  unfolding free_client_output
  free_client_output-Spares j s =
      set_client-Spares j _ s _ refl (λ h. h) (free_items-said (s.clients j).output s.world)

  disconnect_from-Spares : (fd : Fd) (j : ℕ) (s : Server C2s) → Spares s (disconnect_from fd j s)
  unfolding disconnect_from server_close_fd close note
  disconnect_from-Spares none j s = Spares-refl s
  disconnect_from-Spares (some fd) j s =
      let s1 : Server C2s = record s { world = server_close_fd (some fd) s.world } in
      let s2 = set_client j (record (s.clients j) { client_fd = none }) s1 in
      let s3 = free_client_output j s2 in
      let freed = free_client_output-Spares j s2 in
      Spares-trans s s2 (disconnect_from (some fd) j s)
        (set_client-Spares j (record (s.clients j) { client_fd = none }) s s1.world refl
          (λ h. absurd (cc)) refl)
        (record { input = freed.input; workspace = refl; said = freed.said; up = freed.up })

  pub disconnect-Spares : (j : ℕ) (s : Server C2s) → Spares s (client_pending_disconnect j s)
  unfolding client_pending_disconnect
  disconnect-Spares j s = disconnect_from-Spares (s.clients j).client_fd j s

  -- Whatever is written, and whomever it disconnects.
  pub Spares-Kept : (s0 : Server C2s) → Kept (Spares s0)
  unfolding write
  Spares-Kept s0 = record {
    by_write = λ j bytes s h. Spares-trans s0 s (wrote_to j bytes s) h (record {
      input = refl;
      workspace = refl;
      said = write-said (s.clients j).client_fd bytes s.world;
      up = λ e. e;
    });
    by_append = λ j bytes s h.
        Spares-trans s0 s (client_output_append j bytes s) h (append-Spares j bytes s);
    by_disconnect =
        λ j s h. Spares-trans s0 s (client_pending_disconnect j s) h (disconnect-Spares j s);
  }

  disconnect_from-closed :
      (fd : Fd) (s : Server C2s)
      → (s.clients i).client_fd ≡ fd
      → is_open ((disconnect_from fd i s).clients i).client_fd ≡ false
  unfolding disconnect_from free_client_output set_client
  disconnect_from-closed none s e = ap is_open e
  disconnect_from-closed (some fd) s e = rw (eq→== i i refl) refl

  -- A client has no descriptor once it is disconnected.
  pub disconnect-closed :
      (s : Server C2s) → is_open ((client_pending_disconnect i s).clients i).client_fd ≡ false
  unfolding client_pending_disconnect
  disconnect-closed s = disconnect_from-closed (s.clients i).client_fd s refl
