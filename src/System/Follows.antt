-- ===== src/System/Follows.antt =====
-- What sending to a client of messi/c_source/templates/linux/server.c leaves alone.
use messi.Base.{
  none-some, ℕ, suc, ◌≡◌, refl, sym, ap, ◌∙◌, List, [], ◌∷◌, true, false, Option, none, some,
}
use messi.Kernel.{Fd, World, close, malloc, note, freed}
use messi.Linux.Server.State.{
  Server, ServerClient, ServerEvent, OutputItem, set_client, free_items, free_client_output,
  server_close_fd, server_epoll_ctl_mod, disconnect_from, client_pending_disconnect,
}
use messi.Linux.Server.Output.{watch_out, append_item, client_output_append, end_of_out}
use messi.Linux.Server.Output.Stream.{same, write_fds}
use messi.Linux.Server.Rules.{KeptAt}
use messi.Linux.Server.Rules.Out.{OutKept}
use messi.Linux.Server.Spares.{is_open}

-- Every coming allocation succeeds.
abbrev pub HasMemory : {C2s : Type 0} → Server C2s → Type 0
HasMemory s = (n : ℕ) → is_open (s.world.fds n) ≡ true

module _ {C2s : Type 0} (i : ℕ) where
  -- What writing leaves alone: the memory that is left, and the descriptor of the client unless it is
  -- closed.
  pub record Follows (s s' : Server C2s) : Type 0 where
    pub fd : (f : ℕ) → (s'.clients i).client_fd ≡ some f → (s.clients i).client_fd ≡ some f
    pub memory : HasMemory s → HasMemory s'
    pub room : s'.encoded_out_size ≡ s.encoded_out_size

  pub Follows-trans : (a b c : Server C2s) → Follows a b → Follows b c → Follows a c
  Follows-trans a b c h k = record {
    fd = λ f e. h.fd f (k.fd f e);
    memory = λ m. k.memory (h.memory m);
    room = k.room ∙ h.room;
  }

  set_client-fd :
      (v : ServerClient) (s : Server C2s)
      → v.client_fd ≡ (s.clients i).client_fd
      → ((set_client i v s).clients i).client_fd ≡ (s.clients i).client_fd
  unfolding set_client
  set_client-fd v s e = rw (same i) e

  -- A write to the fields of the client but its descriptor, and calls that take no memory.
  set_client-Follows :
      (v : ServerClient) (s : Server C2s) (w : World (ServerEvent C2s))
      → v.client_fd ≡ (s.clients i).client_fd
      → w.fds ≡ s.world.fds
      → Follows s (record (set_client i v s) { world = w })
  unfolding set_client
  set_client-Follows v s w e kept = record {
    fd = λ f k. sym (set_client-fd v s e) ∙ k;
    memory = λ m n. ap (λ (g : ℕ → Fd). is_open (g n)) kept ∙ m n;
    room = refl;
  }

  watch_out-fds :
      (q : List OutputItem) (fd : Fd) (w : World (ServerEvent C2s)) → (watch_out q fd w).fds ≡ w.fds
  unfolding server_epoll_ctl_mod note
  watch_out-fds [] fd w = refl
  watch_out-fds (x ∷ xs) fd w = refl

  append_item-Follows :
      (o : Option ℕ) (bytes : List ℕ) (s : Server C2s) → Follows s (append_item o i bytes s)
  unfolding append_item
  append_item-Follows none bytes s = record { fd = λ f e. e; memory = λ m. m; room = refl }
  append_item-Follows (some a) bytes s =
      set_client-Follows _ s _ refl
        (watch_out-fds (s.clients i).output (s.clients i).client_fd s.world)

  append-Follows : (bytes : List ℕ) (s : Server C2s) → Follows s (client_output_append i bytes s)
  unfolding client_output_append malloc
  append-Follows bytes s =
      let s' : Server C2s = record s { world = (malloc s.world).1 } in
      Follows-trans s s' (append_item (malloc s.world).0 i bytes s')
        (record { fd = λ f e. e; memory = λ m n. m (suc n); room = refl })
        (append_item-Follows (malloc s.world).0 bytes s')

  free_items-fds :
      (items : List OutputItem) (w : World (ServerEvent C2s)) → (free_items items w).fds ≡ w.fds
  unfolding free_items note
  free_items-fds [] w = refl
  free_items-fds (x ∷ xs) w = free_items-fds xs (note (freed x.address) w)

  disconnect_from-Follows : (fd : Fd) (s : Server C2s) → Follows s (disconnect_from fd i s)
  unfolding disconnect_from free_client_output server_close_fd close note set_client
  disconnect_from-Follows none s = record { fd = λ f e. e; memory = λ m. m; room = refl }
  disconnect_from-Follows (some fd) s =
      let w = server_close_fd (some fd) s.world in
      let s2 = set_client i (record (s.clients i) { client_fd = none }) (record s { world = w }) in
      let closed : ((disconnect_from (some fd) i s).clients i).client_fd ≡ none =
        rw (same i) refl in
      record {
        fd = λ f e. absurd (none-some (sym closed ∙ e));
        memory = λ m n.
            ap (λ (g : ℕ → Fd). is_open (g n)) (free_items-fds (s2.clients i).output w) ∙ m n;
        room = refl;
      }

  end_of_out-Follows : (items : List OutputItem) (s : Server C2s) → Follows s (end_of_out i items s)
  unfolding end_of_out server_epoll_ctl_mod note
  end_of_out-Follows [] s =
      set_client-Follows (record (s.clients i) { output = [] }) s
        (server_epoll_ctl_mod (s.clients i).client_fd false s.world) refl refl
  end_of_out-Follows (x ∷ xs) s =
      set_client-Follows (record (s.clients i) { output = x ∷ xs }) s s.world refl refl

  pub Follows-KeptAt : (a : Server C2s) → KeptAt i (Follows a)
  unfolding client_pending_disconnect
  Follows-KeptAt a = record {
    by_write = λ bytes s h. Follows-trans a s _ h (record {
      fd = λ f e. e;
      memory = λ m n.
          ap (λ (g : ℕ → Fd). is_open (g n)) (write_fds 0 bytes s.world (s.clients i).client_fd)
          ∙ m n;
      room = refl;
    });
    by_append = λ bytes s h. Follows-trans a s _ h (append-Follows bytes s);
    by_disconnect =
        λ s h. Follows-trans a s _ h (disconnect_from-Follows (s.clients i).client_fd s);
  }

  pub Follows-OutKept : (a : Server C2s) → OutKept i (Follows a)
  unfolding note
  Follows-OutKept a = record {
    client = Follows-KeptAt a;
    by_free = λ x s h. record { fd = h.fd; memory = h.memory; room = h.room };
    by_end = λ items s h. Follows-trans a s _ h (end_of_out-Follows items s);
  }

  pub Follows-refl : (s : Server C2s) → Follows s s
  Follows-refl s = record { fd = λ f e. e; memory = λ m. m; room = refl }
