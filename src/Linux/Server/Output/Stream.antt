-- ===== src/Linux/Server/Output/Stream.antt =====
-- The order of the bytes that messi/c_source/templates/linux/server.c writes to a client.
use messi.Base.{
  none-some, ℕ, ap₂, ◌≡◌, refl, sym, ap, ◌∙◌, List, [], ◌∷◌, ◌++◌, append-nil, append_assoc, true,
  Option, some, none, ◌==◌, eq→==, take, length,
}
use messi.Kernel.{
  note_allocated, next_write, later_writes, Call, Fd, World, wrote, note_wrote, write, malloc, note,
}
use messi.Kernel.Counts.{written}
use messi.Linux.Server.State.{
  Server, ServerClient, ServerEvent, OutputItem, set_client, client_pending_disconnect,
  disconnect_from, free_client_output, server_epoll_ctl_mod,
}
use messi.Linux.Server.Output.{item_bytes, watch_out, append_item, client_output_append}

-- The bytes that wait in a queue.
abbrev pub queued : List OutputItem → List ℕ
queued [] = []
queued (item ∷ items) = item_bytes item ++ queued items

queued-append : (xs ys : List OutputItem) → queued (xs ++ ys) ≡ queued xs ++ queued ys
queued-append [] ys = refl
queued-append (x ∷ xs) ys =
    ap (◌++◌ (item_bytes x)) (queued-append xs ys)
    ∙ sym (append_assoc (item_bytes x) (queued xs) (queued ys))

pub take-length : (xs : List ℕ) → take (length xs) xs ≡ xs
take-length [] = refl
take-length (x ∷ xs) = ap (◌∷◌ x) (take-length xs)

queued_item :
    (a : ℕ) (bytes : List ℕ) (items : List OutputItem)
    → queued (items ++ record { address = a; offset = 0; size = length bytes; bytes = bytes } ∷ [])
      ≡ queued items ++ bytes
queued_item a bytes items =
    queued-append items
      (record { address = a; offset = 0; size = length bytes; bytes = bytes } ∷ [])
    ∙ ap (◌++◌ (queued items)) (append-nil (take (length bytes) bytes) ∙ take-length bytes)

pub same : (i : ℕ) → (i == i) ≡ true
same i = eq→== i i refl

pub written_wrote :
    {E : Type 0} (fd : ℕ) (bytes : List ℕ) (log : List (Call E))
    → written fd (wrote (some fd) bytes ∷ log) ≡ written fd log ++ bytes
written_wrote fd bytes log = rw (same fd)

-- What a `write` to a descriptor other than -1 does.
module _ {E : Type 0} (fd : ℕ) (bytes : List ℕ) (w : World E) where
  pub write_fds : (f : Fd) → (write f bytes w).1.fds ≡ w.fds
  unfolding write
  write_fds none = refl
  write_fds (some g) = refl

  pub write_answers : (f : Fd) → f ≡ some fd → (write f bytes w).1.writes ≡ later_writes w.writes
  unfolding write
  write_answers none h = absurd (none-some h)
  write_answers (some g) h = refl

  pub write_reply_lem : (f : Fd) → f ≡ some fd → (write f bytes w).0 ≡ next_write w.writes
  unfolding write
  write_reply_lem none h = absurd (none-some h)
  write_reply_lem (some g) h = refl

  pub write_log :
      (f : Fd)
      → f ≡ some fd
      → (write f bytes w).1.log ≡ note_wrote (some fd) bytes (write f bytes w).0 w.log
  unfolding write
  write_log none h = absurd (none-some h)
  write_log (some g) h = ap (λ f. note_wrote f bytes (next_write w.writes) w.log) h

module _ {C2s : Type 0} where
  pub set_client_at : (i : ℕ) (v : ServerClient) (s : Server C2s) → (set_client i v s).clients i ≡ v
  unfolding set_client
  set_client_at i v s = rw (same i)

  -- What the client at this descriptor gets: what was written to it and what waits.
  abbrev pub stream : (fd i : ℕ) → Server C2s → List ℕ
  stream fd i s = written fd s.world.log ++ queued (s.clients i).output

  disconnect_from-fd :
      (f : Fd) (i : ℕ) (s : Server C2s)
      → (s.clients i).client_fd ≡ f
      → ((disconnect_from f i s).clients i).client_fd ≡ none
  unfolding disconnect_from free_client_output set_client
  disconnect_from-fd none i s e = e
  disconnect_from-fd (some f) i s e = rw (same i)

  pub pending-fd :
      (i : ℕ) (s : Server C2s) → ((client_pending_disconnect i s).clients i).client_fd ≡ none
  unfolding client_pending_disconnect
  pending-fd i s = disconnect_from-fd (s.clients i).client_fd i s refl

  watch_out-written :
      (fd : ℕ) (items : List OutputItem) (f : Fd) (w : World (ServerEvent C2s))
      → written fd (watch_out items f w).log ≡ written fd w.log
  unfolding server_epoll_ctl_mod note
  watch_out-written fd [] f w = refl
  watch_out-written fd (x ∷ items) f w = refl

  append_item-stream :
      (fd a i : ℕ) (bytes : List ℕ) (s : Server C2s)
      → stream fd i (append_item (some a) i bytes s) ≡ stream fd i s ++ bytes
  unfolding append_item set_client
  append_item-stream fd a i bytes s =
      ap₂ (◌++◌ {A = ℕ}) (watch_out-written fd (s.clients i).output (s.clients i).client_fd s.world)
        ((rw (same i)) ∙ queued_item a bytes (s.clients i).output)
      ∙ sym (append_assoc (written fd s.world.log) (queued (s.clients i).output) bytes)

  module _ (fd a i : ℕ) where
    append_to-stream :
        (o : Option ℕ) (bytes : List ℕ) (s : Server C2s) (w : World (ServerEvent C2s))
        → o ≡ some a
        → written fd w.log ≡ written fd s.world.log
        → stream fd i (append_item o i bytes (record s { world = w })) ≡ stream fd i s ++ bytes
    append_to-stream none bytes s w h e = absurd (none-some h)
    append_to-stream (some x) bytes s w h e =
        append_item-stream fd x i bytes (record s { world = w })
        ∙ ap (λ (t : List ℕ). (t ++ queued (s.clients i).output) ++ bytes) e

    allocated-written :
        (o : Option ℕ) (log : List (Call (ServerEvent C2s)))
        → written fd (note_allocated o log) ≡ written fd log
    allocated-written none log = refl
    allocated-written (some x) log = refl

    pub client_output_append-stream :
        (bytes : List ℕ) (s : Server C2s)
        → s.world.fds 0 ≡ some a
        → stream fd i (client_output_append i bytes s) ≡ stream fd i s ++ bytes
    unfolding client_output_append malloc
    client_output_append-stream bytes s m =
        append_to-stream (s.world.fds 0) bytes s (malloc s.world).1 m
          (allocated-written (s.world.fds 0) s.world.log)
