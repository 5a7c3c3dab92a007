-- ===== src/Linux/Server/Output.antt =====
-- The bytes to a client: `client_output_append`, `client_write` and `process_client_socket_out` of
-- messi/c_source/templates/linux/server.c.
pub mod Stream
pub mod Write
pub mod Flush
pub mod DoubleFree
pub mod Moves
use messi.Base.{
  ℕ, ◌+◌, ◌-◌, List, [], ◌∷◌, ◌++◌, Bool, true, false, Option, none, some, ◌==◌, ltb, if◌then◌else◌,
  length, take, drop,
}
use messi.Kernel.{
  Round, go_on, leave, Fd, World, WriteReply, sent, again, failed, freed, note, write, malloc,
}
use messi.Linux.Server.State.{
  OutputItem, ServerClient, Server, ServerEvent, set_client, server_epoll_ctl_mod,
  client_pending_disconnect,
}

-- `&item_p->data[item_p->offset]`, for `item_p->size` bytes.
abbrev pub item_bytes : OutputItem → List ℕ
item_bytes item = take item.size (drop item.offset item.bytes)

module _ {C2s : Type 0} where
  -- With an empty queue the client is also watched for writing.
  abbrev pub watch_out : List OutputItem → Fd → World (ServerEvent C2s) → World (ServerEvent C2s)
  watch_out [] fd w = server_epoll_ctl_mod fd true w
  watch_out (item ∷ items) fd w = w

  -- With the result of `malloc`.
  unfoldable pub append_item : Option ℕ → ℕ → List ℕ → Server C2s → Server C2s
  unfolding set_client server_epoll_ctl_mod
  append_item none i bytes s = s
  append_item (some a) i bytes s =
      let c = s.clients i in
      let item : OutputItem = record {
        address = a;
        offset = 0;
        size = length bytes;
        bytes = bytes;
      } in
      let s' = set_client i (record c { output = c.output ++ item ∷ [] }) s in
      record s' { world = watch_out c.output c.client_fd s.world }

  unfoldable pub client_output_append : ℕ → List ℕ → Server C2s → Server C2s
  unfolding append_item
  client_output_append i bytes s =
      let (address, w) = malloc s.world in append_item address i bytes (record s { world = w })

  -- One round of the loop of `client_write`, with the result of `write`: the bytes that are left.
  unfoldable pub write_round : WriteReply → ℕ → List ℕ → Server C2s → Round (List ℕ × Server C2s)
  unfolding client_output_append
  write_round (sent n) i bytes s =
      if n == length bytes
      then leave ([], s)
      else if ltb 0 n
      then go_on (drop n bytes, s)
      else leave ([], client_pending_disconnect i s)
  write_round again i bytes s = leave ([], client_output_append i bytes s)
  write_round failed i bytes s = leave ([], client_pending_disconnect i s)

  -- `write` to the client's socket.
  abbrev pub wrote_to : ℕ → List ℕ → Server C2s → Server C2s
  wrote_to i bytes s = record s { world = (write (s.clients i).client_fd bytes s.world).1 }

  abbrev pub write_reply : ℕ → List ℕ → Server C2s → WriteReply
  write_reply i bytes s = (write (s.clients i).client_fd bytes s.world).0

  -- The loop runs over the answers that the coming writes get.
  unfoldable pub client_write_loop : List WriteReply → ℕ → List ℕ → Server C2s → Server C2s
  unfolding write_round
  client_write_loop ws i [] s = s
  client_write_loop [] i (b ∷ bs) s =
      elim (write_round (write_reply i (b ∷ bs) s) i (b ∷ bs) (wrote_to i (b ∷ bs) s)) [
        | go_on r ↦ r.1
        | leave r ↦ r.1
      ]
  client_write_loop (w ∷ ws) i (b ∷ bs) s =
      elim (write_round (write_reply i (b ∷ bs) s) i (b ∷ bs) (wrote_to i (b ∷ bs) s)) [
        | go_on r ↦ client_write_loop ws i r.0 r.1
        | leave r ↦ r.1
      ]

  -- Behind a queue that is not empty the bytes wait their turn.
  unfoldable pub write_behind : List OutputItem → ℕ → List ℕ → Server C2s → Server C2s
  unfolding client_write_loop client_output_append
  write_behind [] i bytes s = client_write_loop s.world.writes i bytes s
  write_behind (item ∷ items) i bytes s = client_output_append i bytes s

  unfoldable pub client_write : ℕ → List ℕ → Server C2s → Server C2s
  unfolding write_behind
  client_write i bytes s = write_behind (s.clients i).output i bytes s

  -- One round of the loop of `process_client_socket_out`: the items from `item_p` on.
  unfoldable pub out_round :
      WriteReply
      → ℕ
      → OutputItem
      → List OutputItem
      → Server C2s
      → Round (List OutputItem × Server C2s)
  out_round (sent n) i item items s =
      if n == item.size
      then go_on (items, record s { world = note (freed item.address) s.world })
      else if ltb 0 n
      then go_on (record item { offset = item.offset + n; size = item.size - n } ∷ items, s)
      else leave (item ∷ items, client_pending_disconnect i s)
  out_round again i item items s = leave (item ∷ items, s)
  out_round failed i item items s = leave (item ∷ items, client_pending_disconnect i s)

  unfoldable pub out_loop :
      List WriteReply → ℕ → List OutputItem → Server C2s → List OutputItem × Server C2s
  unfolding out_round
  out_loop ws i [] s = ([], s)
  out_loop [] i (item ∷ items) s =
      let bytes = item_bytes item in
      elim (out_round (write_reply i bytes s) i item items (wrote_to i bytes s)) [
        | go_on r ↦ r
        | leave r ↦ r
      ]
  out_loop (w ∷ ws) i (item ∷ items) s =
      let bytes = item_bytes item in
      elim (out_round (write_reply i bytes s) i item items (wrote_to i bytes s)) [
        | go_on r ↦ out_loop ws i r.0 r.1
        | leave r ↦ r
      ]

  -- `client_p->output.head_p = item_p`, and no more watching for writing once the queue is empty.
  unfoldable pub end_of_out : ℕ → List OutputItem → Server C2s → Server C2s
  unfolding set_client server_epoll_ctl_mod
  end_of_out i [] s =
      let s' = set_client i (record (s.clients i) { output = [] }) s in
      record s' { world = server_epoll_ctl_mod (s.clients i).client_fd false s.world }
  end_of_out i (item ∷ items) s = set_client i (record (s.clients i) { output = item ∷ items }) s

  unfoldable pub process_client_socket_out : ℕ → Server C2s → Server C2s
  unfolding out_loop end_of_out
  process_client_socket_out i s =
      let (items, s') = out_loop s.world.writes i (s.clients i).output s in end_of_out i items s'
