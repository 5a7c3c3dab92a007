-- ===== src/Linux/Server/Links.antt =====
-- The three linked lists of clients of messi/c_source/templates/linux/server.c, on a heap. A client is
-- its index in the caller's array `clients_p`; each pointer field is a map from clients.
pub mod Chains
pub mod Unlink
pub mod Remove
pub mod Moves
pub mod Alloc
pub mod Pending
pub mod Tests
use messi.Base.{ℕ, Bool, true, false, Option, none, some, ◌==◌, if◌then◌else◌}

-- `struct NAME_server_client_t *`; `none` is NULL.
abbrev pub Ptr : Type 0
Ptr = Option ℕ

pub record Links : Type 0 where
  pub next_p : ℕ → Ptr
  pub prev_p : ℕ → Ptr
  pub connected_list_p : Ptr
  pub free_list_p : Ptr
  pub pending_disconnect_list_p : Ptr
  -- a field was reached through NULL
  pub fault : Bool

unfoldable pub update : (ℕ → Ptr) → ℕ → Ptr → ℕ → Ptr
update f p v a = if a == p then v else f a

-- `client_p == list_p`
abbrev pub is_at : ℕ → Ptr → Bool
is_at c none = false
is_at c (some x) = c == x

-- `p->next_p = v`
unfoldable pub set_next : Ptr → Ptr → Links → Links
unfolding update
set_next none v l = record l { fault = true }
set_next (some p) v l = record l { next_p = update l.next_p p v }

-- `if (p != NULL) { p->prev_p = v; }`
unfoldable pub set_prev_if : Ptr → Ptr → Links → Links
unfolding update
set_prev_if none v l = l
set_prev_if (some p) v l = record l { prev_p = update l.prev_p p v }

-- With the client that heads the free list.
unfoldable pub alloc_from : Ptr → Links → Ptr × Links
unfolding update set_prev_if
alloc_from none l = (none, l)
alloc_from (some c) l =
    let l1 = record l { free_list_p = l.next_p c } in
    let l2 = record l1 { next_p = update l1.next_p c l1.connected_list_p } in
    let l3 = set_prev_if l2.connected_list_p (some c) l2 in
    (some c, record l3 { connected_list_p = some c })

unfoldable pub alloc_client : Links → Ptr × Links
unfolding alloc_from
alloc_client l = alloc_from l.free_list_p l

-- `remove_client_from_list(&head, client_p)`: the new head, and the links.
unfoldable pub remove_client_from_list : Ptr → ℕ → Links → Ptr × Links
unfolding set_next set_prev_if
remove_client_from_list head c l =
    let l1 = if is_at c head then l else set_next (l.prev_p c) (l.next_p c) l in
    let l2 = set_prev_if (l1.next_p c) (l1.prev_p c) l1 in
    (if is_at c head then l.next_p c else head, l2)

-- "Add to free list."
unfoldable pub add_to_free : ℕ → Links → Links
unfolding update
add_to_free c l = record l { next_p = update l.next_p c l.free_list_p; free_list_p = some c }

unfoldable pub free_connected_client : ℕ → Links → Links
unfolding remove_client_from_list add_to_free
free_connected_client c l =
    let (head, l1) = remove_client_from_list l.connected_list_p c l in
    add_to_free c (record l1 { connected_list_p = head })

unfoldable pub free_pending_disconnect_client : ℕ → Links → Links
unfolding remove_client_from_list add_to_free
free_pending_disconnect_client c l =
    let (head, l1) = remove_client_from_list l.pending_disconnect_list_p c l in
    add_to_free c (record l1 { pending_disconnect_list_p = head })

unfoldable pub move_client_to_pending_disconnect_list : ℕ → Links → Links
unfolding remove_client_from_list update
move_client_to_pending_disconnect_list c l =
    let (head, l1) = remove_client_from_list l.connected_list_p c l in
    let l2 = record l1 { connected_list_p = head } in
    record l2 {
      next_p = update l2.next_p c l2.pending_disconnect_list_p;
      pending_disconnect_list_p = some c;
    }
