-- ===== src/Linux/Server/Links/Moves.antt =====
-- The operations on the three lists of messi/c_source/templates/linux/server.c against what they mean:
-- each moves one client from one list to the front of another.
use messi.Base.{ℕ, ◌≡◌, refl, sym, ◌∙◌, subst, List, ◌∷◌, true, false, some, arith}
use messi.Linux.Server.Links.{
  Ptr, Links, update, remove_client_from_list, free_connected_client,
  move_client_to_pending_disconnect_list,
}
use messi.Linux.Server.Links.Chains.{
  has, without, Chain, BackedList, Distinct, Apart, Chain-update, Chain-same, has-without,
  Distinct-without, without_self,
}
use messi.Linux.Server.Links.Unlink.{has-same}
use messi.Linux.Server.Links.Remove.{Removed, remove_client_from_list-Removed}

-- The pointers stand for three lists of clients that share none: the connected ones, doubly linked,
-- the free ones, and those with a disconnect pending.
pub record Lists (l : Links) (cs fs ps : List ℕ) : Type 0 where
  pub connected : Chain l.next_p l.connected_list_p cs
  pub free : Chain l.next_p l.free_list_p fs
  pub pending : Chain l.next_p l.pending_disconnect_list_p ps
  pub backed : BackedList l.prev_p cs
  pub distinct_c : Distinct cs
  pub distinct_f : Distinct fs
  pub distinct_p : Distinct ps
  pub apart_cf : Apart cs fs
  pub apart_cp : Apart cs ps
  pub apart_fp : Apart fs ps
  pub sound : l.fault ≡ false

pub Apart-not : (a : ℕ) (xs ys : List ℕ) → Apart xs ys → has a ys ≡ true → has a xs ≡ false
Apart-not a xs ys d i = ground (arith, d a)

-- The member of one list moves to the front of another one.
pub Apart-tail : (c : ℕ) (xs ys : List ℕ) → Apart xs (c ∷ ys) → Apart xs ys
Apart-tail c xs ys d = λ a i. ground (arith, d a i)

pub Apart-cons : (c : ℕ) (xs ys : List ℕ) → Apart xs ys → has c ys ≡ false → Apart (c ∷ xs) ys
Apart-cons c xs ys d out = λ a i. ground (arith, d a, has-same a c ys)

update_self : (next : ℕ → Ptr) (c : ℕ) (v : Ptr) → update next c v c ≡ v
unfolding update
update_self next c v = ground arith

-- The written `next_p` field leads on into the list that the client is put in front of.
pub Chain-front :
    (next : ℕ → Ptr) (c : ℕ) (head : Ptr) (xs : List ℕ)
    → has c xs ≡ false
    → Chain next head xs
    → Chain (update next c head) (some c) (c ∷ xs)
Chain-front next c head xs out ch = (
  refl,
  subst (λ h. Chain (update next c head) h xs) (sym (update_self next c head))
      (Chain-update next c head head xs out ch),
)

Apart-without : (c : ℕ) (cs xs : List ℕ) → Distinct cs → Apart cs xs → Apart (without c cs) (c ∷ xs)
Apart-without c cs xs d ap_cx = λ a h.
    ground (arith, has-without a c cs, ap_cx a, without_self c cs d, has-same a c (without c cs))

pub Apart-front : (c : ℕ) (xs ys : List ℕ) → Apart xs ys → has c xs ≡ false → Apart xs (c ∷ ys)
Apart-front c xs ys d out = λ a h. ground (arith, d a, has-same a c xs)

-- A client was taken out of the connected list: the links are `l1` and the list's head is `head`.
module _ (l : Links) (c : ℕ) (cs fs ps : List ℕ) (v : Lists l cs fs ps) (i : has c cs ≡ true)
    (head : Ptr) (l1 : Links) (r : Removed l c cs head l1) where
  Chain-other :
      (h h' : Ptr) (xs : List ℕ)
      → Apart cs xs
      → h' ≡ h
      → Chain l.next_p h xs
      → Chain l1.next_p h' xs
  Chain-other h h' xs apart e ch =
      subst (λ k. Chain l1.next_p k xs) (sym e)
        (Chain-same l.next_p l1.next_p h xs (λ a m. r.next_same a (Apart-not a cs xs apart m)) ch)

  to_pending :
      Lists
        (record l1 {
          connected_list_p = head;
          next_p = update l1.next_p c l1.pending_disconnect_list_p;
          pending_disconnect_list_p = some c;
        })
        (without c cs)
        fs
        (c ∷ ps)
  to_pending = record {
    connected =
        Chain-update l1.next_p c l1.pending_disconnect_list_p head (without c cs)
          (without_self c cs v.distinct_c) r.chain;
    free =
        Chain-update l1.next_p c l1.pending_disconnect_list_p l1.free_list_p fs (v.apart_cf c i)
          (Chain-other l.free_list_p l1.free_list_p fs v.apart_cf r.free_same v.free);
    pending = Chain-front l1.next_p c l1.pending_disconnect_list_p ps (v.apart_cp c i) (
        Chain-other l.pending_disconnect_list_p l1.pending_disconnect_list_p ps v.apart_cp
          r.pending_same v.pending);
    backed = r.backed;
    distinct_c = Distinct-without c cs v.distinct_c;
    distinct_f = v.distinct_f;
    distinct_p = (v.apart_cp c i, v.distinct_p);
    apart_cf = λ a h. v.apart_cf a (has-without a c cs h);
    apart_cp = Apart-without c cs ps v.distinct_c v.apart_cp;
    apart_fp = Apart-front c fs ps v.apart_fp (v.apart_cf c i);
    sound = r.fault_same ∙ v.sound;
  }

  to_free :
      Lists
        (record l1 {
          connected_list_p = head;
          next_p = update l1.next_p c l1.free_list_p;
          free_list_p = some c;
        })
        (without c cs)
        (c ∷ fs)
        ps
  to_free = record {
    connected =
        Chain-update l1.next_p c l1.free_list_p head (without c cs) (without_self c cs v.distinct_c)
          r.chain;
    free =
        Chain-front l1.next_p c l1.free_list_p fs (v.apart_cf c i)
          (Chain-other l.free_list_p l1.free_list_p fs v.apart_cf r.free_same v.free);
    pending =
        Chain-update l1.next_p c l1.free_list_p l1.pending_disconnect_list_p ps (v.apart_cp c i) (
          Chain-other l.pending_disconnect_list_p l1.pending_disconnect_list_p ps v.apart_cp
            r.pending_same v.pending);
    backed = r.backed;
    distinct_c = Distinct-without c cs v.distinct_c;
    distinct_f = (v.apart_cf c i, v.distinct_f);
    distinct_p = v.distinct_p;
    apart_cf = Apart-without c cs fs v.distinct_c v.apart_cf;
    apart_cp = λ a h. v.apart_cp a (has-without a c cs h);
    apart_fp = Apart-cons c fs ps v.apart_fp (v.apart_cp c i);
    sound = r.fault_same ∙ v.sound;
  }

module _ (l : Links) (c : ℕ) (cs fs ps : List ℕ) (v : Lists l cs fs ps) (i : has c cs ≡ true) where
  -- `move_client_to_pending_disconnect_list` takes a connected client, wherever it stands in its list,
  -- out of it and puts it in front of those with a disconnect pending. The other clients keep their
  -- lists and their order, the lists share no client, and no pointer is NULL where a field is reached.
  pub move_client_to_pending_disconnect_list-Lists :
      Lists (move_client_to_pending_disconnect_list c l) (without c cs) fs (c ∷ ps)
  unfolding move_client_to_pending_disconnect_list
  move_client_to_pending_disconnect_list-Lists =
      to_pending l c cs fs ps v i (remove_client_from_list l.connected_list_p c l).0
        (remove_client_from_list l.connected_list_p c l).1
        (remove_client_from_list-Removed l c l.connected_list_p cs v.connected v.distinct_c v.backed
          i)

  -- `free_connected_client` moves a connected client from the connected ones to the front of the free
  -- ones; the other clients keep their lists and their order.
  pub free_connected_client-Lists : Lists (free_connected_client c l) (without c cs) (c ∷ fs) ps
  unfolding free_connected_client
  free_connected_client-Lists =
      to_free l c cs fs ps v i (remove_client_from_list l.connected_list_p c l).0
        (remove_client_from_list l.connected_list_p c l).1
        (remove_client_from_list-Removed l c l.connected_list_p cs v.connected v.distinct_c v.backed
          i)
