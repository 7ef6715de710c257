-- ===== src/Collection/Calls.antt =====
-- gcollection/queue.go: the methods of LinkedBlockingDeque that do not wait. Each holds the lock from
-- its first access to its last, so one call is one step. An `interface{}` is an option, nil is `none`.
-- A result `none` is a panic (nil pointer, index) or a loop that has not ended after `count + 1` rounds.
pub mod Search
pub mod Slice
pub mod Refine
pub mod Take
pub mod Answers
use gokits.Prelude.{
  ℕ, zero, suc, ◌+◌, Bool, true, false, Option, none, some, List, [], ◌∷◌, length, set, replicate,
  ltb, if◌then◌else◌,
}
use gokits.Prelude.Eq.{Eq, ◌==◌}
use gokits.Collection.Api.{
  Error, e_is_nil, deque_full, Call, offers_first, offers_last, adds_first, adds_last,
  removes_first, removes_last, polls_first, polls_last, peeks_first, peeks_last, sizes, slices,
  Reply, accepted, added, item, number, slice,
}
use gokits.Collection.Heap.{Node, Nodes}
use gokits.Collection.Deque.{Deque, link_first, link_last, unlink_first, unlink_last, unlink}

module _ {ℓ} {A : Type ℓ} where
  unfoldable pub offer_first : Deque A → Option A → Option (Bool × Deque A)
  offer_first q none = some (false, q)
  offer_first q (some e) = link_first q e

  unfoldable pub offer_last : Deque A → Option A → Option (Bool × Deque A)
  offer_last q none = some (false, q)
  offer_last q (some e) = link_last q e

  -- The error of `AddFirst` and `AddLast`, nil if the offer was accepted.
  abbrev offered : Option (Bool × Deque A) → Option (Option Error × Deque A)
  offered none = none
  offered (some (ok, q)) = some (if ok then none else some deque_full, q)

  pub add_first : Deque A → Option A → Option (Option Error × Deque A)
  add_first q none = some (some e_is_nil, q)
  add_first q (some e) = offered (offer_first q (some e))

  unfoldable pub add_last : Deque A → Option A → Option (Option Error × Deque A)
  add_last q none = some (some e_is_nil, q)
  add_last q (some e) = offered (offer_last q (some e))

  unfoldable pub poll_first : Deque A → Option A × Deque A
  poll_first q = unlink_first q

  unfoldable pub poll_last : Deque A → Option A × Deque A
  poll_last q = unlink_last q

  -- The item at a pointer, nil at the nil pointer.
  abbrev pub item_at : Nodes A → Option ℕ → Option A
  item_at h none = none
  item_at h (some a) = (h a).item

  pub peek_first : Deque A → Option A
  peek_first q = item_at q.nodes q.first

  unfoldable pub peek_last : Deque A → Option A
  peek_last q = item_at q.nodes q.last

  unfoldable pub size : Deque A → ℕ
  size q = q.count

  -- The loop of `ToSlice` from the pointer `p` and the index `k` on.
  unfoldable pub fill : ℕ → Nodes A → Option ℕ → ℕ → List (Option A) → Option (List (Option A))
  fill zero h p k a = none
  fill (suc fuel) h none k a = some a
  fill (suc fuel) h (some p) k a =
      let rest = fill fuel h (h p).next (k + 1) (set a k (h p).item) in
      if ltb k (length a) then rest else none

  unfoldable pub to_slice : Deque A → Option (List (Option A))
  to_slice q = fill (suc q.count) q.nodes q.first 0 (replicate q.count none)

  -- What a method returns, as a reply; `none` is a panic or a loop without end.
  reply {κ} : {B : Type κ} → (B → Reply A) → Option (B × Deque A) → Option (Reply A × Deque A)
  reply f none = none
  reply f (some (b, q)) = some (f b, q)

module _ {ℓ} {A : Type ℓ} ⦃e : Eq A⦄ where
  -- `item == p.item`
  abbrev pub same_item : A → Option A → Bool
  same_item i none = false
  same_item i (some x) = i == x

  -- The search loop of `RemoveFirstOccurrence` (`link` is `next`) and `RemoveLastOccurrence` (`prev`).
  unfoldable pub find_node : (Node A → Option ℕ) → ℕ → Nodes A → A → Option ℕ → Option (Option ℕ)
  find_node link zero h i p = none
  find_node link (suc fuel) h i none = some none
  find_node link (suc fuel) h i (some p) =
      let rest = find_node link fuel h i (link (h p)) in
      if same_item i (h p).item then some (some p) else rest

  abbrev unlink_found : Deque A → Option (Option ℕ) → Option (Bool × Deque A)
  unlink_found q none = none
  unlink_found q (some none) = some (false, q)
  unlink_found q (some (some p)) = some (true, unlink q p)

  unfoldable pub remove_first_occurrence : Deque A → Option A → Option (Bool × Deque A)
  remove_first_occurrence q none = some (false, q)
  remove_first_occurrence q (some i) =
      unlink_found q (find_node (λ n. n.next) (suc q.count) q.nodes i q.first)

  unfoldable pub remove_last_occurrence : Deque A → Option A → Option (Bool × Deque A)
  remove_last_occurrence q none = some (false, q)
  remove_last_occurrence q (some i) =
      unlink_found q (find_node (λ n. n.prev) (suc q.count) q.nodes i q.last)

  unfoldable pub call : Deque A → Call A → Option (Reply A × Deque A)
  unfolding reply
  call q (offers_first i) = reply accepted (offer_first q i)
  call q (offers_last i) = reply accepted (offer_last q i)
  call q (adds_first i) = reply added (add_first q i)
  call q (adds_last i) = reply added (add_last q i)
  call q (removes_first i) = reply accepted (remove_first_occurrence q i)
  call q (removes_last i) = reply accepted (remove_last_occurrence q i)
  call q polls_first = reply item (some (poll_first q))
  call q polls_last = reply item (some (poll_last q))
  call q peeks_first = some (item (peek_first q), q)
  call q peeks_last = some (item (peek_last q), q)
  call q sizes = some (number (size q), q)
  call q slices = elim (to_slice q) [ none ↦ none | some a ↦ some (slice a, q) ]

  -- Calls one after the other, as the lock orders them.
  unfoldable pub calls : Deque A → List (Call A) → Option (List (Reply A))
  calls q [] = some []
  calls q (c ∷ cs) = elim (call q c) [
    | none ↦ none
    | some (r, q') ↦ elim (calls q' cs) [ none ↦ none | some rs ↦ some (r ∷ rs) ]
  ]
