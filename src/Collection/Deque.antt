-- ===== src/Collection/Deque.antt =====
-- gcollection/queue.go, LinkedBlockingDeque: the operations that run under the lock. A result `none`
-- is a panic on a nil pointer. `count` is reduced only where a node is taken out, so it is not 0.
pub mod Cells
pub mod Links
pub mod Holds
pub mod Link
pub mod Unlink
pub mod Remove
use gokits.Prelude.{
  ℕ, ◌+◌, ◌-◌, Bool, true, false, Option, none, some, List, [], ◌∷◌, ltb, if◌then◌else◌,
}
use gokits.Collection.Heap.{Node, Nodes, update, new_node, write_item, write_prev, write_next}

-- The two conditions that the code signals.
pub data Signal : Type 0 where
  not_empty not_full : Signal

-- `LinkedBlockingDeque`: `fresh` is the address of the next node, `signals` the calls of
-- `notEmpty.Signal` and `notFull.Signal`, newest first.
pub record Deque {ℓ} (A : Type ℓ) : Type ℓ where
  pub nodes : Nodes A
  pub fresh : ℕ
  pub first : Option ℕ
  pub last : Option ℕ
  pub count : ℕ
  pub capacity : ℕ
  pub signals : List Signal

module _ {ℓ} {A : Type ℓ} where
  -- `NewDeque`, for a capacity that is not negative (it panics otherwise).
  unfoldable pub new_deque : ℕ → Deque A
  new_deque capacity = record {
    nodes = λ _. record { item = none; prev = none; next = none };
    fresh = 0;
    first = none;
    last = none;
    count = 0;
    capacity = capacity;
    signals = [];
  }

  -- A node more, and the signal for it.
  abbrev added : Deque A → Deque A
  added q = record q { count = q.count + 1; fresh = q.fresh + 1; signals = not_empty ∷ q.signals }

  -- A node fewer, and the signal for it.
  abbrev removed : Deque A → Deque A
  removed q = record q { count = q.count - 1; signals = not_full ∷ q.signals }

  -- `f.prev = x`
  set_prev : Option ℕ → ℕ → Deque A → Option (Deque A)
  set_prev none x q = none
  set_prev (some f) x q = some (record q { nodes = write_prev q.nodes f (some x) })

  -- `l.next = x`
  set_next : Option ℕ → ℕ → Deque A → Option (Deque A)
  set_next none x q = none
  set_next (some l) x q = some (record q { nodes = write_next q.nodes l (some x) })

  done_true : Option (Deque A) → Option (Bool × Deque A)
  done_true none = none
  done_true (some q) = some (true, added q)

  unfoldable pub link_first : Deque A → A → Option (Bool × Deque A)
  unfolding set_prev done_true
  link_first q e =
      let x = q.fresh in
      let q' = record q { nodes = update q.nodes x (new_node e none q.first); first = some x } in
      if ltb q.count q.capacity
      then elim q.last [
        | none ↦ done_true (some (record q' { last = some x }))
        | some _ ↦ done_true (set_prev q.first x q')
      ]
      else some (false, q)

  unfoldable pub link_last : Deque A → A → Option (Bool × Deque A)
  unfolding set_next done_true
  link_last q e =
      let x = q.fresh in
      let q' = record q { nodes = update q.nodes x (new_node e q.last none); last = some x } in
      if ltb q.count q.capacity
      then elim q.first [
        | none ↦ done_true (some (record q' { first = some x }))
        | some _ ↦ done_true (set_next q.last x q')
      ]
      else some (false, q)

  -- The links once the first node is cut off: `n` is its successor.
  cut_first : Deque A → Option ℕ → Deque A
  cut_first q none = record q { first = none; last = none }
  cut_first q (some n) = record q { first = some n; nodes = write_prev q.nodes n none }

  cut_last : Deque A → Option ℕ → Deque A
  cut_last q none = record q { first = none; last = none }
  cut_last q (some p) = record q { last = some p; nodes = write_next q.nodes p none }

  unfoldable pub unlink_first : Deque A → Option A × Deque A
  unfolding cut_first
  unlink_first q = elim q.first [
    | none ↦ (none, q)
    | some f ↦
        let node = q.nodes f in
        let cleared = write_next (write_item q.nodes f none) f (some f) in
        (node.item, removed (cut_first (record q { nodes = cleared }) node.next))
  ]

  unfoldable pub unlink_last : Deque A → Option A × Deque A
  unfolding cut_last
  unlink_last q = elim q.last [
    | none ↦ (none, q)
    | some l ↦
        let node = q.nodes l in
        let cleared = write_prev (write_item q.nodes l none) l (some l) in
        (node.item, removed (cut_last (record q { nodes = cleared }) node.prev))
  ]

  -- `unlink` of a node between `p` and `n`.
  unlink_between : Deque A → ℕ → ℕ → ℕ → Deque A
  unlink_between q p x n =
      let joined = write_prev (write_next q.nodes p (some n)) n (some p) in
      removed (record q { nodes = write_item joined x none })

  unlink_at : Deque A → ℕ → Option ℕ → Option ℕ → Deque A
  unfolding unlink_between unlink_first unlink_last
  unlink_at q x none n = (unlink_first q).1
  unlink_at q x (some p) none = (unlink_last q).1
  unlink_at q x (some p) (some n) = unlink_between q p x n

  unfoldable pub unlink : Deque A → ℕ → Deque A
  unfolding unlink_at
  unlink q x = let node = q.nodes x in unlink_at q x node.prev node.next
