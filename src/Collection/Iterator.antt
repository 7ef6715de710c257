-- ===== src/Collection/Iterator.antt =====
-- gcollection/queue.go and iterator.go: the iterators of the deque. The loop of `succ` follows the
-- links of removed nodes too, so it has fuel; a result `none` is a panic or a loop without end.
pub mod Position
pub mod Sweep
mod Tests
use gokits.Prelude.{
  ℕ, zero, suc, Bool, true, false, Option, none, some, List, [], ◌∷◌, ◌==◌, if◌then◌else◌,
}
use gokits.Collection.Heap.{Node, Nodes}
use gokits.Collection.Deque.{Deque, unlink}
use gokits.Collection.Calls.{item_at}

-- `LinkedBlockingDequeIterator`, without the deque that it points to.
pub record Iterator {ℓ} (A : Type ℓ) : Type ℓ where
  pub next : Option ℕ
  pub next_item : Option A
  pub last_ret : Option ℕ
  pub desc : Bool

module _ {ℓ} {A : Type ℓ} where
  abbrev pub first_node : Bool → Deque A → Option ℕ
  first_node desc q = if desc then q.last else q.first

  abbrev pub next_node : Bool → Node A → Option ℕ
  next_node desc node = if desc then node.prev else node.next

  pub new_iterator : Deque A → Bool → Iterator A
  new_iterator q desc =
      let next = first_node desc q in
      record { next = next; next_item = item_at q.nodes next; last_ret = none; desc = desc }

  pub has_next : Iterator A → Bool
  has_next it = elim it.next [ none ↦ false | some _ ↦ true ]

  -- The loop of `succ`.
  pub succ : ℕ → Bool → Deque A → ℕ → Option (Option ℕ)
  succ zero desc q n = none
  succ (suc fuel) desc q n = elim (next_node desc (q.nodes n)) [
    | none ↦ some none
    | some s ↦ elim (q.nodes s).item [
      | some _ ↦ some (some s)
      | none ↦ elim (s == n) [ true ↦ some (first_node desc q) | false ↦ succ fuel desc q s ]
    ]
  ]

  moved : Deque A → Iterator A → Option (Option ℕ) → Option (Iterator A)
  moved q it none = none
  moved q it (some next) = some (record it { next = next; next_item = item_at q.nodes next })

  -- `advance`, which follows a nil pointer if there is no next node.
  pub advance : ℕ → Deque A → Iterator A → Option (Iterator A)
  unfolding moved
  advance fuel q it = elim it.next [ none ↦ none | some n ↦ moved q it (succ fuel it.desc q n) ]

  -- `Next`
  pub next_of : ℕ → Deque A → Iterator A → Option (Option A × Iterator A)
  next_of fuel q it = elim it.next [
    | none ↦ some (none, it)
    | some n ↦ elim (advance fuel q (record it { last_ret = some n })) [
      | none ↦ none
      | some it' ↦ some (it.next_item, it')
    ]
  ]

  -- `Remove`
  pub remove_last_ret : Deque A → Iterator A → Option (Deque A × Iterator A)
  remove_last_ret q it =
      let it' = record it { last_ret = none } in
      elim it.last_ret [
        | none ↦ none
        | some n ↦ elim (q.nodes n).item [ none ↦ some (q, it') | some _ ↦ some (unlink q n, it') ]
      ]

  -- The walk of a caller, one item more.
  abbrev pub seen : A → Option (List A × Deque A) → Option (List A × Deque A)
  seen x none = none
  seen x (some (xs, q)) = some (x ∷ xs, q)

  abbrev pub removing : Bool → Deque A → Iterator A → Option (Deque A × Iterator A)
  removing true q it = remove_last_ret q it
  removing false q it = some (q, it)

  -- A caller that goes on while `HasNext`, for so many rounds at most, and removes what `p` picks;
  -- with the items that it saw.
  unfoldable pub sweep : ℕ → (A → Bool) → ℕ → Deque A → Iterator A → Option (List A × Deque A)
  sweep fuel p zero q it = some ([], q)
  sweep fuel p (suc n) q it = elim (has_next it) [
    | false ↦ some ([], q)
    | true ↦ elim (next_of fuel q it) [
      | none ↦ none
      | some (none, it') ↦ none
      | some (some x, it') ↦ elim (removing (p x) q it') [
        | none ↦ none
        | some (q', it'') ↦ seen x (sweep fuel p n q' it'')
      ]
    ]
  ]
