-- ===== src/Collection/Api.antt =====
-- gcollection/queue.go: what a caller can ask of a deque without waiting, and what it gets back.
use gokits.Prelude.{ℕ, Bool, Option, List}

-- The two errors of `AddFirst` and `AddLast`.
pub data Error : Type 0 where
  e_is_nil deque_full : Error

pub data Call {ℓ} (A : Type ℓ) : Type ℓ where
  offers_first offers_last adds_first adds_last removes_first removes_last : Option A → Call A
  polls_first polls_last peeks_first peeks_last sizes slices : Call A

pub data Reply {ℓ} (A : Type ℓ) : Type ℓ where
  accepted : Bool → Reply A
  added : Option Error → Reply A
  item : Option A → Reply A
  number : ℕ → Reply A
  slice : List (Option A) → Reply A
