-- ===== src/Collection/Deque/Holds.antt =====
-- The representation invariant of the deque of gcollection/queue.go.
use gokits.Prelude.{ℕ, ◌≤◌, ◌≡◌, refl, none, some, [], ◌∷◌, arith, length}
use gokits.Collection.Deque.{Deque, new_deque}
use gokits.Collection.Deque.Cells.{Cells, head_addr, last_addr, Linked, Distinct, Below}

module _ {ℓ} {A : Type ℓ} where
  -- The fields describe a deque of these cells.
  pub record Holds (q : Deque A) (cs : Cells A) : Type ℓ where
    pub first_at : q.first ≡ head_addr cs none
    pub last_at : q.last ≡ last_addr none cs
    pub counted : q.count ≡ length cs
    pub fits : q.count ≤ q.capacity
    pub below : Below q.fresh cs
    pub distinct : Distinct cs
    pub linked : Linked q.nodes none cs none

  pub new_deque-Holds : (capacity : ℕ) → Holds (new_deque capacity) []
  unfolding new_deque
  new_deque-Holds capacity = ground arith

  -- Behind a first cell there is a last one.
  pub last_addr-some : (a : ℕ) (cs : Cells A) → (b : ℕ) × (last_addr (some a) cs ≡ some b)
  last_addr-some a [] = (a, refl)
  last_addr-some a ((b, x) ∷ cs) = last_addr-some b cs
