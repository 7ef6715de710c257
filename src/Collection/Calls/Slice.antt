-- ===== src/Collection/Calls/Slice.antt =====
-- The loop of `ToSlice` in gcollection/queue.go.
use mathlib.Core.List.{append_assoc}
use gokits.Prelude.{
  ℕ, zero, suc, ◌+◌, ◌<◌, ◌≡◌, refl, ap, Option, none, some, List, [], ◌∷◌, ◌++◌, map, arith,
  length, length-append, set, replicate,
}
use gokits.Collection.Heap.{Nodes}
use gokits.Collection.Deque.Cells.{Cells, items, head_addr, Linked}
use gokits.Collection.Calls.{fill}

module _ {ℓ} {A : Type ℓ} where
  set-append :
      (xs ys : List A) (y v : A) → set (xs ++ (y ∷ ys)) (length xs) v ≡ (xs ++ (v ∷ [])) ++ ys
  set-append [] ys y v = refl
  set-append (x ∷ xs) ys y v = ap (◌∷◌ x) (set-append xs ys y v)

module _ {ℓ} {A : Type ℓ} where
  fill-some :
      (fuel : ℕ) (h : Nodes A) (p k : ℕ) (a : List (Option A))
      → k < length a
      → fill (suc fuel) h (some p) k a ≡ fill fuel h (h p).next (k + 1) (set a k (h p).item)
  unfolding fill
  fill-some fuel h p k a less = ground arith

  -- The loop stays within the slice, ends, and writes the items of the cells in order.
  pub fill-Linked :
      (fuel : ℕ) (h : Nodes A) (p : Option ℕ) (cs : Cells A) (xs : List (Option A))
      → length cs < fuel
      → Linked h p cs none
      → fill fuel h (head_addr cs none) (length xs) (xs ++ replicate (length cs) none)
        ≡ some (xs ++ map some (items cs))
  unfolding fill
  fill-Linked zero h p cs xs less l = absurd (omega arith)
  fill-Linked (suc fuel) h p [] xs less l = refl
  fill-Linked (suc fuel) h p ((a, x) ∷ cs) xs less l =
      let blank = replicate (length cs) none in
      let room = length-append xs (none ∷ blank) in
      let ys = xs ++ (some x ∷ []) in
      let next : length xs + 1 ≡ length ys = omega (arith, length-append xs (some x ∷ [])) in
      rw
        (
          fill-some fuel h a (length xs) (xs ++ (none ∷ blank)) (omega (arith, room)),
          l.0,
          l.2,
          set-append xs blank none (some x),
          next,
          fill-Linked fuel h (some a) cs ys (omega arith) l.3,
        )
        (ap some (append_assoc xs (some x ∷ []) (map some (items cs))))
