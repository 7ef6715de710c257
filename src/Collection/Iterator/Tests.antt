-- ===== src/Collection/Iterator/Tests.antt =====
-- Runs of the iterators of gcollection/queue.go.
use gokits.Prelude.{ℕ, ◌≡◌, refl, true, Option, none, some, List, [], ◌∷◌, ltb, arith}
use gokits.Collection.Deque.{Deque, new_deque, link_last, unlink_first, unlink_last, unlink}
use gokits.Prelude.Eq.{eq_of_nat}
use gokits.Collection.Api.{offers_last}
use gokits.Collection.Bounded.{answer}
use gokits.Collection.Calls.{call, to_slice, fill}
use gokits.Collection.Calls.Refine.{Represents, Refines}
use gokits.Collection.Calls.Answers.{call-Refines, new_deque-Represents}
use gokits.Collection.Iterator.{
  new_iterator, sweep, has_next, next_of, advance, succ, remove_last_ret,
}
use gokits.Collection.Iterator.Sweep.{unpicked, sweep_lem}

filled : List ℕ → Deque ℕ → Deque ℕ
filled [] q = q
filled (x ∷ xs) q = elim (link_last q x) [ none ↦ q | some (_, q') ↦ filled xs q' ]

slice_after : Option (List ℕ × Deque ℕ) → Option (List ℕ × Option (List (Option ℕ)))
slice_after none = none
slice_after (some (xs, q)) = some (xs, to_slice q)

-- From last to first over 5, 1, 7, 2, removing what is below 3.
sweep_back :
    slice_after (
      sweep 1
        (λ x. ltb x 3)
        9
        (filled (5 ∷ 1 ∷ 7 ∷ 2 ∷ []) (new_deque 4))
        (new_iterator (filled (5 ∷ 1 ∷ 7 ∷ 2 ∷ []) (new_deque 4)) true))
    ≡ some (2 ∷ 7 ∷ 1 ∷ 5 ∷ [], some (some 5 ∷ some 7 ∷ []))
unfolding slice_after filled sweep new_iterator has_next next_of advance succ remove_last_ret
    new_deque link_last unlink unlink_first unlink_last to_slice fill
sweep_back = refl

-- The deque of 5 and 2, with the items that it holds.
put_five :
    Refines {A = ℕ} 4
      (answer 4 [] (offers_last (some 5)))
      (call (new_deque 4) (offers_last (some 5)))
put_five = call-Refines 4 [] (new_deque 4) (offers_last (some 5)) (new_deque-Represents 4)

put_two :
    Refines {A = ℕ} 4
      (answer 4 (5 ∷ []) (offers_last (some 2)))
      (call put_five.after (offers_last (some 2)))
unfolding answer
put_two = call-Refines 4 (5 ∷ []) put_five.after (offers_last (some 2)) put_five.represents

sweep_lem_example :
    (q' : Deque ℕ) × (sweep 3 (λ x. ltb x 3) 2 put_two.after (new_iterator put_two.after true)
      ≡ some (2 ∷ 5 ∷ [], q'))
    × Represents 4 (5 ∷ []) q'
unfolding answer unpicked
sweep_lem_example =
    sweep_lem 2 4 (λ x. ltb x 3) true (5 ∷ 2 ∷ []) put_two.after 2 put_two.represents (omega arith)
