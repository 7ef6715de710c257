-- ===== src/Collection/Tests.antt =====
-- Runs of the deque of gcollection/queue.go over numbers.
use gokits.Prelude.{ℕ, ◌≡◌, refl, true, false, none, some, List, [], ◌∷◌}
use gokits.Prelude.Eq.{eq_of_nat}
use gokits.Collection.Api.{
  Call, offers_first, offers_last, adds_last, removes_first, removes_last, polls_first, polls_last,
  peeks_last, sizes, slices, accepted, added, item, number, slice,
}
use gokits.Collection.Bounded.{answer, answers}
use gokits.Collection.Deque.{new_deque, link_first, link_last, unlink_first, unlink_last, unlink}
use gokits.Collection.Calls.{
  call, calls, offer_first, offer_last, add_last, poll_first, poll_last, peek_last, size, to_slice,
  fill, find_node, remove_first_occurrence, remove_last_occurrence,
}
use gokits.Collection.Calls.Refine.{Refines}
use gokits.Collection.Calls.Answers.{new_deque-Represents, call-Refines, calls_refine}

abbrev script : List (Call ℕ)
script =
    offers_first (some 5)
    ∷ offers_last (some 7)
    ∷ adds_last (some 5)
    ∷ offers_last (some 9)
    ∷ slices
    ∷ removes_last (some 5)
    ∷ slices
    ∷ adds_last (some 8)
    ∷ removes_first (some 7)
    ∷ peeks_last
    ∷ polls_last
    ∷ polls_first
    ∷ polls_first
    ∷ sizes
    ∷ []

run_script :
    calls (new_deque 3) script
    ≡ some (
        accepted true
        ∷ accepted true
        ∷ added none
        ∷ accepted false
        ∷ slice (some 5 ∷ some 7 ∷ some 5 ∷ [])
        ∷ accepted true
        ∷ slice (some 5 ∷ some 7 ∷ [])
        ∷ added none
        ∷ accepted true
        ∷ item (some 8)
        ∷ item (some 8)
        ∷ item (some 5)
        ∷ item none
        ∷ number 0
        ∷ [])
unfolding calls call offer_first offer_last add_last poll_first poll_last peek_last size to_slice
    fill find_node remove_first_occurrence remove_last_occurrence new_deque link_first link_last
    unlink_first unlink_last unlink
run_script = refl

call-Refines_example :
    Refines {A = ℕ} 3
      (answer 3 [] (offers_first (some 5)))
      (call (new_deque 3) (offers_first (some 5)))
call-Refines_example =
    call-Refines 3 [] (new_deque 3) (offers_first (some 5)) (new_deque-Represents 3)

calls_refine_example : calls (new_deque 3) script ≡ some (answers 3 [] script)
calls_refine_example = calls_refine 3 script
