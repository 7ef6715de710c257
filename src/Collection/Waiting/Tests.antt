-- ===== src/Collection/Waiting/Tests.antt =====
-- Runs of the waiting methods of gcollection/queue.go.
use gokits.Prelude.{ℕ, ◌≡◌, refl, true, false, Option, none, some, List, [], ◌∷◌, arith}
use gokits.Prelude.Eq.{eq_of_nat}
use gokits.Collection.Api.{offers_last}
use gokits.Collection.Deque.{Deque, new_deque, link_first, link_last, unlink_first}
use gokits.Collection.Calls.{call, offer_last}
use gokits.Collection.Calls.Refine.{Represents}
use gokits.Collection.Calls.Answers.{new_deque-Represents}
use gokits.Collection.Waiting.{
  Round, Outcome, got, waiting, takes_first, puts_first, puts_last, polls_first_with_context, block,
  others, take_loop, poll_loop,
}
use gokits.Collection.Waiting.Refine.{Agrees, block_list, block-Agrees}
use gokits.Collection.Waiting.Outcomes.{Ends, block-Ends, put_ignores_context}

-- The first wait ends with nothing there, the second with an item that another put in.
abbrev twice : List (Round ℕ)
twice =
    record { ctx_done = false; meanwhile = []; interrupted = false }
    ∷ record { ctx_done = true; meanwhile = offers_last (some 7) ∷ []; interrupted = true }
    ∷ []

taken : Option (Outcome ℕ × Deque ℕ) → Option (Outcome ℕ)
taken none = none
taken (some (o, q)) = some o

take_after_wait : taken (block twice (new_deque 1) takes_first) ≡ some (got (some 7) false)
unfolding taken block take_loop others call offer_last new_deque link_first link_last unlink_first
take_after_wait = refl

poll_gives_up : taken (block twice (new_deque 1) polls_first_with_context) ≡ some (got none false)
unfolding taken block poll_loop others call offer_last new_deque link_first link_last unlink_first
poll_gives_up = refl

block-Agrees_example :
    Agrees {A = ℕ} 1 (block_list 1 twice [] takes_first) (block twice (new_deque 1) takes_first)
block-Agrees_example = block-Agrees 1 [] (new_deque 1) twice takes_first (new_deque-Represents 1)

block-Ends_example :
    (o : Outcome ℕ) × (ys : List ℕ) × (q' : Deque ℕ) × (block twice (new_deque 1) takes_first
      ≡ some (o, q'))
    × Represents 1 ys q'
    × Ends 1 twice takes_first o ys
block-Ends_example = block-Ends 1 [] (new_deque 1) twice takes_first (new_deque-Represents 1)

abbrev done_rounds : List (Round ℕ)
done_rounds =
    record { ctx_done = true; meanwhile = []; interrupted = false }
    ∷ record { ctx_done = true; meanwhile = []; interrupted = true }
    ∷ []

put_ignores_context_example :
    (block done_rounds (new_deque 0) (puts_first (some 3)) ≡ some (waiting, new_deque 0))
    × (block done_rounds (new_deque 0) (puts_last (some 3)) ≡ some (waiting, new_deque 0))
unfolding new_deque
put_ignores_context_example =
    put_ignores_context (new_deque 0) 3 done_rounds (omega arith) (refl, (refl, tt))
