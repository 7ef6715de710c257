-- ===== src/Worker/Pool/Accounts.antt =====
-- gconcurrent/worker.go: where each job is, after any steps.
use gokits.Prelude.{ℕ, ◌+◌, ◌≡◌, refl, ap, Bool, List, [], ◌∷◌, ◌++◌, arith, if◌then◌else◌}
use gokits.Worker.Pool.{
  Job, job_of, Pool, new_pool, call, send, hand_over, time_out, receive, begin, finish, shut, leave,
  Step, calls, sends, hands_over, times_out, receives, begins, finishes, shuts, leaves, Reach, here,
  next,
}

module _ (f : Job → Bool) where
  -- The jobs of a list that pass a test.
  abbrev pub number : List Job → ℕ
  number [] = 0
  number (j ∷ js) = (if f j then 1 else 0) + number js

  pub number-append : (xs ys : List Job) → number (xs ++ ys) ≡ number xs + number ys
  number-append [] ys = omega arith
  number-append (x ∷ xs) ys = omega (arith, number-append xs ys)

  number-splice :
      (xs ys : List Job) (x : Job) → number (xs ++ (x ∷ ys)) ≡ number (xs ++ ys) + number (x ∷ [])
  number-splice xs ys x = omega (arith, number-append xs (x ∷ ys), number-append xs ys)

  -- Of the jobs that pass the test, as many were sent as wait in the queue, are received, run and are
  -- done together.
  unfoldable pub IsAccounted : Pool → Type 0
  IsAccounted p =
      number p.sent ≡ number p.queue + number p.received + number p.running + number p.done

  module _ (max size : ℕ) where
    step-IsAccounted : {p q : Pool} → IsAccounted p → Step max size p q → IsAccounted q
    unfolding IsAccounted call send hand_over time_out receive begin finish shut leave
    step-IsAccounted h (calls s) = h
    step-IsAccounted {p} h (sends before after s opened e few) =
        omega
          (arith, h, number-append p.sent (job_of s ∷ []), number-append p.queue (job_of s ∷ []))
    step-IsAccounted {p} h (hands_over before after s opened e empty idle) =
        omega (arith, h, number-append p.sent (job_of s ∷ []))
    step-IsAccounted h (times_out before after j e) = h
    step-IsAccounted {p} h (receives j queue e idle) = omega (arith, h, ap number e)
    step-IsAccounted {p} h (begins before after j e) =
        omega (arith, h, ap number e, number-splice before after j)
    step-IsAccounted {p} h (finishes before after (name, panics) e) =
        let j : Job = (name, panics) in
        omega (arith, h, ap number e, number-splice before after j, number-append p.done (j ∷ []))
    step-IsAccounted h (shuts opened) = h
    step-IsAccounted h (leaves was_shut empty idle) = h

    pub reach-IsAccounted : {p q : Pool} → IsAccounted p → Reach max size p q → IsAccounted q
    reach-IsAccounted h here = h
    reach-IsAccounted h (next r s) = step-IsAccounted (reach-IsAccounted h r) s

    pub pool-IsAccounted : (init : ℕ) (p : Pool) → Reach max size (new_pool init) p → IsAccounted p
    unfolding IsAccounted new_pool
    pool-IsAccounted init p r = reach-IsAccounted refl r
