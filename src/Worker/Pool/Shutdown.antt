-- ===== src/Worker/Pool/Shutdown.antt =====
-- gconcurrent/worker.go: the pool after Shutdown has closed the queue.
use gokits.Prelude.{
  ℕ, zero, suc, ◌+◌, ◌≤◌, ◌<◌, ==_iff, ◌≡◌, refl, sym, ap, ◌∙◌, Bool, true, false, List, [], ◌∷◌,
  ◌++◌, length, length-append, arith,
}
use gokits.Worker.Pool.{
  Job, Sender, executes, submits, Pool, new_pool, call, send, time_out, receive, begin, finish,
  shut, leave, check_no_active, Step, calls, sends, hands_over, times_out, receives, begins,
  finishes, shuts, leaves, Reach, here, next,
}
use gokits.Worker.Pool.Holds.{pool-Holds}
use gokits.Worker.Pool.Accounts.{number, IsAccounted, reach-IsAccounted, pool-IsAccounted}

-- The calls of `Execute` that wait to send.
unfoldable pub executing : List Sender → ℕ
executing [] = 0
executing (executes j ∷ ss) = executing ss + 1
executing (submits j ∷ ss) = executing ss

executing-splice :
    (before after : List Sender) (j : Job)
    → executing (before ++ (submits j ∷ after)) ≡ executing (before ++ after)
unfolding executing
executing-splice [] after j = refl
executing-splice (executes i ∷ before) after j = ap (λ n. n + 1) (executing-splice before after j)
executing-splice (submits i ∷ before) after j = executing-splice before after j

-- What stays so after `Shutdown`.
abbrev Stays : Pool → Pool → Type 0
Stays p q = (q.closed ≡ true) × (q.sent ≡ p.sent) × (executing p.senders ≤ executing q.senders)

module _ (max size : ℕ) where
  step-Stays : {p q : Pool} → p.closed ≡ true → Step max size p q → Stays p q
  unfolding call time_out receive begin finish leave executing
  step-Stays closed (calls (executes j)) = (closed, refl, omega arith)
  step-Stays closed (calls (submits j)) = (closed, refl, omega arith)
  step-Stays closed (sends before after s opened e few) = absurd (cc)
  step-Stays closed (hands_over before after s opened e empty idle) = absurd (cc)
  step-Stays closed (times_out before after j e) =
      (closed, refl, omega (arith, ap executing e, executing-splice before after j))
  step-Stays closed (receives j queue e idle) = (closed, refl, omega arith)
  step-Stays closed (begins before after j e) = (closed, refl, omega arith)
  step-Stays closed (finishes before after (name, panics) e) = (closed, refl, omega arith)
  step-Stays closed (shuts opened) = absurd (cc)
  step-Stays closed (leaves was_shut empty idle) = (closed, refl, omega arith)

  reach-Stays : {p q : Pool} → p.closed ≡ true → Reach max size p q → Stays p q
  reach-Stays closed here = (closed, refl, omega arith)
  reach-Stays closed (next r s) =
      let (still, same, more) = reach-Stays closed r in
      let (still', same', more') = step-Stays still s in
      (still', same' ∙ same, omega (arith, more, more'))

  -- After `Shutdown` of a pool that has been used in any way, whatever is called: no job is sent any
  -- more; each job that was sent before, as often as it was, waits in the queue, is received, runs or
  -- is done, in every later state; and a call of `Execute` that waits then never goes on. The jobs are
  -- counted by any test of them.
  pub shutdown_final :
      (init : ℕ) (f : Job → Bool) {p q r : Pool}
      → Reach max size (new_pool init) p
      → Reach max size (shut p) q
      → Reach max size q r
      → (r.sent ≡ p.sent)
        × (number f p.sent
            ≡ number f r.queue + number f r.received + number f r.running + number f r.done)
        × (executing q.senders ≤ executing r.senders)
  unfolding shut IsAccounted
  shutdown_final init f {p} {q} {r} used until_q until_r =
      let (closed, same, more) = reach-Stays refl until_q in
      let (closed', same', more') = reach-Stays closed until_r in
      let before : IsAccounted f (shut p) = pool-IsAccounted f max size init p used in
      let at_q : IsAccounted f q = reach-IsAccounted f max size before until_q in
      let at_r : IsAccounted f r = reach-IsAccounted f max size at_q until_r in
      (same' ∙ same, ap (number f) (sym (same' ∙ same)) ∙ at_r, more')

  -- When a worker of a new pool has ended and no worker has a job, every job that was sent is done, as
  -- often as it was sent, and no other: those that the queue held at `Shutdown` too. The jobs are
  -- counted by any test of them.
  pub shutdown_drains :
      (init : ℕ) (f : Job → Bool) (p : Pool)
      → Reach max size (new_pool init) p
      → 0 < p.ended
      → p.received ≡ []
      → p.running ≡ []
      → (p.queue ≡ []) × (number f p.done ≡ number f p.sent)
  unfolding IsAccounted
  shutdown_drains init f p r some_ended no_received no_running =
      let h = pool-Holds max size init p r in
      let accounts : IsAccounted f p = pool-IsAccounted f max size init p r in
      let empty = h.drained some_ended in
      (
        empty,
        omega (
          arith,
          accounts,
          ap (number f) empty,
          ap (number f) no_received,
          ap (number f) no_running,
        ),
      )

  -- The pool after calls of `Execute`, before any worker looks at the queue.
  filled :
      (init n : ℕ)
      → n ≤ size
      → (p : Pool) × Reach max size (new_pool init) p
        × (p.closed ≡ false)
        × (p.senders ≡ [])
        × (p.running ≡ [])
        × (p.done ≡ [])
        × (length p.queue ≡ n)
  unfolding new_pool call send
  filled init zero h = (new_pool init, here, refl, refl, refl, refl, refl)
  filled init (suc n) h =
      let (p, r, opened, no_senders, idle, undone, sized) = filled init n (omega (arith, h)) in
      let s = executes (n, false) in
      let asked = next r (calls s) in
      (
        send (n, false) [] (call max s p),
        next asked (sends [] [] s opened (ap (λ l. s ∷ l) no_senders) (omega (arith, h, sized))),
        opened,
        refl,
        idle,
        undone,
        omega (arith, sized, length-append p.queue ((n, false) ∷ [])),
      )

  -- `Shutdown` may return with as many jobs left in the queue as it holds: it looks only at the count
  -- of jobs that run, and a worker raises it after it has received one.
  pub shutdown_early :
      (init n : ℕ)
      → n ≤ size
      → (p : Pool) × Reach max size (new_pool init) p
        × (p.closed ≡ true)
        × (check_no_active p ≡ true)
        × (length p.queue ≡ n)
        × (p.done ≡ [])
  unfolding shut
  shutdown_early init n h =
      let (p, r, opened, no_senders, idle, undone, sized) = filled init n h in
      let holds = pool-Holds max size init p r in
      let none_active : p.stats.active_num ≡ 0 = omega (arith, holds.active, ap length idle) in
      (
        shut p,
        next r (shuts opened),
        refl,
        (==_iff p.stats.active_num 0).1 none_active,
        sized,
        undone,
      )
