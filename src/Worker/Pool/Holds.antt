-- ===== src/Worker/Pool/Holds.antt =====
-- gconcurrent/worker.go: what holds of the pool after any steps.
use mathlib.Core.List.{append_assoc, append-nil}
use gokits.Prelude.{
  ℕ, zero, suc, ◌+◌, ◌%◌, ◌^◌, ◌≤◌, ◌<◌, ◌≡◌, refl, sym, ap, ◌∙◌, true, false, Bool-cases,
  Option-cases, inl, inr, List, [], ◌∷◌, ◌++◌, length, length-append, arith,
}
use gokits.Worker.{WpStats, inc, run, read_full, grow, inc_worker}
use gokits.Worker.Pool.{
  Job, Sender, job_of, Pool, started, no_stats, new_pool, call, send, hand_over, time_out, receive,
  begin, finish, shut, leave, Step, calls, sends, hands_over, times_out, receives, begins, finishes,
  shuts, leaves, Reach, here, next,
}

pub record Holds (size : ℕ) (p : Pool) : Type 0 where
  -- The jobs are received in the order in which they were sent, and the others wait in that order.
  pub in_order : p.sent ≡ p.taken ++ p.queue
  pub room : length p.queue ≤ size
  -- A job that was received is counted, runs or is done.
  pub kept : length p.taken ≡ length p.received + length p.running + length p.done
  pub active : p.stats.active_num ≡ length p.running % 2 ^ 32
  pub executed : p.stats.execute_num ≡ (length p.running + length p.done) % 2 ^ 32
  -- Every goroutine that was started is counted.
  pub workers :
      p.stats.worker_num
      ≡ (p.waiting + length p.received + length p.running + p.ended + p.stuck) % 2 ^ 32
  -- A worker ends, or waits for ever, only after `Shutdown`, and ends only at an empty queue.
  pub before_shutdown : p.closed ≡ false → (p.ended ≡ 0) × (p.stuck ≡ 0)
  pub drained : 0 < p.ended → p.queue ≡ []

run_only :
    (n : ℕ) (s : WpStats)
    → ((run n s).active_num ≡ s.active_num)
      × ((run n s).execute_num ≡ s.execute_num)
      × ((run n s).panic_num ≡ s.panic_num)
unfolding run
run_only zero s = (refl, refl, refl)
run_only (suc n) s = run_only n (record s { worker_num = inc s.worker_num })

worker_num-run :
    (n k : ℕ) (s : WpStats) → s.worker_num ≡ k % 2 ^ 32 → (run n s).worker_num ≡ (k + n) % 2 ^ 32
unfolding run
worker_num-run zero k s h = omega (arith, h)
worker_num-run (suc n) k s h =
    let s' = record s { worker_num = inc s.worker_num } in
    omega (arith, worker_num-run n (k + 1) s' (omega (arith, h)))

inc_worker_lem : (max : ℕ) (s : WpStats) → inc_worker max s ≡ run (started max s) s
unfolding inc_worker grow started run
inc_worker_lem max s = elim (Option-cases (read_full max s)) [
  | inl e ↦ rw (e, grow, started) refl
  | inr (w, e) ↦ rw (e, grow, started) refl
]

length-splice :
    {A : Type 0} (xs ys : List A) (x : A) → length (xs ++ (x ∷ ys)) ≡ length (xs ++ ys) + 1
length-splice xs ys x = omega (arith, length-append xs (x ∷ ys), length-append xs ys)

new_pool-Holds : (init size : ℕ) → Holds size (new_pool init)
unfolding new_pool
new_pool-Holds init size =
    let (active, executed, panicked) = run_only init no_stats in
    record {
      in_order = refl;
      room = omega arith;
      kept = omega arith;
      active = omega (arith, active);
      executed = omega (arith, executed);
      workers = omega (arith, worker_num-run init 0 no_stats (omega arith));
      before_shutdown = λ _. (refl, refl);
      drained = λ _. refl;
    }

module _ (max size : ℕ) where
  call-Holds : (s : Sender) (p : Pool) → Holds size p → Holds size (call max s p)
  unfolding call
  call-Holds s p h =
      let n = started max p.stats in
      let k = p.waiting + length p.received + length p.running + p.ended + p.stuck in
      let (active, executed, panicked) = run_only n p.stats in
      let more = worker_num-run n k p.stats h.workers in
      rw (inc_worker_lem max p.stats) (record {
        in_order = h.in_order;
        room = h.room;
        kept = h.kept;
        active = active ∙ h.active;
        executed = executed ∙ h.executed;
        workers = elim (Bool-cases p.closed) [
          | inl e ↦ rw e (omega (arith, more))
          | inr e ↦ rw e (omega (arith, more))
        ];
        before_shutdown = λ e. rw e (h.before_shutdown e);
        drained = h.drained;
      })

  send-Holds :
      (j : Job) (senders : List Sender) (p : Pool)
      → p.closed ≡ false
      → length p.queue < size
      → Holds size p
      → Holds size (send j senders p)
  unfolding send
  send-Holds j senders p opened few h = record {
    in_order = ap (λ l. l ++ (j ∷ [])) h.in_order ∙ append_assoc p.taken p.queue (j ∷ []);
    room = omega (arith, length-append p.queue (j ∷ []));
    kept = h.kept;
    active = h.active;
    executed = h.executed;
    workers = h.workers;
    before_shutdown = h.before_shutdown;
    drained = λ e. absurd (omega (arith, e, (h.before_shutdown opened).0));
  }

  hand_over-Holds :
      (j : Job) (senders : List Sender) (p : Pool)
      → p.closed ≡ false
      → p.queue ≡ []
      → 0 < p.waiting
      → Holds size p
      → Holds size (hand_over j senders p)
  unfolding hand_over
  hand_over-Holds j senders p opened empty idle h = record {
    in_order = rw empty (
        ap (λ l. l ++ (j ∷ [])) (h.in_order ∙ rw empty (append-nil p.taken))
        ∙ sym (append-nil (p.taken ++ (j ∷ []))));
    room = h.room;
    kept = omega (arith, h.kept, length-append p.taken (j ∷ []));
    active = h.active;
    executed = h.executed;
    workers = omega (arith, h.workers, idle);
    before_shutdown = h.before_shutdown;
    drained = h.drained;
  }

  receive-Holds :
      (j : Job) (queue : List Job) (p : Pool)
      → p.queue ≡ j ∷ queue
      → 0 < p.waiting
      → Holds size p
      → Holds size (receive j queue p)
  unfolding receive
  receive-Holds j queue p e idle h = record {
    in_order = h.in_order ∙ rw e (sym (append_assoc p.taken (j ∷ []) queue));
    room = omega (arith, h.room, ap length e);
    kept = omega (arith, h.kept, length-append p.taken (j ∷ []));
    active = h.active;
    executed = h.executed;
    workers = omega (arith, h.workers, idle);
    before_shutdown = h.before_shutdown;
    drained = λ d. absurd (omega (arith, ap length e, ap length (h.drained d)));
  }

  begin-Holds :
      (before after : List Job) (j : Job) (p : Pool)
      → p.received ≡ before ++ (j ∷ after)
      → Holds size p
      → Holds size (begin j (before ++ after) p)
  unfolding begin
  begin-Holds before after j p e h =
      let one = length-splice before after j in
      record {
        in_order = h.in_order;
        room = h.room;
        kept = omega (arith, h.kept, one, ap length e);
        active = omega (arith, h.active);
        executed = omega (arith, h.executed);
        workers = omega (arith, h.workers, one, ap length e);
        before_shutdown = h.before_shutdown;
        drained = h.drained;
      }

  finish-Holds :
      (before after : List Job) (j : Job) (p : Pool)
      → p.running ≡ before ++ (j ∷ after)
      → Holds size p
      → Holds size (finish j (before ++ after) p)
  unfolding finish
  finish-Holds before after j p e h =
      let one = length-splice before after j in
      let more = length-append p.done (j ∷ []) in
      record {
        in_order = h.in_order;
        room = h.room;
        kept = omega (arith, h.kept, one, more, ap length e);
        active = omega (arith, h.active, one, ap length e);
        executed = omega (arith, h.executed, one, more, ap length e);
        workers = omega (arith, h.workers, one, ap length e);
        before_shutdown = h.before_shutdown;
        drained = h.drained;
      }

  time_out-Holds :
      (senders : List Sender) (p : Pool) → Holds size p → Holds size (time_out senders p)
  unfolding time_out
  time_out-Holds senders p h = record {
    in_order = h.in_order;
    room = h.room;
    kept = h.kept;
    active = h.active;
    executed = h.executed;
    workers = h.workers;
    before_shutdown = h.before_shutdown;
    drained = h.drained;
  }

  shut-Holds : (p : Pool) → Holds size p → Holds size (shut p)
  unfolding shut
  shut-Holds p h = record {
    in_order = h.in_order;
    room = h.room;
    kept = h.kept;
    active = h.active;
    executed = h.executed;
    workers = h.workers;
    before_shutdown = λ e. absurd (cc);
    drained = h.drained;
  }

  leave-Holds :
      (p : Pool)
      → p.closed ≡ true
      → p.queue ≡ []
      → 0 < p.waiting
      → Holds size p
      → Holds size (leave p)
  unfolding leave
  leave-Holds p closed empty idle h = record {
    in_order = h.in_order;
    room = h.room;
    kept = h.kept;
    active = h.active;
    executed = h.executed;
    workers = omega (arith, h.workers, idle);
    before_shutdown = λ e. absurd (cc);
    drained = λ _. empty;
  }

  step-Holds : {p q : Pool} → Step max size p q → Holds size p → Holds size q
  step-Holds {p} (calls s) h = call-Holds s p h
  step-Holds {p} (sends before after s opened e few) h =
      send-Holds (job_of s) (before ++ after) p opened few h
  step-Holds {p} (hands_over before after s opened e empty idle) h =
      hand_over-Holds (job_of s) (before ++ after) p opened empty idle h
  step-Holds {p} (times_out before after j e) h = time_out-Holds (before ++ after) p h
  step-Holds {p} (receives j queue e idle) h = receive-Holds j queue p e idle h
  step-Holds {p} (begins before after j e) h = begin-Holds before after j p e h
  step-Holds {p} (finishes before after j e) h = finish-Holds before after j p e h
  step-Holds {p} (shuts opened) h = shut-Holds p h
  step-Holds {p} (leaves closed empty idle) h = leave-Holds p closed empty idle h

  reach-Holds : {p q : Pool} → Holds size p → Reach max size p q → Holds size q
  reach-Holds h here = h
  reach-Holds h (next r s) = step-Holds s (reach-Holds h r)

  -- After any steps of a new pool: jobs are received in the order in which they were sent, each once;
  -- the queue is within its size; ActiveNum and ExecuteNum count the jobs that run and that have
  -- begun, and WorkerNum the goroutines, as int32; a worker ends only after `Shutdown`, at an empty
  -- queue.
  pub pool-Holds : (init : ℕ) (p : Pool) → Reach max size (new_pool init) p → Holds size p
  pool-Holds init p r = reach-Holds (new_pool-Holds init size) r
