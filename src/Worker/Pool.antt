-- ===== src/Worker/Pool.antt =====
-- gconcurrent/worker.go: the pool as a system of goroutines, one step at a time. `incWorker` is one
-- step; Growth says what callers do to it together. A goroutine stands at its loop over the queue as
-- soon as it is started.
pub mod Holds
pub mod Accounts
pub mod Shutdown
mod Tests
use gokits.Prelude.{
  ℕ, zero, suc, ◌+◌, ◌-◌, ◌≤◌, ◌<◌, ◌≡◌, Bool, true, false, Option, none, some, List, [], ◌∷◌, ◌++◌,
  length, ◌==◌, if◌then◌else◌,
}
use gokits.Worker.{WpStats, inc, dec, run, inc_num, read_full, inc_worker}

abbrev pub Job : Type 0
Job = ℕ × Bool

-- A call of `Execute` or `Submit` at its send.
pub data Sender : Type 0 where
  executes submits : Job → Sender

abbrev pub job_of : Sender → Job
job_of (executes j) = j
job_of (submits j) = j

-- `workerPool` with its goroutines: those that wait at the queue, those that have received a job and
-- not counted it yet, those that run one, those that have ended, and those that wait at a nil queue.
-- The last three fields are the jobs that were sent, received and done, in order.
pub record Pool : Type 0 where
  pub stats : WpStats
  pub submit_fail_num : ℕ
  pub queue : List Job
  pub closed : Bool
  pub senders : List Sender
  pub waiting : ℕ
  pub received : List Job
  pub running : List Job
  pub ended : ℕ
  pub stuck : ℕ
  pub sent : List Job
  pub taken : List Job
  pub done : List Job

-- The goroutines that `incWorker` starts.
unfoldable pub started : ℕ → WpStats → ℕ
started max s = elim (read_full max s) [ none ↦ 0 | some w ↦ inc_num max w ]

abbrev no_stats : WpStats
no_stats = record { active_num = 0; worker_num = 0; execute_num = 0; panic_num = 0 }

-- `NewWorkerPool`; after InitWorkerNum.
pub new_pool : ℕ → Pool
new_pool init = record {
  stats = run init no_stats;
  submit_fail_num = 0;
  queue = [];
  closed = false;
  senders = [];
  waiting = init;
  received = [];
  running = [];
  ended = 0;
  stuck = 0;
  sent = [];
  taken = [];
  done = [];
}

-- `Execute` and `Submit` up to the send. After `Shutdown` the queue is nil, also for new workers.
pub call : ℕ → Sender → Pool → Pool
call max s p =
    let n = started max p.stats in
    record p {
      stats = inc_worker max p.stats;
      senders = s ∷ p.senders;
      waiting = if p.closed then p.waiting else p.waiting + n;
      stuck = if p.closed then p.stuck + n else p.stuck;
    }

-- A send into the buffer.
pub send : Job → List Sender → Pool → Pool
send j senders p = record p {
  senders = senders;
  queue = p.queue ++ (j ∷ []);
  sent = p.sent ++ (j ∷ []);
}

-- A send to a worker that waits at an empty queue.
pub hand_over : Job → List Sender → Pool → Pool
hand_over j senders p = record p {
  senders = senders;
  waiting = p.waiting - 1;
  received = j ∷ p.received;
  sent = p.sent ++ (j ∷ []);
  taken = p.taken ++ (j ∷ []);
}

-- `Submit` after its time.
pub time_out : List Sender → Pool → Pool
time_out senders p = record p { senders = senders; submit_fail_num = inc p.submit_fail_num }

-- The loop of a worker receives a job.
pub receive : Job → List Job → Pool → Pool
receive j queue p = record p {
  queue = queue;
  waiting = p.waiting - 1;
  received = j ∷ p.received;
  taken = p.taken ++ (j ∷ []);
}

-- `executeOne` up to the call of the job.
pub begin : Job → List Job → Pool → Pool
begin j received p =
    let s = record p.stats {
      active_num = inc p.stats.active_num;
      execute_num = inc p.stats.execute_num;
    } in
    record p { stats = s; received = received; running = j ∷ p.running }

-- The deferred function of `executeOne`.
pub finish : Job → List Job → Pool → Pool
finish (name, panics) running p =
    let s = record p.stats {
      active_num = dec p.stats.active_num;
      panic_num = if panics then inc p.stats.panic_num else p.stats.panic_num;
    } in
    record p {
      stats = s;
      running = running;
      waiting = p.waiting + 1;
      done = p.done ++ ((name, panics) ∷ []);
    }

-- `Shutdown` up to its loop: the calls that are at their send panic.
pub shut : Pool → Pool
shut p = record p { closed = true; senders = [] }

-- A worker leaves its loop.
pub leave : Pool → Pool
leave p = record p { waiting = p.waiting - 1; ended = p.ended + 1 }

-- `checkNoActive`
abbrev pub check_no_active : Pool → Bool
check_no_active p = p.stats.active_num == 0

-- The steps, for MaxWorkerNum and QueueSize.
pub data Step (max size : ℕ) (p : Pool) : Pool → Type 0 where
  calls : (s : Sender) → Step max size p (call max s p)
  sends :
      (before after : List Sender) (s : Sender)
      → p.closed ≡ false
      → p.senders ≡ before ++ (s ∷ after)
      → length p.queue < size
      → Step max size p (send (job_of s) (before ++ after) p)
  hands_over :
      (before after : List Sender) (s : Sender)
      → p.closed ≡ false
      → p.senders ≡ before ++ (s ∷ after)
      → p.queue ≡ []
      → 0 < p.waiting
      → Step max size p (hand_over (job_of s) (before ++ after) p)
  times_out :
      (before after : List Sender) (j : Job)
      → p.senders ≡ before ++ (submits j ∷ after)
      → Step max size p (time_out (before ++ after) p)
  receives :
      (j : Job) (queue : List Job)
      → p.queue ≡ j ∷ queue
      → 0 < p.waiting
      → Step max size p (receive j queue p)
  begins :
      (before after : List Job) (j : Job)
      → p.received ≡ before ++ (j ∷ after)
      → Step max size p (begin j (before ++ after) p)
  finishes :
      (before after : List Job) (j : Job)
      → p.running ≡ before ++ (j ∷ after)
      → Step max size p (finish j (before ++ after) p)
  shuts : p.closed ≡ false → Step max size p (shut p)
  leaves : p.closed ≡ true → p.queue ≡ [] → 0 < p.waiting → Step max size p (leave p)

pub data Reach (max size : ℕ) (p : Pool) : Pool → Type 0 where
  here : Reach max size p p
  next : {q r : Pool} → Reach max size p q → Step max size q r → Reach max size p r
