-- ===== src/Worker.antt =====
-- gconcurrent/worker.go: how many goroutines the pool starts, and what it counts of its jobs. A counter
-- is the bit pattern of its int32. A job is its name and whether it panics; the queue and Shutdown
-- are in Pool.
pub mod Growth
pub mod Jobs
pub mod Pool
mod Tests
use gokits.Prelude.{
  ℕ, ◌+◌, ◌-◌, ◌/◌, ◌%◌, ◌^◌, zero, suc, Bool, true, false, Option, none, some, List, [], ◌∷◌, ◌++◌,
  ltb, ◌==◌, ◌&&◌, if◌then◌else◌,
}

-- `WpStats` without the count of failed submissions.
pub record WpStats : Type 0 where
  pub active_num : ℕ
  pub worker_num : ℕ
  pub execute_num : ℕ
  pub panic_num : ℕ

-- `atomic.AddInt32` of 1 and of -1.
abbrev pub inc : ℕ → ℕ
inc n = (n + 1) % 2 ^ 32

abbrev pub dec : ℕ → ℕ
dec n = (n + (2 ^ 32 - 1)) % 2 ^ 32

-- `run`: the goroutines that it starts are counted.
unfoldable pub run : ℕ → WpStats → WpStats
run zero s = s
run (suc n) s = run n (record s { worker_num = inc s.worker_num })

-- The goroutines that `incWorker` adds to those it read.
pub inc_num : ℕ → ℕ → ℕ
inc_num max worker_num =
    let half = worker_num / 2 in
    let n = if ltb half 1 then 1 else half in
    if ltb max (worker_num + n) then max - worker_num else n

-- `incWorker` up to the lock: what it has read, if it goes on.
pub read_full : ℕ → WpStats → Option ℕ
read_full max s =
    if (s.active_num == s.worker_num) && ltb s.worker_num max then some s.worker_num else none

-- `incWorker` under the lock, from what was read before: the second load is thrown away.
pub grow : ℕ → Option ℕ → WpStats → WpStats
grow max none s = s
grow max (some worker_num) s = run (inc_num max worker_num) s

-- `incWorker`, when no other caller comes between.
pub inc_worker : ℕ → WpStats → WpStats
inc_worker max s = grow max (read_full max s) s

pub grow_all : ℕ → ℕ → Option ℕ → WpStats → WpStats
grow_all max zero w s = s
grow_all max (suc k) w s = grow_all max k w (grow max w s)

-- `incWorker` by k callers that have all read the counters before the first of them has the lock.
pub inc_worker_together : ℕ → ℕ → WpStats → WpStats
inc_worker_together max k s = grow_all max k (read_full max s) s

-- `executeOne`, with the names that `PanicFunc` gets, if one is set.
pub execute_one : Bool → ℕ × Bool → WpStats → List ℕ × WpStats
execute_one has_panic_func (name, panics) s =
    let s1 = record s { active_num = inc s.active_num } in
    let s2 = record s1 { execute_num = inc s1.execute_num } in
    let s3 = record s2 { active_num = dec s2.active_num } in
    if panics
    then (if has_panic_func then name ∷ [] else [], record s3 { panic_num = inc s3.panic_num })
    else ([], s3)

-- The loop of a worker over the jobs that it receives.
pub execute_all : Bool → List (ℕ × Bool) → WpStats → List ℕ × WpStats
execute_all f [] s = ([], s)
execute_all f (it ∷ items) s =
    let (names, s') = execute_one f it s in
    let (names', s'') = execute_all f items s' in (names ++ names', s'')
