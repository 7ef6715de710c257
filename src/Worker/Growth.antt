-- ===== src/Worker/Growth.antt =====
-- gconcurrent/worker.go: the number of goroutines.
use gokits.Prelude.{
  ◌≡◌, ap, ◌∙◌, ℕ, ◌+◌, ◌-◌, ◌*◌, ◌^◌, ◌≤◌, ◌<◌, zero, suc, none, some, arith, Option-cases, inl,
  inr,
}
use gokits.Worker.{
  WpStats, inc, run, inc_num, read_full, grow, grow_all, inc_worker, inc_worker_together,
}

inc_small : (n : ℕ) → n + 1 < 2 ^ 32 → inc n ≡ n + 1
inc_small n h = omega arith

worker_num-run :
    (n : ℕ) (s : WpStats) → s.worker_num + n < 2 ^ 32 → (run n s).worker_num ≡ s.worker_num + n
unfolding run
worker_num-run zero s h = omega arith
worker_num-run (suc n) s h =
    let one = record s { worker_num = inc s.worker_num } in
    let up = inc_small s.worker_num (omega arith) in
    worker_num-run n one (omega (arith, up)) ∙ omega (arith, up)

inc_num_bounds : (max w : ℕ) → w < max → (0 < inc_num max w) × (w + inc_num max w ≤ max)
unfolding inc_num
inc_num_bounds max w h = (ground arith, ground arith)

worker_num-grow_all :
    (max k w : ℕ) (s : WpStats)
    → s.worker_num + k * inc_num max w < 2 ^ 32
    → (grow_all max k (some w) s).worker_num ≡ s.worker_num + k * inc_num max w
unfolding grow_all grow
worker_num-grow_all max zero w s h = omega arith
worker_num-grow_all max (suc k) w s h =
    let n = inc_num max w in
    let first = worker_num-run n s (omega arith) in
    worker_num-grow_all max k w (run n s) (omega (arith, first)) ∙ omega (arith, first)

full :
    (max : ℕ) (s : WpStats)
    → s.active_num ≡ s.worker_num
    → s.worker_num < max
    → read_full max s ≡ some s.worker_num
unfolding read_full
full max s h h' = ground arith

le_mul : (k n : ℕ) → 0 < n → k ≤ k * n
le_mul k zero h = absurd (omega arith)
le_mul k (suc n) h = omega arith

idle : (max : ℕ) (s : WpStats) → read_full max s ≡ none → inc_worker max s ≡ s
unfolding inc_worker grow
idle max s h = ground (arith, h)

grown :
    (max w : ℕ) (s : WpStats) → read_full max s ≡ some w → inc_worker max s ≡ run (inc_num max w) s
unfolding inc_worker grow
grown max w s h = ground (arith, h)

was_read : (max w : ℕ) (s : WpStats) → read_full max s ≡ some w → (w ≡ s.worker_num) × (w < max)
unfolding read_full
was_read max w s h = (ground (arith, h), ground (arith, h))

-- A caller of `incWorker` that is alone keeps the number of workers within MaxWorkerNum and lowers it
-- never; when every worker is busy and the limit is not reached, it raises it. The number of workers
-- is within the limit before, and the limit is an int32.
pub worker_num-inc_worker :
    (max : ℕ) (s : WpStats)
    → max < 2 ^ 31
    → s.worker_num ≤ max
    → ((inc_worker max s).worker_num ≤ max)
      × (s.worker_num ≤ (inc_worker max s).worker_num)
      × (s.active_num ≡ s.worker_num
          → s.worker_num < max
          → s.worker_num < (inc_worker max s).worker_num)
worker_num-inc_worker max s b h = elim (Option-cases (read_full max s)) [
  | inl e ↦ rw (idle max s e) (h, omega arith, λ a l. ground (arith, e, full max s a l))
  | inr (w, e) ↦
      let (same, low) = was_read max w s e in
      let (more, within) = inc_num_bounds max w low in
      let sum = worker_num-run (inc_num max w) s (omega arith) in
      rw (grown max w s e) (omega (arith, sum), omega (arith, sum), λ _ _. omega (arith, sum))
]

-- Callers of `incWorker` that all read the counters before the first of them has the lock take the
-- number of workers above MaxWorkerNum, whenever there are more of them than workers are missing:
-- each adds as many as the first. Every worker is busy, the limit is not reached, and the sum is
-- within an int32.
pub limit_raced :
    (max k : ℕ) (s : WpStats)
    → s.active_num ≡ s.worker_num
    → s.worker_num < max
    → s.worker_num + k * inc_num max s.worker_num < 2 ^ 31
    → max - s.worker_num < k
    → ((inc_worker_together max k s).worker_num ≡ s.worker_num + k * inc_num max s.worker_num)
      × (max < (inc_worker_together max k s).worker_num)
unfolding inc_worker_together
limit_raced max k s busy low fits many =
    let (more, within) = inc_num_bounds max s.worker_num low in
    let sum =
      ap (λ r. (grow_all max k r s).worker_num) (full max s busy low)
      ∙ worker_num-grow_all max k s.worker_num s (omega arith) in
    (sum, omega (arith, sum, le_mul k (inc_num max s.worker_num) more))
