-- ===== src/Worker/Jobs.antt =====
-- gconcurrent/worker.go: what a worker counts of its jobs.
use gokits.Prelude.{
  ◌≡◌, refl, ap, ℕ, ◌+◌, ◌^◌, ◌<◌, Bool, true, false, List, [], ◌∷◌, length, arith, if◌then◌else◌,
}
use gokits.Worker.{WpStats, inc, dec, execute_one, execute_all}

-- The names of the jobs that panic.
pub panicking : List (ℕ × Bool) → List ℕ
panicking [] = []
panicking ((name, panics) ∷ items) =
    let rest = panicking items in if panics then name ∷ rest else rest

-- A worker that runs jobs one after another counts each of them once, whether it panics or not,
-- counts each panic once, ends with the number of active workers that it began with, and hands the
-- names of the jobs that panicked to the panic function, in order. A panic function is set, and the
-- numbers stay within an int32.
pub execute_all_lem :
    (items : List (ℕ × Bool)) (s : WpStats)
    → s.active_num < 2 ^ 31
    → s.execute_num + length items < 2 ^ 31
    → s.panic_num + length items < 2 ^ 31
    → ((execute_all true items s).0 ≡ panicking items)
      × ((execute_all true items s).1.active_num ≡ s.active_num)
      × ((execute_all true items s).1.execute_num ≡ s.execute_num + length items)
      × ((execute_all true items s).1.panic_num ≡ s.panic_num + length (panicking items))
unfolding execute_all execute_one panicking
execute_all_lem [] s a e p = (refl, refl, omega arith, omega arith)
execute_all_lem ((name, true) ∷ items) s a e p =
    let s' = record s {
      active_num = dec (inc s.active_num);
      execute_num = inc s.execute_num;
      panic_num = inc s.panic_num;
    } in
    let (names, active, executed, panicked) =
      execute_all_lem items s' (omega arith) (omega arith) (omega arith) in
    (
      ap (λ l. name ∷ l) names,
      omega (arith, active),
      omega (arith, executed),
      omega (arith, panicked),
    )
execute_all_lem ((name, false) ∷ items) s a e p =
    let s' = record s { active_num = dec (inc s.active_num); execute_num = inc s.execute_num } in
    let (names, active, executed, panicked) =
      execute_all_lem items s' (omega arith) (omega arith) (omega arith) in
    (names, omega (arith, active), omega (arith, executed), panicked)
