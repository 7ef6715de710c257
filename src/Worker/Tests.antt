-- ===== src/Worker/Tests.antt =====
-- Runs of gconcurrent/worker.go.
use gokits.Prelude.{◌≡◌, refl, ◌≤◌, ◌<◌, ◌+◌, ◌*◌, true, false, [], ◌∷◌, length, arith}
use gokits.Worker.{WpStats, inc_num, inc_worker, inc_worker_together, execute_all}
use gokits.Worker.Growth.{worker_num-inc_worker, limit_raced}
use gokits.Worker.Jobs.{execute_all_lem, panicking}

abbrev busy : WpStats
busy = record { active_num = 40; worker_num = 40; execute_num = 7; panic_num = 0 }

worker_num-inc_worker_example :
    ((inc_worker 50 busy).worker_num ≤ 50)
    × (40 ≤ (inc_worker 50 busy).worker_num)
    × (busy.active_num ≡ busy.worker_num → 40 < 50 → 40 < (inc_worker 50 busy).worker_num)
worker_num-inc_worker_example = worker_num-inc_worker 50 busy (omega arith) (omega arith)

fits : 40 + 11 * inc_num 50 40 < 2147483648
unfolding inc_num
fits = omega arith

limit_raced_example :
    ((inc_worker_together 50 11 busy).worker_num ≡ 40 + 11 * inc_num 50 40)
    × (50 < (inc_worker_together 50 11 busy).worker_num)
limit_raced_example = limit_raced 50 11 busy refl (omega arith) fits (omega arith)

execute_all_lem_example :
    ((execute_all true ((1, false) ∷ (2, true) ∷ []) busy).0
      ≡ panicking ((1, false) ∷ (2, true) ∷ []))
    × ((execute_all true ((1, false) ∷ (2, true) ∷ []) busy).1.active_num ≡ 40)
    × ((execute_all true ((1, false) ∷ (2, true) ∷ []) busy).1.execute_num ≡ 9)
    × ((execute_all true ((1, false) ∷ (2, true) ∷ []) busy).1.panic_num
        ≡ 0 + length (panicking ((1, false) ∷ (2, true) ∷ [])))
execute_all_lem_example =
    execute_all_lem ((1, false) ∷ (2, true) ∷ []) busy (omega arith) (omega arith) (omega arith)
