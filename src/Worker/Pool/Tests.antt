-- ===== src/Worker/Pool/Tests.antt =====
-- gconcurrent/worker.go: tests and examples.
use gokits.Prelude.{◌+◌, ◌≤◌, ◌≡◌, Bool, ◌==◌, refl, true, false, [], length, arith}
use gokits.Worker.Pool.{
  Job, executes, Pool, new_pool, call, send, receive, begin, finish, shut, leave, check_no_active,
  calls, sends, receives, begins, finishes, shuts, leaves, Reach, here, next,
}
use gokits.Worker.Pool.Holds.{Holds, pool-Holds}
use gokits.Worker.Pool.Accounts.{number}
use gokits.Worker.Pool.Shutdown.{executing, shutdown_final, shutdown_drains, shutdown_early}

abbrev job : Job
job = (7, false)

-- One worker, one job, and `Shutdown`, with at most 2 workers and 3 jobs in the queue.
abbrev p0 : Pool
p0 = new_pool 1

abbrev p1 : Pool
p1 = call 2 (executes job) p0

abbrev p2 : Pool
p2 = send job [] p1

abbrev p3 : Pool
p3 = receive job [] p2

abbrev p4 : Pool
p4 = begin job [] p3

abbrev p5 : Pool
p5 = finish job [] p4

abbrev p6 : Pool
p6 = shut p5

abbrev p7 : Pool
p7 = leave p6

until_done : Reach 2 3 p0 p5
unfolding new_pool call send receive begin finish
until_done =
    next
      (next
        (next
          (next (next here (calls (executes job)))
            (sends [] [] (executes job) refl refl (omega arith)))
          (receives job [] refl (omega arith)))
        (begins [] [] job refl))
      (finishes [] [] job refl)

until_end : Reach 2 3 p0 p7
unfolding new_pool call send receive begin finish shut leave
until_end = next (next until_done (shuts refl)) (leaves refl refl (omega arith))

pool-Holds_example : Holds 3 p7
pool-Holds_example = pool-Holds 2 3 1 p7 until_end

abbrev is_seven : Job → Bool
is_seven (name, panics) = name == 7

shutdown_drains_example : (p7.queue ≡ []) × (number is_seven p7.done ≡ number is_seven p7.sent)
unfolding new_pool call send receive begin finish shut leave
shutdown_drains_example = shutdown_drains 2 3 1 is_seven p7 until_end (omega arith) refl refl

until_call : Reach 2 3 p6 (call 2 (executes job) p7)
unfolding new_pool call send receive begin finish shut leave
until_call = next (next here (leaves refl refl (omega arith))) (calls (executes job))

shutdown_final_example :
    let q = call 2 (executes job) p7 in
    (q.sent ≡ p5.sent)
    × (number is_seven p5.sent
        ≡ number is_seven q.queue
          + number is_seven q.received
          + number is_seven q.running
          + number is_seven q.done)
    × (executing q.senders ≤ executing q.senders)
shutdown_final_example = shutdown_final 2 3 1 is_seven until_done until_call here

shutdown_early_example :
    (p : Pool) × Reach 2 3 p0 p
    × (p.closed ≡ true)
    × (check_no_active p ≡ true)
    × (length p.queue ≡ 3)
    × (p.done ≡ [])
shutdown_early_example = shutdown_early 2 3 1 3 (omega arith)
