-- ===== src/Cond/Tests.antt =====
-- gconcurrent/cond.go: tests and examples.
use gokits.Prelude.{◌-◌, ◌<◌, ◌≡◌, refl, true, some, [], length, ltb}
use gokits.Cond.{
  entered, listening, TimeoutCond, new_timeout_cond, add_waiter, remove_waiter, has_any, enter,
  move_to, interrupt, locks, enters, listens, Reach, here, next,
}
use gokits.Cond.Holds.{Holds, cond-Holds}
use gokits.Cond.Interrupts.{Alone, interrupt_frees}

-- One goroutine waits at its select, another has just given the lock up.
abbrev first : TimeoutCond
first = enter 1 (record new_timeout_cond { locked = true })

abbrev at_select : TimeoutCond
at_select = move_to listening [] [] (record { chan = 0; stage = entered }) first

abbrev two_wait : TimeoutCond
two_wait = enter 2 (record at_select { locked = true })

to_two : Reach new_timeout_cond two_wait
unfolding add_waiter
to_two =
    next
      (next
        (next (next (next here (locks refl)) (enters 1 refl refl))
          (listens [] [] (record { chan = 0; stage = entered }) refl refl))
        (locks refl))
      (enters 2 refl refl)

cond-Holds_example :
    Holds two_wait
    × (has_any two_wait ≡ ltb 0 2)
    × (0 < length two_wait.waiters → remove_waiter 2 ≡ some (2 - 1))
cond-Holds_example = cond-Holds two_wait to_two

interrupt_frees_example :
    (d : TimeoutCond) × Alone (interrupt two_wait) d × (d.waiters ≡ []) × (d.has_waiters ≡ 0)
interrupt_frees_example = interrupt_frees two_wait to_two refl
