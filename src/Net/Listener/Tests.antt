-- ===== src/Net/Listener/Tests.antt =====
-- Runs of gnet/listen.go on small listeners.
use gokits.Prelude.{◌≡◌, refl, true, false, none, some, arith}
use gokits.Net.Listener.{
  LimitListener, new_limit_listener, conn, inner_error, limit_error, accept, accept_many, close,
}
use gokits.Net.Listener.Limit.{Balanced, counting, accept-Balanced, accept_full, close-Balanced}
use gokits.Net.Listener.Leak.{full, close_many, limit_exceeded, refusal_blocks_close}

-- One connection open on a listener of limit 2.
abbrev one_open : LimitListener
one_open = record { cur = 1; max = 2; sem = 0; sem_cap = 2 }

abbrev four_open : LimitListener
four_open = record { cur = 4; max = 2; sem = 2; sem_cap = 2 }

one_open-Balanced : Balanced 2 1 one_open
one_open-Balanced = omega arith

four_open-Balanced : Balanced 2 4 four_open
four_open-Balanced = omega arith

accept-Balanced_example :
    (accept true one_open ≡ some (conn, counting one_open 2))
    × (accept false one_open ≡ some (inner_error, one_open))
accept-Balanced_example = accept-Balanced one_open-Balanced (omega arith)

accept_full_example : accept true four_open ≡ some (limit_error, record four_open { sem = 1 })
accept_full_example = accept_full four_open-Balanced (omega arith)

close-Balanced_example :
    (close (record { done = false }) four_open
      ≡ some (record { done = true }, counting four_open 3))
    × (close (record { done = true }) (counting four_open 3)
        ≡ some (record { done = true }, counting four_open 3))
close-Balanced_example =
    close-Balanced (record { done = false }) four_open-Balanced (omega arith) refl

limit_exceeded_example :
    (accept_many 4 (new_limit_listener 2) ≡ some (4, full 2 4))
    × (accept_many 6 (full 2 4) ≡ some (3, full 2 7))
limit_exceeded_example = limit_exceeded 3 2 (omega arith) (omega arith) (omega arith)

refusal_blocks_close_example :
    (close_many 1 (record (full 2 4) { sem = 1 }) ≡ some (record (full 2 4) { cur = 3; sem = 0 }))
    × (close (record { done = false }) (record (full 2 4) { cur = 3; sem = 0 }) ≡ none)
unfolding accept
refusal_blocks_close_example =
    refusal_blocks_close 2 (omega arith) (omega arith) (record (full 2 4) { sem = 1 }) refl
