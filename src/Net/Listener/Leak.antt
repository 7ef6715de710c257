-- ===== src/Net/Listener/Leak.antt =====
-- What a refused connection does to the accounting of gnet/listen.go: `Accept` releases a token of
-- the channel that its `acquire` never put there.
use gokits.Prelude.{
  ℕ, zero, suc, ◌+◌, ◌-◌, ◌^◌, ◌≤◌, ◌<◌, ◌≡◌, true, false, ap, ◌∙◌, Option, none, some, arith,
}
use gokits.Net.Listener.{
  LimitListener, new_limit_listener, conn, limit_error, accept, accept_many, close,
}

-- A listener of limit `n` whose channel is full, with `live` open connections.
abbrev pub full : ℕ → ℕ → LimitListener
full n live = record { cur = live; max = n; sem = n; sem_cap = n }

accept-full :
    (n live : ℕ)
    → 0 < n
    → n ≤ live
    → live < 2 ^ 30
    → (accept true (full n live) ≡ some (limit_error, record (full n live) { sem = n - 1 }))
      × (accept true (record (full n live) { sem = n - 1 }) ≡ some (conn, full n (live + 1)))
unfolding accept
accept-full n live p h k = ground arith

new_eq : (n : ℕ) → new_limit_listener n ≡ record { cur = 0; max = n; sem = 0 - n; sem_cap = n }
unfolding new_limit_listener
new_eq n = ground arith

eq_full :
    (n : ℕ)
    → ◌≡◌ {A = LimitListener}
        (record { cur = 0 + (n + n); max = n; sem = 0 + (n + n) - n; sem_cap = n })
        (full n (n + n))
eq_full n = ground arith

accept_many-below :
    (k n live : ℕ)
    → live + k ≤ n + n
    → n < 2 ^ 29
    → accept_many k (record { cur = live; max = n; sem = live - n; sem_cap = n })
      ≡ some (k, record { cur = live + k; max = n; sem = live + k - n; sem_cap = n })
unfolding accept_many accept
accept_many-below zero n live h s = ground arith
accept_many-below (suc k) n live h s = ground (arith, accept_many-below k n (live + 1))

accept_many-full :
    (k n live : ℕ)
    → 0 < n
    → n ≤ live
    → live + k < 2 ^ 30
    → accept_many (k + k) (full n live) ≡ some (k, full n (live + k))
unfolding accept_many accept
accept_many-full zero n live p h s = ground arith
accept_many-full (suc k) n live p h s =
    let twice : suc k + suc k ≡ suc (suc (k + k)) = omega arith in
    rw twice (ground (arith, accept-full n live p h, accept_many-full k n (live + 1)))

-- The limit does not hold: a listener of limit `n` gives out `n + n` connections before it refuses
-- one, and with every second call of `Accept` one more, however many are open.
pub limit_exceeded :
    (k n : ℕ)
    → 0 < n
    → n < 2 ^ 28
    → k < 2 ^ 28
    → (accept_many (n + n) (new_limit_listener n) ≡ some (n + n, full n (n + n)))
      × (accept_many (k + k) (full n (n + n)) ≡ some (k, full n (n + n + k)))
unfolding new_limit_listener
limit_exceeded k n p h s = (
  ap (accept_many (n + n)) (new_eq n)
      ∙ accept_many-below (n + n) n 0 (omega arith) (omega arith)
      ∙ ap (λ l. some (n + n, l)) (eq_full n),
  accept_many-full k n (n + n) p (omega arith) (omega arith),
)

-- Closing `k` connections, one after the other.
pub close_many : ℕ → LimitListener → Option LimitListener
close_many zero l = some l
close_many (suc k) l = elim (close (record { done = false }) l) [
  | none ↦ none
  | some (c, l') ↦ close_many k l'
]

-- With a token for each close above the limit, all of them go through.
close_many-drains :
    (k n live : ℕ)
    → n < 2 ^ 29
    → n ≤ live
    → k ≤ n
    → live ≤ n + n
    → close_many k (record { cur = live + k; max = n; sem = k; sem_cap = n })
      ≡ some (record { cur = live; max = n; sem = 0; sem_cap = n })
unfolding close_many close
close_many-drains zero n live s h k b = ground arith
close_many-drains (suc k) n live s h le b = ground (arith, close_many-drains k n live)

close-blocks :
    (n : ℕ)
    → 0 < n
    → n < 2 ^ 29
    → close (record { done = false }) (record { cur = n + 1; max = n; sem = 0; sem_cap = n }) ≡ none
unfolding close
close-blocks n p h = ground arith

-- After a single refusal the open connections can no longer all be closed: of the `n + n` that the
-- listener gave out, the first `n - 1` that are closed go through, and the next `Close` waits for a
-- token that is not there, with `n + 1` connections still counted.
pub refusal_blocks_close :
    (n : ℕ)
    → 0 < n
    → n < 2 ^ 28
    → (l : LimitListener) → accept true (full n (n + n)) ≡ some (limit_error, l)
    → (close_many (n - 1) l ≡ some (record l { cur = n + 1; sem = 0 }))
      × (close (record { done = false }) (record l { cur = n + 1; sem = 0 }) ≡ none)
refusal_blocks_close zero p h l e = absurd (omega arith)
refusal_blocks_close (suc s) p h l e = ground (
  arith,
  accept-full (suc s) (suc s + suc s) p (omega arith) (omega arith),
  close_many-drains s (suc s) (suc s + 1) (omega arith) (omega arith) (omega arith),
  close-blocks (suc s) p (omega arith),
)
