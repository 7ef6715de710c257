-- ===== src/Net/Listener/Limit.antt =====
-- The accounting of gnet/listen.go while no connection has been refused.
use gokits.Prelude.{ℕ, ◌+◌, ◌-◌, ◌^◌, ◌≤◌, ◌<◌, ◌≡◌, true, false, some, arith}
use gokits.Net.Listener.{
  LimitListener, new_limit_listener, conn, inner_error, limit_error, accept, LimitConn, close,
}

-- With `live` open connections: the counter is their number, and the channel holds one token for
-- each of them above the limit.
pub record Balanced (n live : ℕ) (l : LimitListener) : Type 0 where
  pub cur_live : l.cur ≡ live
  pub max_n : l.max ≡ n
  pub cap_n : l.sem_cap ≡ n
  pub tokens : l.sem ≡ live - n
  pub small : n < 2 ^ 29
  pub bounded : live ≤ n + n

pub new-Balanced : (n : ℕ) → n < 2 ^ 29 → Balanced n 0 (new_limit_listener n)
unfolding new_limit_listener
new-Balanced n h = omega arith

-- The listener with `live` connections counted.
abbrev pub counting : LimitListener → ℕ → LimitListener
counting l live = record l { cur = live; sem = live - l.max }

pub counting-Balanced :
    {n live live' : ℕ} {l : LimitListener}
    → Balanced n live l
    → live' ≤ n + n
    → Balanced n live' (counting l live')
counting-Balanced b h = omega (arith, b)

-- Below twice the limit, `Accept` counts the connection that it returns, and an error of the inner
-- listener leaves the listener as it was. Neither blocks.
pub accept-Balanced :
    {n live : ℕ} {l : LimitListener}
    → Balanced n live l
    → live < n + n
    → (accept true l ≡ some (conn, counting l (live + 1)))
      × (accept false l ≡ some (inner_error, l))
unfolding accept
accept-Balanced {n} {live} {l} b h = ground arith

-- At twice the limit, `Accept` refuses, and takes one token out of the channel all the same.
pub accept_full :
    {n : ℕ} {l : LimitListener}
    → Balanced n (n + n) l
    → 0 < n
    → accept true l ≡ some (limit_error, record l { sem = n - 1 })
unfolding accept
accept_full {n} {l} b h = ground arith

-- While no connection has been refused, so that the channel holds one token for each open connection
-- above the limit, and one or more, but at most twice the limit, are open: the first `Close` of a connection takes it out
-- of the count and does not block, and a second one changes nothing.
pub close-Balanced :
    {n live : ℕ} {l : LimitListener} (c : LimitConn)
    → Balanced n live l
    → 0 < live
    → c.done ≡ false
    → (close c l ≡ some (record { done = true }, counting l (live - 1)))
      × (close (record { done = true }) (counting l (live - 1))
          ≡ some (record { done = true }, counting l (live - 1)))
unfolding close
close-Balanced {n} {live} {l} c b h d = ground arith
