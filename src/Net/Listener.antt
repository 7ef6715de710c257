-- ===== src/Net/Listener.antt =====
-- gnet/listen.go: a listener that limits its simultaneous connections by a counter and a semaphore.
-- The wrapped `net.Listener` is outside: each `Accept` is told whether the inner one succeeded.
-- A receive from the empty channel `sem` blocks; it is `none`.
pub mod Limit
pub mod Leak
mod Tests
use gokits.Prelude.{
  ℕ, zero, suc, ◌+◌, ◌-◌, Bool, true, false, not, Option, none, some, ltb, ◌==◌, if◌then◌else◌,
}
use gokits.Prelude.Word.{add_i32, minus_one_i32, lt_i32}

-- `limitListener`: `cur` and `max` are `int32` patterns, `sem` the number of tokens in the channel,
-- `sem_cap` the capacity that the channel was made with.
pub record LimitListener : Type 0 where
  pub cur : ℕ
  pub max : ℕ
  pub sem : ℕ
  pub sem_cap : ℕ

-- `NewLimitListener(l, n)`, for an `n` that is not negative (`make` panics otherwise).
pub new_limit_listener : ℕ → LimitListener
new_limit_listener n = record { cur = 0; max = n; sem = 0; sem_cap = n }

-- The `select` with a default: a send that does not block, and whether it was made.
pub try_send : LimitListener → Bool × LimitListener
try_send l = if ltb l.sem l.sem_cap then (true, record l { sem = l.sem + 1 }) else (false, l)

pub acquire : LimitListener → Bool × LimitListener
unfolding try_send
acquire l =
    let l' = record l { cur = add_i32 l.cur 1 } in
    if lt_i32 l'.max l'.cur then try_send l' else (true, l')

-- `<-l.sem`
pub receive : LimitListener → Option LimitListener
receive l = if l.sem == 0 then none else some (record l { sem = l.sem - 1 })

pub release : LimitListener → Option LimitListener
unfolding receive
release l =
    let l' = record l { cur = add_i32 l.cur minus_one_i32 } in
    if lt_i32 l'.cur l'.max then some l' else receive l'

-- What `Accept` returns: a connection, the inner listener's error, or `ErrLimitListener`.
pub data Accepted : Type 0 where
  conn inner_error limit_error : Accepted

pub after_release : Accepted → Option LimitListener → Option (Accepted × LimitListener)
after_release r none = none
after_release r (some l) = some (r, l)

-- `Accept`, where the inner `Accept` succeeds or not.
pub accept : Bool → LimitListener → Option (Accepted × LimitListener)
unfolding acquire release after_release
accept inner_ok l =
    let (ok, l') = acquire l in
    if not inner_ok
    then after_release inner_error (release l')
    else if not ok
    then after_release limit_error (release l')
    else some (conn, l')

-- `limitListenerConn`: whether its `once` has run.
pub record LimitConn : Type 0 where
  pub done : Bool

-- `Close`: the first call releases, later ones do not.
pub close : LimitConn → LimitListener → Option (LimitConn × LimitListener)
unfolding release
close c l =
    if c.done
    then some (c, l)
    else elim (release l) [ none ↦ none | some l' ↦ some (record c { done = true }, l') ]

-- `n` calls of `Accept` whose inner `Accept` succeeds: how many returned a connection.
pub accept_many : ℕ → LimitListener → Option (ℕ × LimitListener)
accept_many zero l = some (0, l)
accept_many (suc n) l = elim (accept true l) [
  | none ↦ none
  | some (r, l') ↦ elim (accept_many n l') [
    | none ↦ none
    | some (k, l'') ↦ some (elim r [ conn ↦ k + 1 | _ ↦ k ], l'')
  ]
]
