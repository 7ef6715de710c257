-- ===== src/Cond.antt =====
-- gconcurrent/cond.go: a condition variable with goroutines that wait on it. A channel is the number of
-- those made before it, and all but the last are closed. The lock that the variable has is one for all;
-- `Signal` is called with it, as gcollection/queue.go does.
pub mod Holds
pub mod Interrupts
mod Tests
use gokits.Prelude.{
  ℕ, suc, ◌+◌, ◌-◌, ◌%◌, ◌^◌, ◌<◌, ◌≡◌, ◌==◌, Bool, true, false, Option, none, some, List, [], ◌∷◌,
  ◌++◌, ltb, ◌&&◌, not, if◌then◌else◌,
}

-- Where a call of `Wait` stands: it has given the lock up, it is at its select, or the select has ended,
-- with what `Wait` returns.
pub data Stage : Type 0 where
  entered listening : Stage
  woken : Bool → Stage

-- A call of `Wait` with the channel that it has read.
pub record Waiter : Type 0 where
  pub chan : ℕ
  pub stage : Stage

-- `TimeoutCond`, with the state of its lock and the calls of `Wait`.
pub record TimeoutCond : Type 0 where
  pub has_waiters : ℕ
  pub signal : ℕ
  pub locked : Bool
  pub waiters : List Waiter

-- `NewTimeoutCond`
abbrev pub new_timeout_cond : TimeoutCond
new_timeout_cond = record { has_waiters = 0; signal = 0; locked = false; waiters = [] }

abbrev pub max_uint64 : ℕ
max_uint64 = 2 ^ 64 - 1

-- `addWaiter`; none is its panic.
pub add_waiter : ℕ → Option ℕ
add_waiter n = let v = (n + 1) % 2 ^ 64 in if v == 0 then none else some v

-- `removeWaiter`
pub remove_waiter : ℕ → Option ℕ
remove_waiter n = let v = (n + max_uint64) % 2 ^ 64 in if v == max_uint64 then none else some v

-- `HasWaiters`
abbrev pub has_any : TimeoutCond → Bool
has_any c = ltb 0 c.has_waiters

-- `Wait` up to its select: the caller has the lock, and gives it up.
abbrev pub enter : ℕ → TimeoutCond → TimeoutCond
enter v c = record c {
  has_waiters = v;
  locked = false;
  waiters = record { chan = c.signal; stage = entered } ∷ c.waiters;
}

-- A waiter in another stage.
abbrev pub move_to : Stage → List Waiter → List Waiter → Waiter → TimeoutCond → TimeoutCond
move_to stage before after w c = record c {
  waiters = before ++ (record w { stage = stage } ∷ after);
}

-- The end of `Wait`: it has the lock again.
abbrev pub leave : ℕ → List Waiter → TimeoutCond → TimeoutCond
leave v waiters c = record c { has_waiters = v; locked = true; waiters = waiters }

-- `Interrupt` closes the channel and makes another; it has the lock meanwhile.
abbrev pub interrupt : TimeoutCond → TimeoutCond
interrupt c = record c { signal = suc c.signal }

-- A waiter that `Signal` can wake.
abbrev pub is_listening : Stage → Bool
is_listening entered = false
is_listening listening = true
is_listening (woken b) = false

abbrev pub hears : ℕ → Waiter → Bool
hears signal w = is_listening w.stage && (w.chan == signal)

unfoldable pub nobody_hears : ℕ → List Waiter → Bool
nobody_hears signal [] = true
nobody_hears signal (w ∷ ws) = not (hears signal w) && nobody_hears signal ws

pub data Step (c : TimeoutCond) : TimeoutCond → Type 0 where
  locks : c.locked ≡ false → Step c (record c { locked = true })
  unlocks : c.locked ≡ true → Step c (record c { locked = false })
  enters : (v : ℕ) → c.locked ≡ true → add_waiter c.has_waiters ≡ some v → Step c (enter v c)
  listens :
      (before after : List Waiter) (w : Waiter)
      → c.waiters ≡ before ++ (w ∷ after)
      → w.stage ≡ entered
      → Step c (move_to listening before after w c)
  -- `Signal`: a send that does not wait.
  signals :
      (before after : List Waiter) (w : Waiter)
      → c.locked ≡ true
      → c.waiters ≡ before ++ (w ∷ after)
      → w.stage ≡ listening
      → w.chan ≡ c.signal
      → Step c (move_to (woken false) before after w c)
  signals_nobody : c.locked ≡ true → nobody_hears c.signal c.waiters ≡ true → Step c c
  -- The context is done.
  expires :
      (before after : List Waiter) (w : Waiter)
      → c.waiters ≡ before ++ (w ∷ after)
      → w.stage ≡ listening
      → Step c (move_to (woken false) before after w c)
  -- The receive on a closed channel.
  hears_close :
      (before after : List Waiter) (w : Waiter)
      → c.waiters ≡ before ++ (w ∷ after)
      → w.stage ≡ listening
      → w.chan < c.signal
      → Step c (move_to (woken true) before after w c)
  interrupts : c.locked ≡ false → Step c (interrupt c)
  leaves :
      (before after : List Waiter) (w : Waiter) (b : Bool) (v : ℕ)
      → c.locked ≡ false
      → c.waiters ≡ before ++ (w ∷ after)
      → w.stage ≡ woken b
      → remove_waiter c.has_waiters ≡ some v
      → Step c (leave v (before ++ after) c)

pub data Reach (c : TimeoutCond) : TimeoutCond → Type 0 where
  here : Reach c c
  next : {d e : TimeoutCond} → Reach c d → Step d e → Reach c e
