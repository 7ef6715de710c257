-- ===== src/Time/Wheel/Cancel.antt =====
-- `Cancel` of gtime/timerwheel.go: before the slot is fetched, and between the fetch and the
-- notification, when the ticker does not hold the lock.
use gokits.Prelude.{
  ℕ, zero, suc, ◌+◌, ◌<◌, ◌≡◌, refl, subst, ap₂, ◌∙◌, true, none, some, List, arith, ltb, lt→ltb,
  ◌==◌, if◌then◌else◌,
}
use gokits.Time.Wheel.{
  TimeOut, TimerWheel, place, at_least_tick, relative_index, next_cursor, tick, cancel,
  notify_expired,
}
use gokits.Time.Wheel.Items.{Keyed, Others, Tasks, delete_self-At, delete-Keyed}
use gokits.Time.Wheel.Wait.{
  Has, Has-eq, only, nowhere, stored, runs, again, expired_once, notify-Has, notify_foreign-Has,
}
use gokits.Time.Wheel.Arith.{ticks_left}
use gokits.Time.Wheel.Tick.{tick_quiet-Has, notify-SameDims}
use gokits.Time.Wheel.Due.{IsValid, Waits, runs_in}
use gokits.Time.Wheel.Schedule.{place-lem, at_least_tick-le, fires_at, FiresAt, Waits-FiresAt}

cancel-Has : (i : ℕ) (t : TimerWheel) → ((j : ℕ) → Keyed (t.wheel j)) → Has i nowhere (cancel t i)
unfolding cancel
cancel-Has i t keyed = record {
  at = λ j. delete_self-At i none (t.wheel j);
  keyed = λ j. delete-Keyed i (t.wheel j) (keyed j);
}

nowhere-runs_in : (guid i k : ℕ) (t : TimerWheel) → Has i nowhere t → runs_in guid i k t ≡ 0
unfolding runs_in
nowhere-runs_in guid i zero t h = refl
nowhere-runs_in guid i (suc k) t h =
    let (h', quiet) = tick_quiet-Has guid i t nowhere h none refl refl in
    let still : (j : ℕ) → (if next_cursor t == j then none else nowhere j) ≡ nowhere j =
      λ j. ground arith in
    omega (arith, quiet, nowhere-runs_in guid i k (tick guid t).1 (Has-eq still h'))

-- A `Cancel` between two rounds, with no fetched timers, or between the fetch and the notification of
-- others is in time: the timer's callback does not run, not when those are notified and not in any
-- number of ticks after, into which no call falls. The slots are keyed by the timers' ids.
pub cancel_stops :
    (guid i k : ℕ) (t : TimerWheel) (tasks : List TimeOut)
    → ((j : ℕ) → Keyed (t.wheel j))
    → Others i tasks
    → let (events, t') = notify_expired guid (cancel t i) tasks in
      runs i events + runs_in guid i k t' ≡ 0
cancel_stops guid i k t tasks keyed others =
    let (h, quiet) =
      notify_foreign-Has guid i nowhere (cancel t i) tasks others (cancel-Has i t keyed) in
    omega (arith, quiet, nowhere-runs_in guid i k (notify_expired guid (cancel t i) tasks).1 h)

cancel-IsValid : (i : ℕ) (t : TimerWheel) → IsValid t → IsValid (cancel t i)
unfolding cancel
cancel-IsValid i t v = ground (arith, v)

notify-IsValid :
    (guid : ℕ) (t : TimerWheel) (tasks : List TimeOut)
    → IsValid t
    → IsValid (notify_expired guid t tasks).1
notify-IsValid guid t tasks v = ground (arith, v, notify-SameDims guid t tasks)

-- A periodic timer that was fetched waits again after the notification.
notified-Waits :
    (guid i : ℕ) (t : TimerWheel) (v : TimeOut) (tasks : List TimeOut)
    → IsValid t
    → Has i nowhere t
    → Tasks i (some v) tasks
    → v.id ≡ some i
    → v.has_task ≡ true
    → v.exp_times + 1 < v.times
    → Waits i (fires_at t v.delay) (notify_expired guid t tasks).1
      × (runs i (notify_expired guid t tasks).0 ≡ 1)
notified-Waits guid i t v tasks w h mine own b more =
    let d = at_least_tick t v.delay in
    let t' = (notify_expired guid t tasks).1 in
    let (h', once) = notify-Has guid i t v tasks own b mine h in
    let periodic : ltb (v.exp_times + 1) v.times ≡ true = lt→ltb (v.exp_times + 1) v.times more in
    let stays : again t i (expired_once v) ≡ only (place t d).0 (stored t i (expired_once v)) =
      rw periodic in
    let (bound, left) = place-lem t d w (at_least_tick-le t v.delay) in
    let same = notify-SameDims guid t tasks in
    (
      record {
        slot = (place t d).0;
        item = stored t i (expired_once v);
        has = subst (λ f. Has i f t') stays h';
        own = refl;
        callback = b;
        in_range = omega (arith, bound, same.count_eq);
        left =
            ap₂ (λ n c. ticks_left n c (place t d).0 (place t d).1) same.count_eq same.cursor_eq
            ∙ left;
      },
      once,
    )

cancel-fires_at :
    (t : TimerWheel) (i interval : ℕ) → fires_at (cancel t i) interval ≡ fires_at t interval
unfolding cancel at_least_tick relative_index
cancel-fires_at t i interval = refl

-- A `Cancel`, between the fetch and the notification, of a timer that has been fetched, has a callback
-- and is to expire again is lost: the notification runs the callback once and schedules the timer anew,
-- and over ticks into which no other call falls the callback runs again at the tick of its interval.
-- The wheel is as for AfterFunc, and its slots are keyed by the timers' ids.
pub cancel_lost :
    (guid i : ℕ) (t : TimerWheel) (v : TimeOut) (tasks : List TimeOut)
    → IsValid t
    → ((j : ℕ) → Keyed (t.wheel j))
    → Tasks i (some v) tasks
    → v.id ≡ some i
    → v.has_task ≡ true
    → v.exp_times + 1 < v.times
    → let (events, t') = notify_expired guid (cancel t i) tasks in
      (runs i events ≡ 1) × FiresAt guid i (fires_at t v.delay) t'
cancel_lost guid i t v tasks w keyed mine own b more =
    let c = cancel t i in
    let (waits, once) =
      notified-Waits guid i c v tasks (cancel-IsValid i t w) (cancel-Has i t keyed) mine own b
        more in
    let (events, t') = notify_expired guid c tasks in
    (
      once,
      Waits-FiresAt guid i (fires_at t v.delay) t'
          (notify-IsValid guid c tasks (cancel-IsValid i t w))
          (subst (λ k. Waits i k t') (cancel-fires_at t i v.delay) waits),
    )
