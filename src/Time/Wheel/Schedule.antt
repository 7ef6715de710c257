-- ===== src/Time/Wheel/Schedule.antt =====
-- `scheduleTimeOut` and `AfterFunc` of gtime/timerwheel.go: the tick at which a callback runs.
use native.Mathlib.Nat.{div-div-eq-div-mul, div-add-mod, mod-lt, le-div_iff_mul-le}
use gokits.Prelude.{
  ℕ, zero, suc, ◌+◌, ◌-◌, ◌*◌, ◌/◌, ◌%◌, ◌≤◌, ◌<◌, ◌≡◌, refl, sym, ap, ◌∙◌, Bool, true, arith, leb,
  ◌==◌, if◌then◌else◌,
}
use gokits.Prelude.Int.{ℤ, pos}
use gokits.Time.Wheel.{
  TimeOut, TimerWheel, place, at_least_tick, relative_index, remaining_rounds, schedule_time_out,
  id_or, ok, after_func, new_time_out,
}
use gokits.Time.Wheel.Arith.{
  ticks_of, ticks_left, mod_of_product, div_of_mod_product, place_arith, left_pos,
}
use gokits.Time.Wheel.Wait.{Has, nowhere, stored, schedule-Has}
use gokits.Time.Wheel.Due.{IsValid, Waits, Waits-runs, runs_in}

-- A delay is a whole number of rounds if it is one of ticks and those are one of rounds.
no_rest : (tau a r : ℕ) → 0 < tau → ((tau * a + r) == 0) ≡ ((a + (if r == 0 then 0 else 1)) == 0)
no_rest tau zero r p = ground arith
no_rest tau (suc a) r p = ground arith

module _ (t : TimerWheel) (d : ℕ) (v : IsValid t) where
  rest : ℕ
  rest = if d % t.tick_duration == 0 then 0 else 1

  whole : ℕ
  whole = d / t.tick_duration

  rest-le : rest ≤ 1
  unfolding rest
  rest-le = ground arith

  some_tick : t.tick_duration ≤ d → 0 < whole + rest
  unfolding whole
  some_tick h = omega (arith, (le-div_iff_mul-le {x = 1} {y = d} v.ticking).1 (omega arith))

  total-ticks_of : whole + rest ≡ ticks_of t.tick_duration d
  unfolding whole rest
  total-ticks_of = refl

  relative_index-eq : relative_index t d ≡ whole % t.wheel_count + rest
  unfolding relative_index rest whole
  relative_index-eq =
      let tau = t.tick_duration in
      let n = t.wheel_count in
      let in_round = ap (λ (r : ℕ). d % r / tau) v.round ∙ div_of_mod_product tau n d v.ticking in
      ground (arith, in_round)

  remaining_rounds-eq : remaining_rounds t d ≡ (
      if (whole % t.wheel_count + rest) == 0
      then whole / t.wheel_count - 1
      else whole / t.wheel_count)
  unfolding remaining_rounds rest whole
  remaining_rounds-eq =
      let tau = t.tick_duration in
      let n = t.wheel_count in
      let rest_of = ap (λ (r : ℕ). d % r) v.round ∙ mod_of_product tau n d in
      let rounds = ap (λ (r : ℕ). d / r) v.round ∙ sym (div-div-eq-div-mul d tau n) in
      rw (rest_of, rounds, no_rest tau (d / tau % n) (d % tau) v.ticking)

  -- Whether the slot lies behind the end of the wheel.
  abbrev pub turns : Bool
  turns = leb t.wheel_count (t.wheel_cursor + relative_index t d)

  pub place-lem :
      t.tick_duration ≤ d
      → ((place t d).0 < t.wheel_count)
        × (ticks_left t.wheel_count t.wheel_cursor (place t d).0 (place t d).1
            ≡ ticks_of t.tick_duration d + (if turns then t.wheel_count else 0))
  unfolding place
  place-lem h =
      let n = t.wheel_count in
      let c = t.wheel_cursor in
      let total : n * (whole / n) + whole % n + rest ≡ whole + rest =
        omega (arith, div-add-mod whole n) in
      let (bound, left) =
        place_arith n c (whole / n) (whole % n) rest (mod-lt whole v.slots) v.cursor rest-le
          (rw total (some_tick h)) in
      rw (relative_index-eq, remaining_rounds-eq)
        (
          bound,
          left
              ∙ ap (λ (k : ℕ). k + (if leb n (c + (whole % n + rest)) then n else 0))
                  (total ∙ total-ticks_of),
        )

pub at_least_tick-le : (t : TimerWheel) (d : ℕ) → t.tick_duration ≤ at_least_tick t d
unfolding at_least_tick
at_least_tick-le t d = ground arith

-- The tick at which a timer of this interval fires: the ticks that the interval takes, and one more
-- round of the wheel if the slot lies behind the end of the wheel.
abbrev pub fires_at : (t : TimerWheel) → ℕ → ℕ
fires_at t interval =
    let d = at_least_tick t interval in
    ticks_of t.tick_duration d
    + (if leb t.wheel_count (t.wheel_cursor + relative_index t d) then t.wheel_count else 0)

pub schedule-IsValid :
    (guid : ℕ) (t : TimerWheel) (v : TimeOut) → IsValid t → IsValid (schedule_time_out guid t v).1
unfolding schedule_time_out
schedule-IsValid guid t v w = ground arith

pub schedule-Waits :
    (guid i : ℕ) (t : TimerWheel) (v : TimeOut)
    → IsValid t
    → Has i nowhere t
    → id_or v.id guid ≡ i
    → v.has_task ≡ true
    → Waits i (fires_at t v.delay) (schedule_time_out guid t v).1
unfolding schedule_time_out
schedule-Waits guid i t v w h e b =
    let d = at_least_tick t v.delay in
    let (bound, left) = place-lem t d w (at_least_tick-le t v.delay) in
    record {
      slot = (place t d).0;
      item = stored t i v;
      has = schedule-Has guid i t v e h;
      own = refl;
      callback = b;
      in_range = bound;
      left = left;
    }

schedule_id :
    (guid : ℕ) (t : TimerWheel) (v : TimeOut) → (schedule_time_out guid t v).0 ≡ id_or v.id guid
unfolding schedule_time_out
schedule_id guid t v = refl

-- Fires not in the next ticks before, and once at, the tick that `fires_at` names.
abbrev pub FiresAt : ℕ → ℕ → ℕ → TimerWheel → Type 0
FiresAt guid i k t = (0 < k) × (runs_in guid i (k - 1) t ≡ 0) × (runs_in guid i k t ≡ 1)

pub Waits-FiresAt : (guid i k : ℕ) (t : TimerWheel) → IsValid t → Waits i k t → FiresAt guid i k t
Waits-FiresAt guid i zero t v w = absurd (
    omega (
      arith,
      w.left,
      left_pos t.wheel_count t.wheel_cursor w.slot w.item.rounds v.cursor w.in_range,
    ))
Waits-FiresAt guid i (suc k) t v w =
    let (before, at) = Waits-runs guid i k t v w in
    (omega arith, ap (λ (j : ℕ). runs_in guid i j t) (omega arith) ∙ before, at)

-- `AfterFunc` with a positive interval and a callback gives the timer an id that no slot has, and over
-- ticks into which no other call falls the callback does not run before a known tick and runs once in
-- it: that of the interval, rounded up to whole ticks, where the slot does not lie behind the end of
-- the wheel, and one full round later where it does. The wheel has a tick and slots, its cursor is on
-- one, and its round has not overflowed.
pub after_func_fires :
    (guid g interval : ℕ) (times : ℤ) (t : TimerWheel)
    → IsValid t
    → Has guid nowhere t
    → (t' : TimerWheel) × (after_func guid t (pos (suc interval)) times true ≡ ok (guid, t'))
      × IsValid t'
      × FiresAt g guid (fires_at t (suc interval)) t'
unfolding after_func
after_func_fires guid g interval times t v h =
    let x = new_time_out true (suc interval) times in
    let (id, t') = schedule_time_out guid t x in
    (
      t',
      ap (λ i. ok (i, t')) (schedule_id guid t x),
      schedule-IsValid guid t x v,
      Waits-FiresAt g guid (fires_at t (suc interval)) t' (schedule-IsValid guid t x v)
          (schedule-Waits guid guid t x v h refl refl),
    )
