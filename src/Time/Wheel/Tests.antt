-- ===== src/Time/Wheel/Tests.antt =====
-- Runs of gtime/timerwheel.go on small wheels.
use gokits.Prelude.{
  ℕ, suc, ◌+◌, ◌≡◌, refl, inl, true, none, some, [], ◌∷◌, arith, ◌==◌, if◌then◌else◌,
}
use gokits.Prelude.Int.{pos}
use gokits.Time.Wheel.{
  TimerWheel, TimeOut, new_timer_wheel, place, relative_index, remaining_rounds, at_least_tick,
  after_func, ok, cancel, tick, notify_expired, fetch_expired, reschedule,
}
use gokits.Time.Wheel.Items.{Keyed}
use gokits.Time.Wheel.Wait.{Has, nowhere, runs}
use gokits.Time.Wheel.Due.{IsValid, runs_in}
use gokits.Time.Wheel.Schedule.{FiresAt, fires_at, after_func_fires}
use gokits.Time.Wheel.Cancel.{cancel_stops, cancel_lost}

-- The two slots of the repository's own tests: 4 s and 1 min on the default wheel.
default_places :
    (place (new_timer_wheel none) 4_000_000_000 ≡ (40, 0))
    × (place (new_timer_wheel none) 60_000_000_000 ≡ (88, 1))
unfolding new_timer_wheel place relative_index remaining_rounds
default_places = (refl, refl)

-- Ten slots of 100 ns, the cursor on the sixth.
abbrev half_way : TimerWheel
half_way = record {
  tick_duration = 100;
  round_duration = 1000;
  wheel_count = 10;
  wheel = λ _. [];
  wheel_cursor = 5;
}

half_way-IsValid : IsValid half_way
half_way-IsValid = omega arith

half_way-Has : Has 1 nowhere half_way
half_way-Has = record { at = λ j. tt; keyed = λ j. tt }

-- 700 ns are 7 ticks, and the timer fires at the 17th.
late_by_a_round : fires_at half_way 700 ≡ 17
unfolding at_least_tick relative_index
late_by_a_round = refl

after_func_fires_example :
    (t' : TimerWheel) × (after_func 1 half_way (pos (suc 699)) (pos 1) true ≡ ok (1, t'))
    × IsValid t'
    × FiresAt 9 1 (fires_at half_way (suc 699)) t'
after_func_fires_example = after_func_fires 1 9 699 (pos 1) half_way half_way-IsValid half_way-Has

abbrev waiting : TimeOut
waiting = record {
  id = some 1;
  delay = 700;
  index = 2;
  rounds = 1;
  has_task = true;
  times = 1;
  exp_times = 0;
}

abbrev with_timer : TimerWheel
with_timer = record half_way { wheel = λ j. if 2 == j then (1, waiting) ∷ [] else [] }

with_timer-Keyed : (j : ℕ) → Keyed (with_timer.wheel j)
with_timer-Keyed j = ground arith

fires_when_not_cancelled : (runs_in 9 1 16 with_timer ≡ 0) × (runs_in 9 1 17 with_timer ≡ 1)
unfolding runs_in tick notify_expired fetch_expired reschedule
fires_when_not_cancelled = (refl, refl)

cancel_stops_example :
    let (events, t') = notify_expired 9 (cancel with_timer 1) [] in
    runs 1 events + runs_in 9 1 30 t' ≡ 0
cancel_stops_example = cancel_stops 9 1 30 with_timer [] with_timer-Keyed tt

-- A timer of 700 ns that is to expire three times, just fetched.
abbrev periodic : TimeOut
periodic = record waiting { rounds = 0; times = 3 }

half_way-Keyed : (j : ℕ) → Keyed (half_way.wheel j)
half_way-Keyed j = tt

cancel_lost_example :
    let (events, t') = notify_expired 9 (cancel half_way 1) (periodic ∷ []) in
    (runs 1 events ≡ 1) × FiresAt 9 1 (fires_at half_way 700) t'
cancel_lost_example =
    cancel_lost 9 1 half_way periodic (periodic ∷ []) half_way-IsValid half_way-Keyed
      (inl (refl, tt)) refl refl (omega arith)
