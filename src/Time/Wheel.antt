-- ===== src/Time/Wheel.antt =====
-- gtime/timerwheel.go: a wheel of slots that a ticker steps through. A round of it is `turn`, `fetch` and
-- `notify_expired`; a slot's map is an association list, the wheel a function of the slot's index. Timer ids are numbers,
-- the empty id is `none`; `guid` is the id that the random generator would give.
pub mod Items
pub mod Arith
pub mod Wait
pub mod Tick
pub mod Due
pub mod Schedule
pub mod Cancel
mod Tests
use gokits.Prelude.{
  ℕ, zero, suc, ◌+◌, ◌-◌, ◌*◌, ◌/◌, ◌%◌, Bool, true, false, Option, none, some, List, [], ◌∷◌, ltb,
  leb, ◌==◌, if◌then◌else◌, not,
}
use gokits.Prelude.Int.{ℤ, pos, negsuc, pos_part}
use gokits.Prelude.Word.{mul_i64}

-- `wheelTimeOut`: `has_task` tells a callback from a channel.
pub record TimeOut : Type 0 where
  pub id : Option ℕ
  pub delay : ℕ
  pub index : ℕ
  pub rounds : ℕ
  pub has_task : Bool
  pub times : ℕ
  pub exp_times : ℕ

-- `iterator`
abbrev pub Slot : Type 0
Slot = List (ℕ × TimeOut)

-- `TimerWheel`; durations are in nanoseconds.
pub record TimerWheel : Type 0 where
  pub tick_duration : ℕ
  pub round_duration : ℕ
  pub wheel_count : ℕ
  pub wheel : ℕ → Slot
  pub wheel_cursor : ℕ

-- `NewTimerWheel`: the options are a tick duration and a number of slots.
pub new_timer_wheel : Option (ℕ × ℕ) → TimerWheel
new_timer_wheel none = record {
  tick_duration = 100_000_000;
  round_duration = mul_i64 100_000_000 512;
  wheel_count = 512;
  wheel = λ _. [];
  wheel_cursor = 0;
}
new_timer_wheel (some (tick, count)) = record {
  tick_duration = tick;
  round_duration = mul_i64 tick count;
  wheel_count = count;
  wheel = λ _. [];
  wheel_cursor = 0;
}

-- `delete(items, key)`
pub delete : ℕ → Slot → Slot
delete i [] = []
delete i ((k, v) ∷ s) = if k == i then delete i s else (k, v) ∷ delete i s

-- `items[key] = value`
pub put : ℕ → TimeOut → Slot → Slot
put i v s = (i, v) ∷ delete i s

abbrev pub set_slot : (ℕ → Slot) → ℕ → Slot → ℕ → Slot
set_slot w i s j = if i == j then s else w j

-- The delay that `scheduleTimeOut` works with: at least one tick.
pub at_least_tick : TimerWheel → ℕ → ℕ
at_least_tick t d = if ltb d t.tick_duration then t.tick_duration else d

-- `relativeIndex`
pub relative_index : TimerWheel → ℕ → ℕ
relative_index t d =
    let index = d % t.round_duration / t.tick_duration in
    if d % t.tick_duration == 0 then index else index + 1

-- `remainingRounds`
pub remaining_rounds : TimerWheel → ℕ → ℕ
remaining_rounds t d =
    let rounds = d / t.round_duration in if d % t.round_duration == 0 then rounds - 1 else rounds

-- The slot and the rounds that `scheduleTimeOut` chooses.
pub place : TimerWheel → ℕ → ℕ × ℕ
place t d =
    let stop = t.wheel_cursor + relative_index t d in
    if leb t.wheel_count stop
    then (stop - t.wheel_count, remaining_rounds t d + 1)
    else (stop, remaining_rounds t d)

abbrev pub id_or : Option ℕ → ℕ → ℕ
id_or none guid = guid
id_or (some i) guid = i

-- `scheduleTimeOut`
pub schedule_time_out : ℕ → TimerWheel → TimeOut → ℕ × TimerWheel
schedule_time_out guid t v =
    let delay = at_least_tick t v.delay in
    let (stop, rounds) = place t delay in
    let i = id_or v.id guid in
    let v' = record v { id = some i; delay = delay; index = stop; rounds = rounds } in
    (i, record t { wheel = set_slot t.wheel stop (put i v' (t.wheel stop)) })

pub data Error : Type 0 where
  empty_callback bad_interval : Error

pub data Result {ℓ} (A : Type ℓ) : Type ℓ where
  ok : A → Result A
  err : Error → Result A

-- The default of `times`.
abbrev times_or_forever : ℤ → ℕ
times_or_forever (pos zero) = 0x0FFFFFFF
times_or_forever (pos (suc n)) = suc n
times_or_forever (negsuc n) = 0x0FFFFFFF

abbrev pub new_time_out : Bool → ℕ → ℤ → TimeOut
new_time_out has_task interval times = record {
  id = none;
  delay = interval;
  index = 0;
  rounds = 0;
  has_task = has_task;
  times = times_or_forever times;
  exp_times = 0;
}

-- `AfterFunc`, with a callback that is nil or not.
pub after_func : ℕ → TimerWheel → ℤ → ℤ → Bool → Result (ℕ × TimerWheel)
after_func guid t interval times false = err empty_callback
after_func guid t (negsuc n) times true = err bad_interval
after_func guid t (pos zero) times true = err bad_interval
after_func guid t (pos (suc n)) times true =
    ok (schedule_time_out guid t (new_time_out true (suc n) times))

-- `After`
pub after : ℕ → TimerWheel → ℤ → ℤ → Result (ℕ × TimerWheel)
after guid t (negsuc n) times = err bad_interval
after guid t (pos zero) times = err bad_interval
after guid t (pos (suc n)) times = ok (schedule_time_out guid t (new_time_out false (suc n) times))

-- `Cancel`
pub cancel : TimerWheel → ℕ → TimerWheel
cancel t i = record t { wheel = λ j. delete i (t.wheel j) }

-- `fetchExpiredTimeouts`: what has expired, and the slot that is left.
pub fetch_expired : Slot → List TimeOut × Slot
fetch_expired [] = ([], [])
fetch_expired ((k, v) ∷ s) =
    let (tasks, kept) = fetch_expired s in
    if v.rounds == 0
    then (v ∷ tasks, kept)
    else (tasks, (k, record v { rounds = v.rounds - 1 }) ∷ kept)

-- What `notifyExpiredTimeOut` starts for a timer: its callback, or a goroutine that sends on a channel
-- and closes it if the times are over. That goroutine has the number of expirations as an argument, but
-- the loop's variable as it is when it runs, which is this timer or one that comes after it: their list.
pub data Event : Type 0 where
  ran : ℕ → Event
  sends : ℕ → List TimeOut → Event

abbrev pub event_of : ℕ → TimeOut → List TimeOut → Event
event_of guid v tasks = if v.has_task then ran (id_or v.id guid) else sends v.exp_times (v ∷ tasks)

-- A timer that has not expired as often as it was asked to is scheduled again.
pub reschedule : ℕ → TimerWheel → TimeOut → TimerWheel
reschedule guid t v = if ltb v.exp_times v.times then (schedule_time_out guid t v).1 else t

-- `notifyExpiredTimeOut`
pub notify_expired : ℕ → TimerWheel → List TimeOut → List Event × TimerWheel
unfolding reschedule
notify_expired guid t [] = ([], t)
notify_expired guid t (v ∷ tasks) =
    let v' = record v { exp_times = v.exp_times + 1 } in
    let (events, t') = notify_expired guid (reschedule guid t v') tasks in
    (event_of guid v' tasks ∷ events, t')

-- The cursor's next place.
abbrev pub next_cursor : TimerWheel → ℕ
next_cursor t = let c = t.wheel_cursor + 1 in if c == t.wheel_count then 0 else c

-- The cursor moves, before the lock is taken.
abbrev pub turn : TimerWheel → TimerWheel
turn t = record t { wheel_cursor = next_cursor t }

-- `fetchExpiredTimeouts` of the slot at the cursor, under the lock.
abbrev pub fetch : TimerWheel → List TimeOut × TimerWheel
fetch t =
    let (tasks, kept) = fetch_expired (t.wheel t.wheel_cursor) in
    (tasks, record t { wheel = set_slot t.wheel t.wheel_cursor kept })

-- One round of the loop in `Start`, into which no other call falls. The lock is free between the
-- three steps, so a call may fall there: it is then applied between `turn`, `fetch` and
-- `notify_expired`.
pub tick : ℕ → TimerWheel → List Event × TimerWheel
tick guid t = let (tasks, t') = fetch (turn t) in notify_expired guid t' tasks
