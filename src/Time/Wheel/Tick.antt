-- ===== src/Time/Wheel/Tick.antt =====
-- What one tick of gtime/timerwheel.go does to a timer that waits.
use gokits.Prelude.{
  ℕ, ◌≡◌, refl, subst, true, Option, none, some, List, [], ◌∷◌, arith, ◌==◌, if◌then◌else◌,
}
use gokits.Time.Wheel.{
  TimeOut, Slot, TimerWheel, set_slot, place, at_least_tick, relative_index, remaining_rounds,
  schedule_time_out, reschedule, fetch_expired, notify_expired, next_cursor, tick,
}
use gokits.Time.Wheel.Items.{Tasks, due, kept, fetch-Keyed, fetch-At}
use gokits.Time.Wheel.Wait.{
  Has, Has-eq, set-Has, runs, notify-Has, notify_foreign-Has, again, expired_once,
}

-- The ticker's own fields.
pub record SameDims (t u : TimerWheel) : Type 0 where
  pub tick_eq : u.tick_duration ≡ t.tick_duration
  pub round_eq : u.round_duration ≡ t.round_duration
  pub count_eq : u.wheel_count ≡ t.wheel_count
  pub cursor_eq : u.wheel_cursor ≡ t.wheel_cursor

pub reschedule-SameDims :
    (guid : ℕ) (t : TimerWheel) (v : TimeOut) → SameDims t (reschedule guid t v)
unfolding reschedule schedule_time_out
reschedule-SameDims guid t v = ground arith

pub notify-SameDims :
    (guid : ℕ) (t : TimerWheel) (tasks : List TimeOut) → SameDims t (notify_expired guid t tasks).1
unfolding notify_expired
notify-SameDims guid t [] = record {
  tick_eq = refl;
  round_eq = refl;
  count_eq = refl;
  cursor_eq = refl;
}
notify-SameDims guid t (v ∷ tasks) = ground (
  arith,
  reschedule-SameDims guid t (expired_once v),
  notify-SameDims guid (reschedule guid t (expired_once v)) tasks,
)

-- The wheel with the cursor moved.
abbrev pub moved : TimerWheel → TimerWheel
moved t = record t { wheel_cursor = next_cursor t }

pub tick-SameDims : (guid : ℕ) (t : TimerWheel) → SameDims (moved t) (tick guid t).1
unfolding tick
tick-SameDims guid t =
    let c = next_cursor t in
    let (tasks, left) = fetch_expired (t.wheel c) in
    let same = notify-SameDims guid (record (moved t) { wheel = set_slot t.wheel c left }) tasks in
    record {
      tick_eq = same.tick_eq;
      round_eq = same.round_eq;
      count_eq = same.count_eq;
      cursor_eq = same.cursor_eq;
    }

module _ (guid i : ℕ) (t : TimerWheel) (f : ℕ → Option TimeOut) (h : Has i f t) where
  slot : Slot
  slot = t.wheel (next_cursor t)

  turned : TimerWheel
  turned = record t {
    wheel_cursor = next_cursor t;
    wheel = set_slot t.wheel (next_cursor t) (fetch_expired (t.wheel (next_cursor t))).1;
  }

  again-turned : (v : TimeOut) → again turned i v ≡ again (moved t) i v
  unfolding turned place at_least_tick relative_index remaining_rounds
  again-turned v = refl

  fetched-Has :
      Tasks i (due (f (next_cursor t))) (fetch_expired slot).0
      × Has i (λ j. if next_cursor t == j then kept (f (next_cursor t)) else f j) turned
  unfolding slot turned
  fetched-Has =
      let c = next_cursor t in
      let (tasks, left) = fetch-At i (f c) (t.wheel c) (h.keyed c) (h.at c) in
      (
        tasks,
        set-Has i f t turned c (kept (f c)) (fetch_expired (t.wheel c)).1 (λ j. refl) h left
            (fetch-Keyed (t.wheel c) (h.keyed c)),
      )

  -- A slot that the timer does not stand in, or not for the last time.
  pub tick_quiet-Has :
      (o : Option TimeOut)
      → f (next_cursor t) ≡ o
      → due o ≡ none
      → Has i (λ j. if next_cursor t == j then kept o else f j) (tick guid t).1
        × (runs i (tick guid t).0 ≡ 0)
  unfolding tick slot turned
  tick_quiet-Has o e d =
      let c = next_cursor t in
      let tasks = (fetch_expired (t.wheel c)).0 in
      let (mine, left) =
        subst (λ p. Tasks i (due p) tasks × Has i (λ j. if c == j then kept p else f j) turned) e
          fetched-Has in
      notify_foreign-Has guid i (λ j. if c == j then kept o else f j) turned tasks
        (subst (λ p. Tasks i p tasks) d mine) left

  pub tick_due-Has :
      (v : TimeOut)
      → f (next_cursor t) ≡ some v
      → v.id ≡ some i
      → v.has_task ≡ true
      → v.rounds ≡ 0
      → ((j : ℕ) → (if next_cursor t == j then none else f j) ≡ none)
      → Has i (again (moved t) i (expired_once v)) (tick guid t).1 × (runs i (tick guid t).0 ≡ 1)
  unfolding tick slot turned
  tick_due-Has v e own b r alone =
      let c = next_cursor t in
      let tasks = (fetch_expired (t.wheel c)).0 in
      let (mine, left) =
        subst (λ p. Tasks i (due p) tasks × Has i (λ j. if c == j then kept p else f j) turned) e
          fetched-Has in
      let gone : kept (some v) ≡ none = ground arith in
      let fired : due (some v) ≡ some v = ground arith in
      let left' = subst (λ p. Has i (λ j. if c == j then p else f j) turned) gone left in
      let (h', once) =
        notify-Has guid i turned v tasks own b (subst (λ p. Tasks i p tasks) fired mine)
          (Has-eq alone left') in
      (subst (λ g. Has i g (tick guid t).1) (again-turned (expired_once v)) h', once)
