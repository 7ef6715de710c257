-- ===== src/Time/Wheel/Wait.antt =====
-- One timer on the wheel of gtime/timerwheel.go, while other timers come and go.
use gokits.Prelude.{
  ℕ, ◌+◌, ◌≡◌, ◌≢◌, refl, sym, ap, ◌∙◌, subst, inl, inr, true, false, Bool, Option, none, some,
  List, [], ◌∷◌, arith, ltb, ◌==◌, if◌then◌else◌, Bool-cases, ==_iff,
}
use gokits.Time.Wheel.{
  TimeOut, Slot, TimerWheel, set_slot, put, place, at_least_tick, relative_index, remaining_rounds,
  schedule_time_out, id_or, Event, ran, sends, event_of, reschedule, notify_expired,
}
use gokits.Time.Wheel.Items.{At, Keyed, Others, Tasks, put-At, put_self-At, put-Keyed}

-- In slot `j` the timer `i` has the item `f j`, and every slot is keyed by ids.
pub record Has (i : ℕ) (f : ℕ → Option TimeOut) (t : TimerWheel) : Type 0 where
  pub at : (j : ℕ) → At i (f j) (t.wheel j)
  pub keyed : (j : ℕ) → Keyed (t.wheel j)

abbrev pub nowhere : ℕ → Option TimeOut
nowhere j = none

abbrev pub only : ℕ → TimeOut → ℕ → Option TimeOut
only s v j = if s == j then some v else none

-- Whether an event is a run of the callback of the timer `i`.
abbrev pub is_run : ℕ → Event → Bool
is_run i (ran j) = j == i
is_run i (sends n tasks) = false

-- How many of the events are runs of the callback of the timer `i`.
abbrev pub runs : ℕ → List Event → ℕ
runs i [] = 0
runs i (e ∷ es) = (if is_run i e then 1 else 0) + runs i es

pub Has-eq :
    {i : ℕ} {f g : ℕ → Option TimeOut} {t : TimerWheel}
    → ((j : ℕ) → f j ≡ g j)
    → Has i f t
    → Has i g t
Has-eq {i} {f} {g} {t} e h = record {
  at = λ j. subst (λ o. At i o (t.wheel j)) (e j) (h.at j);
  keyed = h.keyed;
}

-- One slot replaced.
pub set-Has :
    (i : ℕ) (f : ℕ → Option TimeOut) (t t' : TimerWheel) (s : ℕ) (o : Option TimeOut) (slot : Slot)
    → ((j : ℕ) → t'.wheel j ≡ set_slot t.wheel s slot j)
    → Has i f t
    → At i o slot
    → Keyed slot
    → Has i (λ j. if s == j then o else f j) t'
set-Has i f t t' s o slot e h a k = record {
  at = λ j. subst (At i (if s == j then o else f j)) (sym (e j)) (at_slot j);
  keyed = λ j. subst Keyed (sym (e j)) (keyed_slot j);
}
  where
    at_slot : (j : ℕ) → At i (if s == j then o else f j) (set_slot t.wheel s slot j)
    at_slot j = elim (Bool-cases (s == j)) [ inl here ↦ rw here a | inr there ↦ rw there (h.at j) ]

    keyed_slot : (j : ℕ) → Keyed (set_slot t.wheel s slot j)
    keyed_slot j = elim (Bool-cases (s == j)) [
      | inl here ↦ rw here k
      | inr there ↦ rw there (h.keyed j)
    ]

-- The item that `scheduleTimeOut` stores.
abbrev pub stored : TimerWheel → ℕ → TimeOut → TimeOut
stored t i v =
    let delay = at_least_tick t v.delay in
    record v { id = some i; delay = delay; index = (place t delay).0; rounds = (place t delay).1 }

replaced_self : (f : ℕ → Option TimeOut) (s j : ℕ) → (if s == j then f s else f j) ≡ f j
replaced_self f s j = elim (Bool-cases (s == j)) [
  | inl here ↦ rw here (ap f ((==_iff s j).0 here))
  | inr there ↦ rw there
]

-- Scheduling another timer.
schedule_foreign-Has :
    (guid i k : ℕ) (f : ℕ → Option TimeOut) (t : TimerWheel) (v : TimeOut)
    → v.id ≡ some k
    → k ≢ i
    → Has i f t
    → Has i f (schedule_time_out guid t v).1
unfolding schedule_time_out
schedule_foreign-Has guid i k f t v e n h =
    let id = id_or v.id guid in
    let s = (place t (at_least_tick t v.delay)).0 in
    let other : id ≢ i = λ same. n (sym (ap (λ o. id_or o guid) e) ∙ same) in
    Has-eq (replaced_self f s) (
      set-Has i f t (schedule_time_out guid t v).1 s (f s) (put id (stored t id v) (t.wheel s))
        (λ j. refl) h (put-At i id (f s) (stored t id v) (t.wheel s) other (h.at s))
        (put-Keyed id (stored t id v) (t.wheel s) refl (h.keyed s)))

-- Scheduling the timer itself.
pub schedule-Has :
    (guid i : ℕ) (t : TimerWheel) (v : TimeOut)
    → id_or v.id guid ≡ i
    → Has i nowhere t
    → Has i
        (only (place t (at_least_tick t v.delay)).0 (stored t i v))
        (schedule_time_out guid t v).1
unfolding schedule_time_out
schedule-Has guid i t v e h =
    subst
      (λ i.
        Has i nowhere t
        → Has i (only (place t (at_least_tick t v.delay)).0 (stored t i v))
            (schedule_time_out guid t v).1)
      e (stored_itself (id_or v.id guid)) h
  where
    stored_itself :
        (id : ℕ)
        → Has id nowhere t
        → Has id (only (place t (at_least_tick t v.delay)).0 (stored t id v)) (record t {
          wheel =
              set_slot t.wheel
                (place t (at_least_tick t v.delay)).0
                (put id (stored t id v) (t.wheel (place t (at_least_tick t v.delay)).0));
        })
    stored_itself id h =
        let s = (place t (at_least_tick t v.delay)).0 in
        set-Has id nowhere t
          (record t { wheel = set_slot t.wheel s (put id (stored t id v) (t.wheel s)) }) s
          (some (stored t id v)) (put id (stored t id v) (t.wheel s)) (λ j. refl) h
          (put_self-At id (stored t id v) (t.wheel s))
          (put-Keyed id (stored t id v) (t.wheel s) refl (h.keyed s))

reschedule_foreign-Has :
    (guid i k : ℕ) (f : ℕ → Option TimeOut) (t : TimerWheel) (v : TimeOut)
    → v.id ≡ some k
    → k ≢ i
    → Has i f t
    → Has i f (reschedule guid t v)
unfolding reschedule
reschedule_foreign-Has guid i k f t v e n h = elim (Bool-cases (ltb v.exp_times v.times)) [
  | inl more ↦ rw more (schedule_foreign-Has guid i k f t v e n h)
  | inr over ↦ rw over h
]

abbrev pub expired_once : TimeOut → TimeOut
expired_once v = record v { exp_times = v.exp_times + 1 }

other_event :
    (guid i k : ℕ) (v : TimeOut) (tasks : List TimeOut)
    → v.id ≡ some k
    → k ≢ i
    → is_run i (event_of guid v tasks) ≡ false
other_event guid i k v tasks e n = ground (arith, e)

pub notify_foreign-Has :
    (guid i : ℕ) (f : ℕ → Option TimeOut) (t : TimerWheel) (tasks : List TimeOut)
    → Others i tasks
    → Has i f t
    → Has i f (notify_expired guid t tasks).1 × (runs i (notify_expired guid t tasks).0 ≡ 0)
unfolding notify_expired
notify_foreign-Has guid i f t [] o h = (h, refl)
notify_foreign-Has guid i f t (v ∷ tasks) ((k, e, n), o) h =
    let t' = reschedule guid t (expired_once v) in
    let (h', quiet) =
      notify_foreign-Has guid i f t' tasks o
        (reschedule_foreign-Has guid i k f t (expired_once v) e n h) in
    (h', rw (other_event guid i k (expired_once v) tasks e n) (omega (arith, quiet)))

-- The timer's item after it has fired: it waits again, or is gone.
abbrev pub again : TimerWheel → ℕ → TimeOut → ℕ → Option TimeOut
again t i v =
    if ltb v.exp_times v.times
    then only (place t (at_least_tick t v.delay)).0 (stored t i v)
    else nowhere

reschedule-Has :
    (guid i : ℕ) (t : TimerWheel) (v : TimeOut)
    → v.id ≡ some i
    → Has i nowhere t
    → Has i (again t i v) (reschedule guid t v)
unfolding reschedule
reschedule-Has guid i t v e h = elim (Bool-cases (ltb v.exp_times v.times)) [
  | inl more ↦ rw more (schedule-Has guid i t v (ap (λ o. id_or o guid) e) h)
  | inr over ↦ rw over h
]

again-reschedule :
    (guid i : ℕ) (t : TimerWheel) (w v : TimeOut) → again (reschedule guid t w) i v ≡ again t i v
unfolding reschedule schedule_time_out place at_least_tick relative_index remaining_rounds
again-reschedule guid i t w v = elim (Bool-cases (ltb w.exp_times w.times)) [
  | inl more ↦ rw more
  | inr over ↦ rw over
]

own_event :
    (guid i : ℕ) (v : TimeOut) (tasks : List TimeOut)
    → v.id ≡ some i
    → v.has_task ≡ true
    → is_run i (event_of guid v tasks) ≡ true
own_event guid i v tasks e b = ground (arith, e, b)

notify_here-Has :
    (guid i : ℕ) (t : TimerWheel) (v : TimeOut) (tasks : List TimeOut)
    → v.id ≡ some i
    → v.has_task ≡ true
    → Others i tasks
    → Has i nowhere t
    → Has i (again t i (expired_once v)) (notify_expired guid t (v ∷ tasks)).1
      × (runs i (notify_expired guid t (v ∷ tasks)).0 ≡ 1)
unfolding notify_expired
notify_here-Has guid i t v tasks e b o h =
    let w = expired_once v in
    let (h', quiet) =
      notify_foreign-Has guid i (again t i w) (reschedule guid t w) tasks o
        (reschedule-Has guid i t w e h) in
    (h', rw (own_event guid i w tasks e b) (omega (arith, quiet)))

-- A callback among the expired ones runs once, and waits again if it is to.
pub notify-Has :
    (guid i : ℕ) (t : TimerWheel) (v : TimeOut) (tasks : List TimeOut)
    → v.id ≡ some i
    → v.has_task ≡ true
    → Tasks i (some v) tasks
    → Has i nowhere t
    → Has i (again t i (expired_once v)) (notify_expired guid t tasks).1
      × (runs i (notify_expired guid t tasks).0 ≡ 1)
unfolding notify_expired
notify-Has guid i t v [] e b k h = absurd k
notify-Has guid i t v (w ∷ tasks) e b (inl (same, o)) h =
    subst
      (λ u.
        Has i (again t i (expired_once v)) (notify_expired guid t (u ∷ tasks)).1
        × (runs i (notify_expired guid t (u ∷ tasks)).0 ≡ 1))
      (sym same) (notify_here-Has guid i t v tasks e b o h)
notify-Has guid i t v (w ∷ tasks) e b (inr ((k, e', n), more)) h =
    let t' = reschedule guid t (expired_once w) in
    let (h', once) =
      notify-Has guid i t' v tasks e b more
        (reschedule_foreign-Has guid i k nowhere t (expired_once w) e' n h) in
    (
      subst (λ f. Has i f (notify_expired guid t' tasks).1)
          (again-reschedule guid i t (expired_once w) (expired_once v)) h',
      rw (other_event guid i k (expired_once w) tasks e' n) (omega (arith, once)),
    )
