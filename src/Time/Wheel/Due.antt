-- ===== src/Time/Wheel/Due.antt =====
-- When a timer of gtime/timerwheel.go fires.
use native.Mathlib.Decide.{ℕ_discrete}
use gokits.Prelude.{
  ℕ, zero, suc, ◌+◌, ◌*◌, ◌<◌, ◌≡◌, ◌≢◌, refl, sym, ap, ap₂, ◌∙◌, subst, true, none, some, arith,
  ◌==◌, if◌then◌else◌,
}
use gokits.Time.Wheel.{TimeOut, TimerWheel, next_cursor, tick}
use gokits.Time.Wheel.Items.{due, kept}
use gokits.Time.Wheel.Arith.{ticks_left, left_away, left_here, left_round, left_pos, next-lt}
use gokits.Time.Wheel.Wait.{Has, Has-eq, only, runs}
use gokits.Time.Wheel.Tick.{tick-SameDims, tick_quiet-Has, tick_due-Has}

-- A wheel with slots and a tick, whose round has not overflowed and whose cursor is on a slot.
pub record IsValid (t : TimerWheel) : Type 0 where
  pub ticking : 0 < t.tick_duration
  pub slots : 0 < t.wheel_count
  pub round : t.round_duration ≡ t.tick_duration * t.wheel_count
  pub cursor : t.wheel_cursor < t.wheel_count

pub tick-IsValid : (guid : ℕ) (t : TimerWheel) → IsValid t → IsValid (tick guid t).1
tick-IsValid guid t v = ground (arith, tick-SameDims guid t)

-- How often the callback of the timer `i` runs in the next `k` ticks.
unfoldable pub runs_in : ℕ → ℕ → ℕ → TimerWheel → ℕ
runs_in guid i zero t = 0
runs_in guid i (suc k) t = let (events, t') = tick guid t in runs i events + runs_in guid i k t'

-- The timer `i`, which has a callback, is on the wheel, in a slot of it, and runs it in `k` ticks.
pub record Waits (i k : ℕ) (t : TimerWheel) : Type 0 where
  pub slot : ℕ
  pub item : TimeOut
  pub has : Has i (only slot item) t
  pub own : item.id ≡ some i
  pub callback : item.has_task ≡ true
  pub in_range : slot < t.wheel_count
  pub left : ticks_left t.wheel_count t.wheel_cursor slot item.rounds ≡ k

away_only :
    (c s : ℕ) (x : TimeOut) → s ≢ c → (j : ℕ) → (if c == j then none else only s x j) ≡ only s x j
away_only c s x n j = ground arith

here_only : (c : ℕ) (x y : TimeOut) (j : ℕ) → (if c == j then some y else only c x j) ≡ only c y j
here_only c x y j = ground arith

gone_only : (c : ℕ) (x : TimeOut) (j : ℕ) → (if c == j then none else only c x j) ≡ none
gone_only c x j = ground arith

only_self : (c : ℕ) (x : TimeOut) → only c x c ≡ some x
only_self c x = ground arith

tick_away :
    (guid i : ℕ) (t : TimerWheel) (s : ℕ) (x : TimeOut)
    → s ≢ next_cursor t
    → Has i (only s x) t
    → Has i (only s x) (tick guid t).1 × (runs i (tick guid t).0 ≡ 0)
tick_away guid i t s x n h =
    let c = next_cursor t in
    let absent : only s x c ≡ none = ground arith in
    let (h', quiet) = tick_quiet-Has guid i t (only s x) h none absent refl in
    (Has-eq (away_only c s x n) h', quiet)

tick_round :
    (guid i r : ℕ) (t : TimerWheel) (x : TimeOut)
    → x.rounds ≡ suc r
    → Has i (only (next_cursor t) x) t
    → Has i (only (next_cursor t) (record x { rounds = r })) (tick guid t).1
      × (runs i (tick guid t).0 ≡ 0)
tick_round guid i r t x e h =
    let c = next_cursor t in
    let y = record x { rounds = r } in
    let later : due (some x) ≡ none = ground arith in
    let fewer : kept (some x) ≡ some y = ground arith in
    let (h', quiet) = tick_quiet-Has guid i t (only c x) h (some x) (only_self c x) later in
    (
      Has-eq (here_only c x y)
          (subst (λ o. Has i (λ j. if c == j then o else only c x j) (tick guid t).1) fewer h'),
      quiet,
    )

tick_last :
    (guid i : ℕ) (t : TimerWheel) (x : TimeOut)
    → x.rounds ≡ 0
    → x.id ≡ some i
    → x.has_task ≡ true
    → Has i (only (next_cursor t) x) t
    → runs i (tick guid t).0 ≡ 1
tick_last guid i t x e own b h =
    let c = next_cursor t in
    (tick_due-Has guid i t (only c x) h x (only_self c x) own b e (gone_only c x)).1

-- One tick less to go.
Waits-by :
    (guid i k : ℕ) (t : TimerWheel) (s : ℕ) (x : TimeOut)
    → Has i (only s x) (tick guid t).1
    → x.id ≡ some i
    → x.has_task ≡ true
    → s < t.wheel_count
    → ticks_left t.wheel_count (next_cursor t) s x.rounds ≡ k
    → Waits i k (tick guid t).1
Waits-by guid i k t s x h own b p e =
    let same = tick-SameDims guid t in
    record {
      slot = s;
      item = x;
      has = h;
      own = own;
      callback = b;
      in_range = omega arith;
      left = ap₂ (λ n c. ticks_left n c s x.rounds) same.count_eq same.cursor_eq ∙ e;
    }

here-Waits :
    (guid i k r : ℕ) (t : TimerWheel) (x : TimeOut)
    → IsValid t
    → x.rounds ≡ r
    → x.id ≡ some i
    → x.has_task ≡ true
    → Has i (only (next_cursor t) x) t
    → ticks_left t.wheel_count t.wheel_cursor (next_cursor t) x.rounds ≡ suc (suc k)
    → Waits i (suc k) (tick guid t).1 × (runs i (tick guid t).0 ≡ 0)
here-Waits guid i k zero t x v e own b h left =
    let n = t.wheel_count in
    absurd
      (omega (arith, left, left_here n t.wheel_cursor x.rounds v.cursor, ap (λ (r : ℕ). r * n) e))
here-Waits guid i k (suc r) t x v e own b h left =
    let n = t.wheel_count in
    let c = t.wheel_cursor in
    let (h', quiet) = tick_round guid i r t x e h in
    let step = ap (ticks_left n c (next_cursor t)) e ∙ left_round n c r v.cursor in
    (
      Waits-by guid i (suc k) t (next_cursor t) (record x { rounds = r }) h' own b
          (next-lt n c v.cursor) (omega (arith, step, left)),
      quiet,
    )

tick-Waits :
    (guid i k : ℕ) (t : TimerWheel)
    → IsValid t
    → Waits i (suc (suc k)) t
    → Waits i (suc k) (tick guid t).1 × (runs i (tick guid t).0 ≡ 0)
tick-Waits guid i k t v w = elim (ℕ_discrete w.slot (next_cursor t)) [
  | yes here ↦
      here-Waits guid i k w.item.rounds t w.item v refl w.own w.callback
        (subst (λ s. Has i (only s w.item) t) here w.has)
        (ap (λ s. ticks_left t.wheel_count t.wheel_cursor s w.item.rounds) (sym here) ∙ w.left)
  | no away ↦
      let (h, quiet) = tick_away guid i t w.slot w.item away w.has in
      let step =
        left_away t.wheel_count t.wheel_cursor w.slot w.item.rounds v.cursor w.in_range away in
      (
        Waits-by guid i (suc k) t w.slot w.item h w.own w.callback w.in_range
            (omega (arith, step, w.left)),
        quiet,
      )
]

no_rounds :
    (t : TimerWheel) (r : ℕ)
    → IsValid t
    → ticks_left t.wheel_count t.wheel_cursor (next_cursor t) r ≡ 1
    → r ≡ 0
no_rounds t zero v left = refl
no_rounds t (suc r) v left =
    absurd (omega (arith, left, v.slots, left_here t.wheel_count t.wheel_cursor (suc r) v.cursor))

tick_last-Waits :
    (guid i : ℕ) (t : TimerWheel) → IsValid t → Waits i 1 t → runs i (tick guid t).0 ≡ 1
tick_last-Waits guid i t v w = elim (ℕ_discrete w.slot (next_cursor t)) [
  | yes here ↦
      let left =
        ap (λ s. ticks_left t.wheel_count t.wheel_cursor s w.item.rounds) (sym here) ∙ w.left in
      tick_last guid i t w.item (no_rounds t w.item.rounds v left) w.own w.callback
        (subst (λ s. Has i (only s w.item) t) here w.has)
  | no away ↦
      let step =
        left_away t.wheel_count t.wheel_cursor w.slot w.item.rounds v.cursor w.in_range away in
      let more =
        left_pos t.wheel_count (next_cursor t) w.slot w.item.rounds
          (next-lt t.wheel_count t.wheel_cursor v.cursor) w.in_range in
      absurd (omega (arith, step, w.left, more))
]

-- A callback that runs in `k + 1` ticks does not run in the first `k`, and runs once in the next.
pub Waits-runs :
    (guid i k : ℕ) (t : TimerWheel)
    → IsValid t
    → Waits i (suc k) t
    → (runs_in guid i k t ≡ 0) × (runs_in guid i (suc k) t ≡ 1)
unfolding runs_in
Waits-runs guid i zero t v w = (refl, omega (arith, tick_last-Waits guid i t v w))
Waits-runs guid i (suc k) t v w =
    let (w', quiet) = tick-Waits guid i k t v w in
    let (before, at) = Waits-runs guid i k (tick guid t).1 (tick-IsValid guid t v) w' in
    (omega (arith, quiet, before), omega (arith, quiet, at))
