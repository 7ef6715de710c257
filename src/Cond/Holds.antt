-- ===== src/Cond/Holds.antt =====
-- gconcurrent/cond.go: what holds after any steps.
use gokits.Prelude.{
  ℕ, suc, ◌+◌, ◌-◌, ◌^◌, ◌≤◌, ◌<◌, ◌≡◌, refl, ap, true, false, some, List, [], ◌∷◌, ◌++◌, length,
  length-append, ltb, arith,
}
use gokits.Cond.{
  Stage, entered, listening, woken, Waiter, TimeoutCond, new_timeout_cond, add_waiter,
  remove_waiter, has_any, enter, move_to, leave, Step, locks, unlocks, enters, listens, signals,
  signals_nobody, expires, hears_close, interrupts, leaves, Reach, here, next,
}

-- The channel of a waiter was made, and is closed where `Wait` returns true.
abbrev pub IsFor : ℕ → Stage → ℕ → Type 0
IsFor signal entered chan = chan ≤ signal
IsFor signal listening chan = chan ≤ signal
IsFor signal (woken false) chan = chan ≤ signal
IsFor signal (woken true) chan = chan < signal

abbrev pub AreFor : ℕ → List Waiter → Type 0
AreFor signal [] = Unit
AreFor signal (w ∷ ws) = IsFor signal w.stage w.chan × AreFor signal ws

pub record Holds (c : TimeoutCond) : Type 0 where
  pub counted : c.has_waiters ≡ length c.waiters
  pub few : length c.waiters < 2 ^ 64
  pub for_all : AreFor c.signal c.waiters

pub IsFor-le : (signal : ℕ) (s : Stage) (chan : ℕ) → IsFor signal s chan → chan ≤ signal
IsFor-le signal entered chan h = h
IsFor-le signal listening chan h = h
IsFor-le signal (woken false) chan h = h
IsFor-le signal (woken true) chan h = omega (arith, h)

IsFor-suc : (signal : ℕ) (s : Stage) (chan : ℕ) → IsFor signal s chan → IsFor (suc signal) s chan
IsFor-suc signal entered chan h = omega (arith, h)
IsFor-suc signal listening chan h = omega (arith, h)
IsFor-suc signal (woken false) chan h = omega (arith, h)
IsFor-suc signal (woken true) chan h = omega (arith, h)

AreFor-suc : (signal : ℕ) (ws : List Waiter) → AreFor signal ws → AreFor (suc signal) ws
AreFor-suc signal [] h = tt
AreFor-suc signal (w ∷ ws) (h, hs) = (IsFor-suc signal w.stage w.chan h, AreFor-suc signal ws hs)

AreFor-without :
    (signal : ℕ) (before after : List Waiter) (w : Waiter)
    → AreFor signal (before ++ (w ∷ after))
    → IsFor signal w.stage w.chan × AreFor signal (before ++ after)
AreFor-without signal [] after w (h, hs) = (h, hs)
AreFor-without signal (v ∷ before) after w (h, hs) =
    let (h', hs') = AreFor-without signal before after w hs in (h', (h, hs'))

AreFor-with_one :
    (signal : ℕ) (before after : List Waiter) (w : Waiter)
    → IsFor signal w.stage w.chan
    → AreFor signal (before ++ after)
    → AreFor signal (before ++ (w ∷ after))
AreFor-with_one signal [] after w h hs = (h, hs)
AreFor-with_one signal (v ∷ before) after w h (h', hs) =
    (h', AreFor-with_one signal before after w h hs)

length-splice :
    {A : Type 0} (xs ys : List A) (x : A) → length (xs ++ (x ∷ ys)) ≡ length (xs ++ ys) + 1
length-splice xs ys x = omega (arith, length-append xs (x ∷ ys), length-append xs ys)

move_to-Holds :
    (stage : Stage) (before after : List Waiter) (w : Waiter) (c : TimeoutCond)
    → c.waiters ≡ before ++ (w ∷ after)
    → (w.chan ≤ c.signal → IsFor c.signal stage w.chan)
    → Holds c
    → Holds (move_to stage before after w c)
move_to-Holds stage before after w c e fits h =
    let (one, others) = AreFor-without c.signal before after w (rw e at h.for_all) in
    let same : length (before ++ (record w { stage = stage } ∷ after)) ≡ length c.waiters = omega (
      arith,
      ap length e,
      length-splice before after w,
      length-splice before after (record w { stage = stage }),
    ) in
    record {
      counted = omega (arith, h.counted, same);
      few = omega (arith, h.few, same);
      for_all =
          AreFor-with_one c.signal before after (record w { stage = stage })
            (fits (IsFor-le c.signal w.stage w.chan one)) others;
    }

add_waiter_ok : (n v : ℕ) → n < 2 ^ 64 → add_waiter n ≡ some v → (v ≡ n + 1) × (v < 2 ^ 64)
unfolding add_waiter
add_waiter_ok n v h e = (ground (arith, h, e), ground (arith, h, e))

pub remove_waiter_ok : (n : ℕ) → n < 2 ^ 64 → 0 < n → remove_waiter n ≡ some (n - 1)
unfolding remove_waiter
remove_waiter_ok n h pos = ground (arith, h, pos)

enter-Holds :
    (v : ℕ) (c : TimeoutCond) → add_waiter c.has_waiters ≡ some v → Holds c → Holds (enter v c)
enter-Holds v c e h =
    let (sum, small) = add_waiter_ok c.has_waiters v (omega (arith, h.counted, h.few)) e in
    record {
      counted = omega (arith, sum, h.counted);
      few = omega (arith, sum, small, h.counted);
      for_all = (omega arith, h.for_all);
    }

leave-Holds :
    (v : ℕ) (before after : List Waiter) (w : Waiter) (c : TimeoutCond)
    → c.waiters ≡ before ++ (w ∷ after)
    → remove_waiter c.has_waiters ≡ some v
    → Holds c
    → Holds (leave v (before ++ after) c)
leave-Holds v before after w c e r h =
    let more = length-splice before after w in
    let minus =
      remove_waiter_ok c.has_waiters (omega (arith, h.counted, h.few))
        (omega (arith, h.counted, ap length e, more)) in
    let less : v ≡ c.has_waiters - 1 = ground (arith, r, minus) in
    record {
      counted = omega (arith, less, h.counted, ap length e, more);
      few = omega (arith, h.few, ap length e, more);
      for_all = (AreFor-without c.signal before after w (rw e at h.for_all)).1;
    }

step-Holds : {c d : TimeoutCond} → Step c d → Holds c → Holds d
step-Holds (locks e) h = record { counted = h.counted; few = h.few; for_all = h.for_all }
step-Holds (unlocks e) h = record { counted = h.counted; few = h.few; for_all = h.for_all }
step-Holds {c} (enters v l e) h = enter-Holds v c e h
step-Holds {c} (listens before after w e s) h =
    move_to-Holds listening before after w c e (λ f. f) h
step-Holds {c} (signals before after w l e s same) h =
    move_to-Holds (woken false) before after w c e (λ f. f) h
step-Holds (signals_nobody l e) h = h
step-Holds {c} (expires before after w e s) h =
    move_to-Holds (woken false) before after w c e (λ f. f) h
step-Holds {c} (hears_close before after w e s closed) h =
    move_to-Holds (woken true) before after w c e (λ _. closed) h
step-Holds {c} (interrupts e) h = record {
  counted = h.counted;
  few = h.few;
  for_all = AreFor-suc c.signal c.waiters h.for_all;
}
step-Holds {c} (leaves before after w b v l e s r) h = leave-Holds v before after w c e r h

pub reach-Holds : {c d : TimeoutCond} → Holds c → Reach c d → Holds d
reach-Holds h here = h
reach-Holds h (next r s) = step-Holds s (reach-Holds h r)

pub reachable-Holds : (c : TimeoutCond) → Reach new_timeout_cond c → Holds c
reachable-Holds c r = reach-Holds (record { counted = refl; few = omega arith; for_all = tt }) r

-- After any steps of a new variable: the count is the number of the calls of `Wait`; each has a channel
-- that was made, and returns true only if that channel was closed by `Interrupt`; so
-- `removeWaiter` does not panic at the end of a call of `Wait`, and `HasWaiters` tells whether there is
-- such a call.
pub cond-Holds :
    (c : TimeoutCond)
    → Reach new_timeout_cond c
    → Holds c
      × (has_any c ≡ ltb 0 (length c.waiters))
      × (0 < length c.waiters → remove_waiter c.has_waiters ≡ some (c.has_waiters - 1))
cond-Holds c r =
    let h = reachable-Holds c r in
    (
      h,
      ap (ltb 0) h.counted,
      λ some_wait.
          remove_waiter_ok c.has_waiters (omega (arith, h.counted, h.few))
            (omega (arith, h.counted, some_wait)),
    )
