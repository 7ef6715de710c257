-- ===== src/Cond/Interrupts.antt =====
-- gconcurrent/cond.go: Interrupt lets every call of Wait go on, Signal may reach none.
use gokits.Prelude.{
  ℕ, suc, ◌-◌, ◌<◌, ◌≡◌, refl, ap, ◌∙◌, Bool, true, false, List, [], ◌∷◌, length, arith,
}
use gokits.Cond.{
  Stage, entered, listening, woken, Waiter, TimeoutCond, new_timeout_cond, move_to, leave,
  interrupt, Step, locks, unlocks, enters, listens, signals, signals_nobody, expires, hears_close,
  interrupts, leaves, Reach, here, next,
}
use gokits.Cond.Holds.{Holds, AreFor, IsFor-le, remove_waiter_ok, reach-Holds, reachable-Holds}

-- A step of a call of `Wait`, or of its caller that gives the lock up after it.
abbrev pub is_own : {c d : TimeoutCond} → Step c d → Bool
is_own (listens before after w e s) = true
is_own (hears_close before after w e s closed) = true
is_own (leaves before after w b v l e s r) = true
is_own (unlocks l) = true
is_own (locks l) = false
is_own (enters v l e) = false
is_own (signals before after w l e s same) = false
is_own (signals_nobody l e) = false
is_own (expires before after w e s) = false
is_own (interrupts l) = false

-- Such steps alone: no signal, no end of a context, no new call.
pub data Alone (c : TimeoutCond) : TimeoutCond → Type 0 where
  start : Alone c c
  more : {d e : TimeoutCond} → Alone c d → (s : Step d e) → is_own s ≡ true → Alone c e

Alone-trans : {c d e : TimeoutCond} → Alone c d → Alone d e → Alone c e
Alone-trans r start = r
Alone-trans r (more s st own) = more (Alone-trans r s) st own

Alone-Reach : {c d : TimeoutCond} → Alone c d → Reach c d
Alone-Reach start = here
Alone-Reach (more r s own) = next (Alone-Reach r) s

-- A state without the first waiter, that steps lead to.
record IsLeft (c : TimeoutCond) (rest : List Waiter) (d : TimeoutCond) : Type 0 where
  reached : Alone c d
  others : d.waiters ≡ rest
  unlocked : d.locked ≡ false
  same : d.signal ≡ c.signal

module _ (rest : List Waiter) where
  woken_leaves :
      (b : Bool) (c : TimeoutCond) (w : Waiter)
      → c.locked ≡ false
      → c.waiters ≡ w ∷ rest
      → w.stage ≡ woken b
      → Holds c
      → (d : TimeoutCond) × IsLeft c rest d
  woken_leaves b c w free e s h =
      let v = c.has_waiters - 1 in
      let ok =
        remove_waiter_ok c.has_waiters (omega (arith, h.counted, h.few))
          (omega (arith, h.counted, ap length e)) in
      let gone = leave v rest c in
      (
        record gone { locked = false },
        record {
          reached = more (more start (leaves [] rest w b v free e s ok) refl) (unlocks refl) refl;
          others = refl;
          unlocked = refl;
          same = refl;
        },
      )

  -- After one more step.
  before_step :
      {c d : TimeoutCond} (st : Step c d)
      → is_own st ≡ true
      → d.signal ≡ c.signal
      → (f : TimeoutCond) × IsLeft d rest f
      → (f : TimeoutCond) × IsLeft c rest f
  before_step st own same (f, l) = (
    f,
    record {
      reached = Alone-trans (more start st own) l.reached;
      others = l.others;
      unlocked = l.unlocked;
      same = l.same ∙ same;
    },
  )

  listening_leaves :
      (c : TimeoutCond) (w : Waiter)
      → c.locked ≡ false
      → c.waiters ≡ w ∷ rest
      → w.stage ≡ listening
      → w.chan < c.signal
      → Holds c
      → (d : TimeoutCond) × IsLeft c rest d
  listening_leaves c w free e s closed h =
      let st = hears_close [] rest w e s closed in
      before_step st refl refl (
        woken_leaves true (move_to (woken true) [] rest w c) (record w { stage = woken true }) free
          refl refl (reach-Holds h (next here st)))

  first_leaves :
      (stage : Stage) (c : TimeoutCond) (w : Waiter)
      → c.locked ≡ false
      → c.waiters ≡ w ∷ rest
      → w.stage ≡ stage
      → w.chan < c.signal
      → Holds c
      → (d : TimeoutCond) × IsLeft c rest d
  first_leaves entered c w free e s closed h =
      let st = listens [] rest w e s in
      before_step st refl refl (
        listening_leaves (move_to listening [] rest w c) (record w { stage = listening }) free refl
          refl closed (reach-Holds h (next here st)))
  first_leaves listening c w free e s closed h = listening_leaves c w free e s closed h
  first_leaves (woken b) c w free e s closed h = woken_leaves b c w free e s h

abbrev AllClosed : ℕ → List Waiter → Type 0
AllClosed signal [] = Unit
AllClosed signal (w ∷ ws) = (w.chan < signal) × AllClosed signal ws

closed_by_interrupt : (signal : ℕ) (ws : List Waiter) → AreFor signal ws → AllClosed (suc signal) ws
closed_by_interrupt signal [] h = tt
closed_by_interrupt signal (w ∷ ws) (h, hs) =
    (omega (arith, IsFor-le signal w.stage w.chan h), closed_by_interrupt signal ws hs)

all_leave :
    (ws : List Waiter) (c : TimeoutCond)
    → c.locked ≡ false
    → c.waiters ≡ ws
    → AllClosed c.signal ws
    → Holds c
    → (d : TimeoutCond) × Alone c d × (d.waiters ≡ []) × (d.locked ≡ false)
all_leave [] c free e closed h = (c, start, e, free)
all_leave (w ∷ ws) c free e (closed, rest) h =
    let (d, l) = first_leaves ws w.stage c w free e refl closed h in
    let (f, r, done, unlocked) =
      all_leave ws d l.unlocked l.others (rw l.same rest) (reach-Holds h (Alone-Reach l.reached)) in
    (f, Alone-trans l.reached r, done, unlocked)

-- After `Interrupt`, every call of `Wait` can end by steps of these calls alone, with no signal, no new call and no
-- end of a context, also those that have not reached their select: from any state of a new variable
-- where the lock is free, there are such steps to one where nobody waits.
pub interrupt_frees :
    (c : TimeoutCond)
    → Reach new_timeout_cond c
    → c.locked ≡ false
    → (d : TimeoutCond) × Alone (interrupt c) d × (d.waiters ≡ []) × (d.has_waiters ≡ 0)
interrupt_frees c r free =
    let h = reachable-Holds c r in
    let after = reach-Holds h (next here (interrupts free)) in
    let (d, steps, empty, unlocked) =
      all_leave c.waiters (interrupt c) free refl (closed_by_interrupt c.signal c.waiters h.for_all)
        after in
    let h' = reach-Holds after (Alone-Reach steps) in
    (d, steps, empty, omega (arith, h'.counted, ap length empty))
