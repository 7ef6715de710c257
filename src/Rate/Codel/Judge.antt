-- ===== src/Rate/Codel/Judge.antt =====
-- grate/codel.go: the decisions on a sequence of packets.
use gokits.Prelude.{
  ℕ, zero, suc, ◌+◌, ◌-◌, ◌≤◌, ◌<◌, ◌≡◌, refl, ◌∙◌, Bool, false, Bool-cases, inl, inr, Option, none,
  some, List, [], ◌∷◌, ltb, leb, if◌then◌else◌, arith,
}
use gokits.Rate.Codel.{
  CodelOption, QueuePacket, Control, no_control, check_fa_time, control_law, restart, enter, stay,
  judge,
}

-- A packet with the time of the decision on it.
abbrev pub Judged : Type 0
Judged = ℕ × QueuePacket

-- The start of a run of delays that are not below the target, after one more delay.
pub extended : CodelOption → (now elapsed : ℕ) → Option ℕ → Option ℕ
extended o now elapsed none = if ltb elapsed o.target then none else some now
extended o now elapsed (some s) = if ltb elapsed o.target then none else some s

-- The time from which on no packet had a delay below the target, the newest packet first.
pub above_since : CodelOption → List Judged → Option ℕ
above_since o [] = none
above_since o ((now, p) ∷ js) = extended o now (now - p.timestamp) (above_since o js)

-- The delays have been at or above the target for an interval.
pub stands : CodelOption → ℕ → Option ℕ → Bool
stands o now none = false
stands o now (some s) = leb (s + o.internal) now

-- `faTime` as the time from which on the delays are too high.
unfoldable fa_time_of : CodelOption → Option ℕ → ℕ
fa_time_of o none = 0
fa_time_of o (some s) = s + o.internal

restart_pos : (o : CodelOption) (now : ℕ) (q : Control) → 1 ≤ restart o now q
restart_pos o now q = ground arith

check_fa_time_lem :
    (o : CodelOption) (now elapsed : ℕ) (a : Option ℕ) (q : Control)
    → 0 < o.internal
    → q.fa_time ≡ fa_time_of o a
    → let (drop, w) = check_fa_time o now elapsed q in
      (drop ≡ stands o now (extended o now elapsed a))
      × (w.fa_time ≡ fa_time_of o (extended o now elapsed a))
unfolding check_fa_time extended stands fa_time_of
check_fa_time_lem o now elapsed none q pos h = ground (arith, h, pos)
check_fa_time_lem o now elapsed (some s) q pos h = ground (arith, h, pos)

module _ (quotient : ℕ → ℕ → ℕ) (o : CodelOption) where
  enter_answer :
      (now : ℕ) (drop : Bool) (q : Control)
      → ((enter quotient o now drop q).0 ≡ drop)
        × ((enter quotient o now drop q).1.fa_time ≡ q.fa_time)
  unfolding enter
  enter_answer now drop q = ground arith

  stay_answer :
      (now : ℕ) (drop : Bool) (q : Control)
      → ((stay quotient o now drop q).0 ≡ drop)
        × ((stay quotient o now drop q).1.fa_time ≡ q.fa_time)
  unfolding stay
  stay_answer now drop q = ground (arith, enter_answer now drop q)

  judge_answer :
      (now : ℕ) (p : QueuePacket) (q : Control)
      → ((judge quotient o now p q).0 ≡ (check_fa_time o now (now - p.timestamp) q).0)
        × ((judge quotient o now p q).1.fa_time
            ≡ (check_fa_time o now (now - p.timestamp) q).1.fa_time)
  unfolding judge
  judge_answer now p q =
      let (drop, w) = check_fa_time o now (now - p.timestamp) q in
      elim (Bool-cases w.dropping) [
        | inl e ↦ rw e (stay_answer now drop w)
        | inr e ↦ rw e (enter_answer now drop w)
      ]

  -- The state after the decisions, the newest packet first.
  unfoldable pub after : List Judged → Control
  after [] = no_control
  after ((now, p) ∷ js) = (judge quotient o now p (after js)).1

  after_lem :
      (js : List Judged) → 0 < o.internal → (after js).fa_time ≡ fa_time_of o (above_since o js)
  unfolding after above_since fa_time_of
  after_lem [] pos = refl
  after_lem ((now, p) ∷ js) pos =
      (judge_answer now p (after js)).1
      ∙ (check_fa_time_lem o now (now - p.timestamp) (above_since o js) (after js) pos
          (after_lem js pos)).1

  -- After any decisions, a packet is dropped exactly where an interval has passed since the first of
  -- an unbroken run of packets whose delays are not below the target, the packet itself included. The
  -- interval is positive.
  pub judge_standing :
      (js : List Judged) (now : ℕ) (p : QueuePacket)
      → 0 < o.internal
      → (judge quotient o now p (after js)).0 ≡ stands o now (above_since o ((now, p) ∷ js))
  unfolding above_since
  judge_standing js now p pos =
      (judge_answer now p (after js)).0
      ∙ (check_fa_time_lem o now (now - p.timestamp) (above_since o js) (after js) pos
          (after_lem js pos)).0

module _ (quotient quotient' : ℕ → ℕ → ℕ) (o : CodelOption)
    (same : (n : ℕ) → quotient o.internal (suc n) ≡ quotient' o.internal (suc n)) where
  same_pos : (n : ℕ) → 1 ≤ n → quotient o.internal n ≡ quotient' o.internal n
  same_pos zero h = omega (arith, h)
  same_pos (suc n) h = same n

  control_law_same :
      (now : ℕ) (q : Control)
      → 1 ≤ q.count
      → control_law quotient o now q ≡ control_law quotient' o now q
  control_law_same now q h = rw (same_pos q.count h) refl

  enter_same :
      (now : ℕ) (drop : Bool) (q : Control)
      → enter quotient o now drop q ≡ enter quotient' o now drop q
  unfolding enter
  enter_same now drop q = rw (same_pos (restart o now q) (restart_pos o now q)) refl

  stay_same :
      (now : ℕ) (drop : Bool) (q : Control)
      → stay quotient o now drop q ≡ stay quotient' o now drop q
  unfolding stay
  stay_same now drop q = rw (same_pos (q.count + 1) (omega arith), enter_same now drop q) refl

  -- Two versions of the quotient that agree where the count is positive give the same decisions and
  -- states: `controlLaw` never divides by the root of 0.
  pub judge_same :
      (now : ℕ) (p : QueuePacket) (q : Control)
      → judge quotient o now p q ≡ judge quotient' o now p q
  unfolding judge
  judge_same now p q =
      let (drop, w) = check_fa_time o now (now - p.timestamp) q in
      rw (stay_same now drop w, enter_same now drop w) refl
