-- ===== src/Time/Wheel/Items.antt =====
-- Where one timer stands among the items of a slot of gtime/timerwheel.go, and what the slot's
-- operations do to it.
use gokits.Prelude.{
  ℕ, ◌-◌, ◌≡◌, ◌≢◌, refl, sym, subst, Bool-cases, ◌⊎◌, inl, inr, Option, none, some, List, [], ◌∷◌,
  arith, ◌==◌, if◌then◌else◌,
}
use gokits.Time.Wheel.{TimeOut, Slot, delete, put, fetch_expired}

-- The slot has no item for the timer `i`, or it has one, which is `v`.
abbrev pub At : ℕ → Option TimeOut → Slot → Type 0
At i none [] = Unit
At i (some v) [] = ⊥
At i none ((k, w) ∷ s) = (k ≢ i) × At i none s
At i (some v) ((k, w) ∷ s) = ((k ≡ i) × (w ≡ v) × At i none s) ⊎ ((k ≢ i) × At i (some v) s)

-- Each item is stored under its own id.
abbrev pub Keyed : Slot → Type 0
Keyed [] = Unit
Keyed ((k, v) ∷ s) = (v.id ≡ some k) × Keyed s

-- Tasks of other timers than `i`.
abbrev pub Others : ℕ → List TimeOut → Type 0
Others i [] = Unit
Others i (v ∷ vs) = ((k : ℕ) × (v.id ≡ some k) × (k ≢ i)) × Others i vs

-- `v` is the one task of the timer `i`, or there is none.
abbrev pub Tasks : ℕ → Option TimeOut → List TimeOut → Type 0
Tasks i none vs = Others i vs
Tasks i (some v) [] = ⊥
Tasks i (some v) (w ∷ vs) =
    ((w ≡ v) × Others i vs) ⊎ (((k : ℕ) × (w.id ≡ some k) × (k ≢ i)) × Tasks i (some v) vs)

-- What `fetchExpiredTimeouts` takes of a timer and what it leaves.
abbrev pub due : Option TimeOut → Option TimeOut
due none = none
due (some v) = if v.rounds == 0 then some v else none

abbrev pub kept : Option TimeOut → Option TimeOut
kept none = none
kept (some v) = if v.rounds == 0 then none else some (record v { rounds = v.rounds - 1 })

pub delete-At-none : (i j : ℕ) (s : Slot) → At i none s → At i none (delete j s)
unfolding delete
delete-At-none i j [] a = tt
delete-At-none i j ((k, w) ∷ s) a = ground (arith, delete-At-none i j s)

pub delete_self-At : (i : ℕ) (o : Option TimeOut) (s : Slot) → At i none (delete i s)
unfolding delete
delete_self-At i o [] = tt
delete_self-At i o ((k, w) ∷ s) = ground (arith, delete_self-At i o s)

pub delete-At :
    (i j : ℕ) (v : TimeOut) (s : Slot) → j ≢ i → At i (some v) s → At i (some v) (delete j s)
unfolding delete
delete-At i j v [] n a = a
delete-At i j v ((k, w) ∷ s) n (inl a) = ground (arith, delete-At-none i j s)
delete-At i j v ((k, w) ∷ s) n (inr a) = ground (arith, delete-At i j v s)

pub put-At :
    (i j : ℕ) (o : Option TimeOut) (v : TimeOut) (s : Slot) → j ≢ i → At i o s → At i o (put j v s)
unfolding put
put-At i j none v s n a = (n, delete-At-none i j s a)
put-At i j (some w) v s n a = inr (n, delete-At i j w s n a)

pub put_self-At : (i : ℕ) (v : TimeOut) (s : Slot) → At i (some v) (put i v s)
unfolding put
put_self-At i v s = inl (refl, refl, delete_self-At i none s)

pub delete-Keyed : (i : ℕ) (s : Slot) → Keyed s → Keyed (delete i s)
unfolding delete
delete-Keyed i [] k = tt
delete-Keyed i ((j, v) ∷ s) k = ground (arith, delete-Keyed i s)

pub put-Keyed : (i : ℕ) (v : TimeOut) (s : Slot) → v.id ≡ some i → Keyed s → Keyed (put i v s)
unfolding put
put-Keyed i v s e k = (e, delete-Keyed i s k)

pub fetch-Keyed : (s : Slot) → Keyed s → Keyed (fetch_expired s).1
unfolding fetch_expired
fetch-Keyed [] k = tt
fetch-Keyed ((j, v) ∷ s) k = ground (arith, fetch-Keyed s)

-- `fetchExpiredTimeouts` takes a timer whose rounds are over, and takes one round off any other.
pub fetch-At-none :
    (i : ℕ) (s : Slot)
    → Keyed s
    → At i none s
    → Others i (fetch_expired s).0 × At i none (fetch_expired s).1
unfolding fetch_expired
fetch-At-none i [] k a = (tt, tt)
fetch-At-none i ((j, w) ∷ s) k a =
    let (tasks, left) = fetch-At-none i s k.1 a.1 in
    elim (Bool-cases (w.rounds == 0)) [
      | inl over ↦ rw over (((j, k.0, a.0), tasks), left)
      | inr more ↦ rw more (tasks, (a.0, left))
    ]

fetch-At-here :
    (i j : ℕ) (v : TimeOut) (s : Slot)
    → Keyed s
    → j ≡ i
    → At i none s
    → Tasks i (due (some v)) (fetch_expired ((j, v) ∷ s)).0
      × At i (kept (some v)) (fetch_expired ((j, v) ∷ s)).1
unfolding fetch_expired
fetch-At-here i j v s k e a =
    let (tasks, left) = fetch-At-none i s k a in
    elim (Bool-cases (v.rounds == 0)) [
      | inl over ↦ rw over (inl (refl, tasks), left)
      | inr more ↦ rw more (tasks, inl (e, refl, left))
    ]

fetch-At-there :
    (i j : ℕ) (o p : Option TimeOut) (w : TimeOut) (s : Slot)
    → w.id ≡ some j
    → j ≢ i
    → Tasks i o (fetch_expired s).0 × At i p (fetch_expired s).1
    → Tasks i o (fetch_expired ((j, w) ∷ s)).0 × At i p (fetch_expired ((j, w) ∷ s)).1
unfolding fetch_expired
fetch-At-there i j o p w s e n (tasks, left) = elim (Bool-cases (w.rounds == 0)) [
  | inl over ↦ rw over (more_tasks o tasks, left)
  | inr more ↦ rw more (tasks, more_items p left)
]
  where
    more_tasks :
        (o : Option TimeOut) → Tasks i o (fetch_expired s).0 → Tasks i o (w ∷ (fetch_expired s).0)
    more_tasks none t = ((j, e, n), t)
    more_tasks (some v) t = inr ((j, e, n), t)

    more_items :
        (p : Option TimeOut)
        → At i p (fetch_expired s).1
        → At i p ((j, record w { rounds = w.rounds - 1 }) ∷ (fetch_expired s).1)
    more_items none t = (n, t)
    more_items (some v) t = inr (n, t)

pub fetch-At :
    (i : ℕ) (o : Option TimeOut) (s : Slot)
    → Keyed s
    → At i o s
    → Tasks i (due o) (fetch_expired s).0 × At i (kept o) (fetch_expired s).1
unfolding fetch_expired
fetch-At i none s k a = fetch-At-none i s k a
fetch-At i (some v) [] k a = absurd a
fetch-At i (some v) ((j, w) ∷ s) k (inl a) =
    subst
      (λ x.
        Tasks i (due (some v)) (fetch_expired ((j, x) ∷ s)).0
        × At i (kept (some v)) (fetch_expired ((j, x) ∷ s)).1)
      (sym a.1) (fetch-At-here i j v s k.1 a.0 a.2)
fetch-At i (some v) ((j, w) ∷ s) k (inr a) =
    fetch-At-there i j (due (some v)) (kept (some v)) w s k.0 a.0 (fetch-At i (some v) s k.1 a.1)
