-- ===== src/Time/Wheel/Arith.antt =====
-- Where `scheduleTimeOut` of gtime/timerwheel.go puts a timer, in numbers of ticks.
use native.Mathlib.Nat.{
  div-add-mod, mod-lt, div-div-eq-div-mul, mul_assoc, add_comm, mul-add, div-eq_of_lt,
  add-mul-div_left,
}
use gokits.Prelude.{
  ℕ, zero, suc, ◌+◌, ◌-◌, ◌*◌, ◌/◌, ◌%◌, ◌≤◌, ◌<◌, ◌≡◌, ◌≢◌, ap, inl, inr, true, arith, ltb, leb,
  ◌==◌, if◌then◌else◌, Bool-cases,
}

-- The number of ticks of length `tau` that a delay takes, a part of a tick counted as one.
abbrev pub ticks_of : ℕ → ℕ → ℕ
ticks_of tau d = d / tau + (if d % tau == 0 then 0 else 1)

-- The tick, from now, at which a timer fires that waits in slot `s` of `n` with `r` rounds.
abbrev pub ticks_left : ℕ → ℕ → ℕ → ℕ → ℕ
ticks_left n c s r = (if ltb c s then s - c else s + n - c) + r * n

pub mod_of_product : (tau n d : ℕ) → d % (tau * n) ≡ tau * (d / tau % n) + d % tau
mod_of_product tau n d = omega (
  arith,
  div-add-mod d (tau * n),
  div-add-mod d tau,
  ap (λ (t : ℕ). tau * t) (div-add-mod (d / tau) n),
  mul-add tau (n * (d / tau / n)) (d / tau % n),
  mul_assoc tau n (d / tau / n),
  ap (λ (t : ℕ). tau * n * t) (div-div-eq-div-mul d tau n),
)

pub div_of_mod_product : (tau n d : ℕ) → 0 < tau → d % (tau * n) / tau ≡ d / tau % n
div_of_mod_product tau n d p = rw (mod_of_product tau n d) (
    omega (
      arith,
      add-mul-div_left (d % tau) (d / tau % n) p,
      ap (λ (t : ℕ). t / tau) (add_comm (tau * (d / tau % n)) (d % tau)),
      div-eq_of_lt (mod-lt d p),
    ))

at_start :
    (n c g a b : ℕ)
    → a < n
    → c < n
    → 0 < n * g + a + b
    → ((a + b) == 0) ≡ true
    → (c + (a + b) < n) × (ticks_left n c (c + (a + b)) (g - 1) ≡ n * g + a + b + 0)
at_start n c zero a b p q k e = absurd (ground arith)
at_start n c (suc g) a b p q k e = ground arith

-- The numbers that `scheduleTimeOut` computes, for a delay of `g` rounds, `a` ticks and `b` more.
pub place_arith :
    (n c g a b : ℕ)
    → a < n
    → c < n
    → b ≤ 1
    → 0 < n * g + a + b
    → let rounds = if (a + b) == 0 then g - 1 else g in
      let stop = c + (a + b) in
      let p : ℕ × ℕ = if leb n stop then (stop - n, rounds + 1) else (stop, rounds) in
      (p.0 < n) × (ticks_left n c p.0 p.1 ≡ n * g + a + b + (if leb n stop then n else 0))
place_arith n c g a b p q h k = elim (Bool-cases (leb n (c + (a + b)))) [
  | inl wraps ↦ rw wraps (elim (Bool-cases ((a + b) == 0)) [
    | inl exact ↦ absurd (ground arith)
    | inr over ↦ rw over (ground arith)
  ])
  | inr stays ↦ rw stays (elim (Bool-cases ((a + b) == 0)) [
    | inl exact ↦ rw exact (at_start n c g a b p q k exact)
    | inr over ↦ rw over (ground arith)
  ])
]

-- The cursor's next place on a wheel of `n` slots.
abbrev pub next : ℕ → ℕ → ℕ
next n c = let d = c + 1 in if d == n then 0 else d

pub left_away :
    (n c s r : ℕ)
    → c < n
    → s < n
    → s ≢ next n c
    → ticks_left n c s r ≡ suc (ticks_left n (next n c) s r)
left_away n c s r p q e = ground arith

pub left_here : (n c r : ℕ) → c < n → ticks_left n c (next n c) r ≡ suc (r * n)
left_here n c r p = ground arith

pub left_round :
    (n c r : ℕ)
    → c < n
    → ticks_left n c (next n c) (suc r) ≡ suc (ticks_left n (next n c) (next n c) r)
left_round n c r p = ground arith

pub left_pos : (n c s r : ℕ) → c < n → s < n → 0 < ticks_left n c s r
left_pos n c s r p q = ground arith

pub next-lt : (n c : ℕ) → c < n → next n c < n
next-lt n c p = ground arith
