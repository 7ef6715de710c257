-- ===== src/Net/Backoff.antt =====
-- gnet/backoff.go: how long to wait before the next retry. float64 and the number that math/rand draws
-- are arguments.
pub mod Closed
mod Tests
use gokits.Prelude.{
  ℕ, zero, suc, ◌≡◌, refl, ap, sym, ◌∙◌, Bool, true, false, Bool-cases, inl, inr, if◌then◌else◌,
  ◌==◌, arith,
}
use gokits.Prelude.Int.{ℤ, pos, negsuc}

-- What the code takes of float64: a constant of an integer, the operations and the comparison.
pub record Floats (F : Type 0) : Type 0 where
  pub of_int : ℕ → F
  pub to_int : F → ℕ
  pub add : F → F → F
  pub sub : F → F → F
  pub mul : F → F → F
  pub lt : F → F → Bool

-- `BackoffConfig`; durations are numbers of nanoseconds.
pub record Config (F : Type 0) : Type 0 where
  pub max_delay : ℕ
  pub base_delay : ℕ
  pub factor : F
  pub jitter : F

abbrev pub times : ℤ → ℕ
times (pos n) = n
times (negsuc n) = 0

abbrev pub is_zero : ℤ → Bool
is_zero (pos n) = n == 0
is_zero (negsuc n) = false

module _ {F : Type 0} (f : Floats F) where
  -- The loop, which runs at most as often as there are retries left.
  pub grow : F → F → F → ℕ → F
  grow factor max backoff zero = backoff
  grow factor max backoff (suc retries) =
      let rest = grow factor max (f.mul backoff factor) retries in
      if f.lt backoff max then rest else backoff

  abbrev pub capped : F → F → F
  capped max backoff = if f.lt max backoff then max else backoff

  -- The lines that randomize the delay and turn it into a duration.
  abbrev pub randomized : F → F → F → ℕ
  randomized jitter drawn backoff =
      let factor : F =
        f.add (f.of_int 1) (f.mul jitter (f.sub (f.mul drawn (f.of_int 2)) (f.of_int 1))) in
      if f.lt (f.mul backoff factor) (f.of_int 0) then 0 else f.to_int (f.mul backoff factor)

  pub backoff : Config F → F → ℤ → ℕ
  backoff bc drawn retries =
      if is_zero retries
      then bc.base_delay
      else randomized bc.jitter drawn (
          capped (f.of_int bc.max_delay)
            (grow bc.factor (f.of_int bc.max_delay) (f.of_int bc.base_delay) (times retries)))
