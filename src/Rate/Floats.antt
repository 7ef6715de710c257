-- ===== src/Rate/Floats.antt =====
-- What grate takes of float64 and of Go's package math, as a parameter.
use gokits.Prelude.{ℕ, ◌+◌, ◌*◌, ◌^◌, ◌≤◌, ◌<◌, Bool}

pub record Floats (F : Type 0) : Type 0 where
  pub of_int : ℕ → F
  pub to_int : F → ℕ
  pub add : F → F → F
  pub sub : F → F → F
  pub mul : F → F → F
  pub div : F → F → F
  pub sqrt : F → F
  pub min : F → F → F
  pub max : F → F → F
  pub lt : F → F → Bool

-- The documented behaviour that the limits rest on: `Within m x` says that x is a number, no NaN, of
-- absolute value m at most. Rounding is monotone and exact on integers below 2^53.
pub record IsFloat64 {F : Type 0} (f : Floats F) (Within : ℕ → F → Type 0) : Type 0 where
  pub of_int_within : (n : ℕ) → n < 2 ^ 53 → Within n (f.of_int n)
  pub sqrt_within : (n : ℕ) → n < 2 ^ 53 → Within n (f.sqrt (f.of_int n))
  pub halved_within : (m : ℕ) (x : F) → m < 2 ^ 53 → Within m x → Within m (f.div x (f.of_int 2))
  pub add_within :
      (m n : ℕ) (x y : F) → m + n < 2 ^ 53 → Within m x → Within n y → Within (m + n) (f.add x y)
  pub sub_within :
      (m n : ℕ) (x y : F) → m + n < 2 ^ 53 → Within m x → Within n y → Within (m + n) (f.sub x y)
  pub mul_within :
      (m n : ℕ) (x y : F) → m * n < 2 ^ 53 → Within m x → Within n y → Within (m * n) (f.mul x y)
  pub clamped :
      (lo hi m : ℕ) (x : F)
      → lo ≤ hi
      → hi < 2 ^ 53
      → Within m x
      → (lo ≤ f.to_int (f.max (f.of_int lo) (f.min (f.of_int hi) x)))
        × (f.to_int (f.max (f.of_int lo) (f.min (f.of_int hi) x)) ≤ hi)
