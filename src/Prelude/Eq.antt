-- ===== src/Prelude/Eq.antt =====
-- Equality of values as a test, Go's `==` on them.
use gokits.Prelude.{◌≡◌, ◌↔◌, ℕ, true, Bool, ==_iff}
use gokits.Prelude.{◌==◌ as same_nat}

pub record Eq {ℓ} (K : Type ℓ) : Type ℓ where
  pub same : K → K → Bool
  pub same_iff : (j k : K) → (same j k ≡ true) ↔ (j ≡ k)

module _ {ℓ} {K : Type ℓ} ⦃e : Eq K⦄ where
  infix 50 ◌==◌
  abbrev pub ◌==◌ : K → K → Bool
  j == k = e.same j k

instance abbrev pub eq_of_nat : Eq ℕ
eq_of_nat = record { same = same_nat; same_iff = ==_iff }
