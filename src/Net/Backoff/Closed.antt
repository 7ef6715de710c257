-- ===== src/Net/Backoff/Closed.antt =====
-- gnet/backoff.go: the delay is the power that its loop computes, cut off at the bound.
use gokits.Prelude.{
  ℕ, zero, suc, ◌≡◌, refl, ap, subst, ◌∙◌, true, false, Bool-cases, inl, inr, if◌then◌else◌,
}
use gokits.Prelude.Int.{ℤ}
use gokits.Net.Backoff.{Floats, Config, times, is_zero, grow, capped, randomized, backoff}

-- The delay multiplied by the factor so many times, whatever the bound.
abbrev pub power : {F : Type 0} → Floats F → F → F → ℕ → F
power f factor delay zero = delay
power f factor delay (suc n) = power f factor (f.mul delay factor) n

-- What the theorem takes of float64. `Counts` holds of the numbers from 0 on, with infinity and
-- without the negative zero: the comparison orders those, an integer is one, and they are closed
-- under the factor, a finite number of at least 1.
pub record IsFactor {F : Type 0} (f : Floats F) (Counts : F → Type 0) (factor : F) : Type 0 where
  pub lt_irrefl : (a : F) → Counts a → f.lt a a ≡ false
  pub lt_within :
      (a b c : F)
      → Counts a
      → Counts b
      → Counts c
      → f.lt a b ≡ true
      → f.lt c b ≡ false
      → f.lt a c ≡ true
  pub lt_total : (a b : F) → Counts a → Counts b → f.lt a b ≡ false → f.lt b a ≡ false → a ≡ b
  pub of_int_counts : (n : ℕ) → Counts (f.of_int n)
  pub mul_counts : (x : F) → Counts x → Counts (f.mul x factor)
  pub mul_grows : (x : F) → Counts x → f.lt (f.mul x factor) x ≡ false

module _ {F : Type 0} {f : Floats F} {Counts : F → Type 0} {factor : F}
    (large : IsFactor f Counts factor) (max : F) (max_counts : Counts max) where
  not_before :
      (a b c : F)
      → Counts a
      → Counts b
      → Counts c
      → f.lt a b ≡ false
      → f.lt c a ≡ false
      → f.lt c b ≡ false
  not_before a b c ca cb cz h k = elim (Bool-cases (f.lt c b)) [
    | inl e ↦ cc (large.lt_within c b a cz cb ca e h, k)
    | inr e ↦ e
  ]

  power_counts : (x : F) (n : ℕ) → Counts x → Counts (power f factor x n)
  power_counts x zero c = c
  power_counts x (suc n) c = power_counts (f.mul x factor) n (large.mul_counts x c)

  lt-power : (x : F) (n : ℕ) → Counts x → f.lt (power f factor x n) x ≡ false
  lt-power x zero c = large.lt_irrefl x c
  lt-power x (suc n) c =
      let more = large.mul_counts x c in
      not_before (f.mul x factor) x (power f factor (f.mul x factor) n) more c
        (power_counts (f.mul x factor) n more) (large.mul_grows x c)
        (lt-power (f.mul x factor) n more)

  capped_beyond :
      (x y : F)
      → Counts x
      → Counts y
      → f.lt x max ≡ false
      → f.lt y x ≡ false
      → capped f max x ≡ capped f max y
  capped_beyond x y cx cy e h = elim (Bool-cases (f.lt max x)) [
    | inl a ↦ rw (a, large.lt_within max x y max_counts cx cy a h) refl
    | inr n ↦
        let same : x ≡ max = large.lt_total x max cx max_counts e n in
        elim (Bool-cases (f.lt max y)) [
          | inl b ↦ rw (n, b) same
          | inr b ↦
              let below : f.lt y max ≡ false = subst (λ z. f.lt y z ≡ false) same h in
              rw (n, b) (same ∙ large.lt_total max y max_counts cy b below)
        ]
  ]

  capped-grow :
      (x : F) (n : ℕ)
      → Counts x
      → capped f max (grow f factor max x n) ≡ capped f max (power f factor x n)
  unfolding grow
  capped-grow x zero c = refl
  capped-grow x (suc n) c = elim (Bool-cases (f.lt x max)) [
    | inl e ↦ rw e (capped-grow (f.mul x factor) n (large.mul_counts x c))
    | inr e ↦ rw e (
        capped_beyond x (power f factor (f.mul x factor) n) c
          (power_counts (f.mul x factor) n (large.mul_counts x c)) e (lt-power x (suc n) c))
  ]

-- With float64 as documented and a finite factor of at least 1, the delay after n failures, of one or
-- more, is BaseDelay multiplied n times by Factor, or MaxDelay if that is less, before it is randomized:
-- leaving the loop at the bound changes nothing. After 0 failures it is BaseDelay, neither cut off nor
-- randomized, and of a negative number it is the first with no multiplication.
pub backoff_lem :
    {F : Type 0} {f : Floats F} {Counts : F → Type 0} (bc : Config F) (drawn : F) (retries : ℤ)
    → IsFactor f Counts bc.factor
    → backoff f bc drawn retries ≡ (
        if is_zero retries
        then bc.base_delay
        else randomized f bc.jitter drawn (
            capped f
              (f.of_int bc.max_delay)
              (power f bc.factor (f.of_int bc.base_delay) (times retries))))
unfolding backoff
backoff_lem {F} {f} bc drawn retries large =
    let base : F = f.of_int bc.base_delay in
    let max : F = f.of_int bc.max_delay in
    ap (λ d. if is_zero retries then bc.base_delay else randomized f bc.jitter drawn d)
      (capped-grow large max (large.of_int_counts bc.max_delay) base (times retries)
        (large.of_int_counts bc.base_delay))
