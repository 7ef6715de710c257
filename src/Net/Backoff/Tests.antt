-- ===== src/Net/Backoff/Tests.antt =====
-- gnet/backoff.go: tests and examples.
use gokits.Prelude.{ℕ, ◌+◌, ◌-◌, ◌*◌, ◌≡◌, ltb, arith}
use gokits.Prelude.Int.{pos}
use gokits.Net.Backoff.{Floats, Config, backoff}
use gokits.Net.Backoff.Closed.{IsFactor, backoff_lem}

-- Natural numbers for floats.
abbrev naturals : Floats ℕ
naturals = record {
  of_int = λ n. n;
  to_int = λ n. n;
  add = λ a b. a + b;
  sub = λ a b. a - b;
  mul = λ a b. a * b;
  lt = ltb;
}

double-IsFactor : IsFactor naturals (λ n. Unit {0}) 2
double-IsFactor = record {
  lt_irrefl = λ a x. ground arith;
  lt_within = λ a b c x y z h k. ground (arith, h, k);
  lt_total = λ a b x y h k. ground (arith, h, k);
  of_int_counts = λ n. tt;
  mul_counts = λ x c. tt;
  mul_grows = λ x c. ground arith;
}

abbrev doubling : Config ℕ
doubling = record { max_delay = 100; base_delay = 3; factor = 2; jitter = 0 }

backoff_lem_example : backoff naturals doubling 7 (pos 9) ≡ 100
backoff_lem_example = backoff_lem doubling 7 (pos 9) double-IsFactor
