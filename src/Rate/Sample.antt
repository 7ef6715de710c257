-- ===== src/Rate/Sample.antt =====
-- grate/sample.go: what is measured of the requests of one window. Numbers are int64 in the source and
-- not negative; the atomic operations are one step for each call.
use gokits.Prelude.{ℕ, ◌+◌, ◌/◌, Bool, true, false, zero, suc, ltb, if◌then◌else◌}

pub record Sample : Type 0 where
  pub count : ℕ
  pub max_in_flight : ℕ
  pub drop : Bool
  pub total_rtt : ℕ

abbrev pub no_sample : Sample
no_sample = record { count = 0; max_in_flight = 0; drop = false; total_rtt = 0 }

-- `Add`
abbrev pub add : Sample → ℕ → ℕ → Bool → Sample
add s rtt in_flight dropped = record {
  drop = if dropped then true else s.drop;
  max_in_flight = if ltb s.max_in_flight in_flight then in_flight else s.max_in_flight;
  total_rtt = s.total_rtt + rtt;
  count = s.count + 1;
}

-- `RTT`
abbrev rtt_of : ℕ → ℕ → ℕ
rtt_of total zero = 0
rtt_of total (suc n) = total / suc n

abbrev pub rtt : Sample → ℕ
rtt s = rtt_of s.total_rtt s.count
