-- ===== src/Rate/Tests.antt =====
-- The package grate: tests and examples.
use gokits.Prelude.{
  ℕ, zero, suc, ◌+◌, ◌-◌, ◌*◌, ◌/◌, ◌≤◌, ◌<◌, ◌≡◌, false, List, [], ◌∷◌, length, ltb, leb, arith,
  if◌then◌else◌,
}
use gokits.Rate.Floats.{Floats, IsFloat64}
use gokits.Rate.Sample.{Sample, no_sample, rtt}
use gokits.Rate.Vegas.{
  Vegas, success, drop, new_vegas, acquire, end_window, max_limit, min_window_time, max_window_time,
}
use gokits.Rate.Vegas.Bounds.{IsLimited, window_closed}
use gokits.Rate.Vegas.Flight.{Event, begins, ends, acquire_exact}
use gokits.Rate.Vegas.Flight
use gokits.Rate.Codel.{default_option}
use gokits.Rate.Limiter.System.{arrives, listens, expires, finishes, run, new_system}
use gokits.Rate.Limiter.System as System
use gokits.Rate.Limiter.System.Counts.{IsCounted, reachable-IsCounted}
use gokits.Rate.Limiter.System.Running.{running_bounded}

-- The largest number up to k whose square is not above n.
abbrev root_from : ℕ → ℕ → ℕ
root_from zero n = 0
root_from (suc k) n = let r = root_from k n in if leb (suc k * suc k) n then suc k else r

root_from_bound : (k n : ℕ) → root_from k n ≤ k
root_from_bound zero n = omega arith
root_from_bound (suc k) n = ground (arith, root_from_bound k n)

-- Whole numbers in place of float64.
abbrev whole : Floats ℕ
whole = record {
  of_int = λ n. n;
  to_int = λ x. x;
  add = λ x y. x + y;
  sub = λ x y. x - y;
  mul = λ x y. x * y;
  div = λ x y. x / y;
  sqrt = λ x. root_from x x;
  min = λ x y. if ltb x y then x else y;
  max = λ x y. if ltb x y then y else x;
  lt = ltb;
}

abbrev Below : ℕ → ℕ → Type 0
Below m x = x ≤ m

mul_mono : (m n x y : ℕ) → x ≤ m → y ≤ n → x * y ≤ m * n
mul_mono m n x y h h' = grind arith

clamped_whole :
    (lo hi m x : ℕ) → lo ≤ hi → let y = whole.max lo (whole.min hi x) in (lo ≤ y) × (y ≤ hi)
clamped_whole lo hi m x h = ground (arith, h)

halved_whole : (m x : ℕ) → x ≤ m → x / 2 ≤ m
halved_whole m x h = omega (arith, h)

whole-IsFloat64 : IsFloat64 whole Below
whole-IsFloat64 = record {
  of_int_within = λ n h. omega arith;
  sqrt_within = λ n h. root_from_bound n n;
  halved_within = λ m x h w. halved_whole m x w;
  add_within = λ m n x y h u w. omega (arith, u, w);
  sub_within = λ m n x y h u w. omega (arith, u, w);
  mul_within = λ m n x y h u w. mul_mono m n x y u w;
  clamped = λ lo hi m x h h' w. clamped_whole lo hi m x h;
}

-- Sixteen requests of 100 ms each, eight at most at once.
abbrev full : Sample
full = record { count = 16; max_in_flight = 8; drop = false; total_rtt = 1600000000 }

abbrev half_full : Vegas
half_full = record {
  limit = 8;
  in_flight = 4;
  update_time = 1000;
  min_rtt = 0;
  sample = full;
  probes = 84;
}

window_closed_example :
    let w = end_window whole full 2000 5 half_full in
    (2000 + min_window_time ≤ w.update_time)
    × (w.update_time ≤ 2000 + max_window_time)
    × (0 < w.min_rtt)
    × (w.min_rtt ≤ rtt full)
    × IsLimited w
    × (w.sample ≡ no_sample)
window_closed_example =
    window_closed whole-IsFloat64 full 2000 5 half_full (omega arith, omega arith) (omega arith)

abbrev some_requests : List Event
some_requests = begins ∷ begins ∷ ends 1 10 30 success 0 ∷ begins ∷ ends 5 10 30 drop 0 ∷ []

acquire_exact_example :
    let (v, ns) = Flight.run whole some_requests new_vegas [] in
    IsLimited v × (v.in_flight ≡ length ns) × ((acquire v).1 ≡ ltb (length ns) v.limit)
acquire_exact_example = acquire_exact whole whole-IsFloat64 some_requests

-- The interval over the count.
abbrev over_count : ℕ → ℕ → ℕ
over_count i n = i / n

abbrev some_calls : List System.Event
some_calls =
    arrives 1 100
    ∷ arrives 2 105
    ∷ listens 2
    ∷ finishes 0 100 150 success 0 (λ k. 150 + k)
    ∷ expires 2
    ∷ []

reachable-IsCounted_example : IsCounted (run whole over_count default_option some_calls new_system)
reachable-IsCounted_example =
    reachable-IsCounted whole-IsFloat64 over_count default_option some_calls

running_bounded_example :
    length (run whole over_count default_option some_calls new_system).running ≤ max_limit
running_bounded_example = running_bounded whole over_count default_option whole-IsFloat64 some_calls
