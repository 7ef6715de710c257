-- ===== src/Rate/Codel/Tests.antt =====
-- grate/codel.go: tests and examples.
use gokits.Prelude.{ℕ, zero, suc, ◌+◌, ◌/◌, ◌≡◌, refl, true, false, List, [], ◌∷◌, arith}
use gokits.Rate.Codel.{
  default_option, QueuePacket, no_control, Codel, judge, pop, check_fa_time, enter, stay, pop_loop,
  offer,
}
use gokits.Rate.Codel.Judge.{Judged, above_since, stands, after, judge_standing, judge_same}
use gokits.Rate.Codel.Queue.{Pops, pop-Pops}

-- The interval over the count.
abbrev over_count : ℕ → ℕ → ℕ
over_count i n = i / n

-- The same, with an answer of its own at 0.
abbrev guarded : ℕ → ℕ → ℕ
guarded i zero = 7
guarded i (suc n) = over_count i (suc n)

abbrev packet : ℕ → ℕ → QueuePacket
packet id t = record { id = id; timestamp = t; waits = true }

abbrev late_packets : List Judged
late_packets = (700, packet 2 600) ∷ (200, packet 1 100) ∷ []

judge_standing_example :
    (judge over_count default_option 720
      (packet 3 610)
      (after over_count default_option late_packets)).0
    ≡ stands default_option 720 (above_since default_option ((720, packet 3 610) ∷ late_packets))
judge_standing_example =
    judge_standing over_count default_option late_packets 720 (packet 3 610) (omega arith)

-- The first delay that is not below the target is at 200, so an interval has passed at 700.
dropped_test :
    (judge over_count default_option 720
      (packet 3 610)
      (after over_count default_option late_packets)).0
    ≡ true
unfolding judge after check_fa_time enter stay
dropped_test = refl

judge_same_example :
    judge over_count default_option 720 (packet 3 610) no_control
    ≡ judge guarded default_option 720 (packet 3 610) no_control
judge_same_example =
    judge_same over_count guarded default_option (λ n. refl) 720 (packet 3 610) no_control

-- The first request has left; the second waits.
abbrev two_packets : Codel
two_packets = record {
  packets = record { id = 1; timestamp = 100; waits = false } ∷ packet 2 110 ∷ packet 3 120 ∷ [];
  control = no_control;
}

pop-Pops_example :
    let (sent, w) = pop over_count default_option (λ k. 130 + k) two_packets in
    Pops over_count default_option
      (λ k. 130 + k)
      0
      two_packets.control
      two_packets.packets
      sent
      w.packets
      w.control
pop-Pops_example = pop-Pops over_count default_option (λ k. 130 + k) two_packets

pop_test :
    let (sent, w) = pop over_count default_option (λ k. 130 + k) two_packets in
    (sent ≡ (packet 2 110, false) ∷ []) × (w.packets ≡ packet 3 120 ∷ [])
unfolding pop pop_loop offer judge check_fa_time enter stay
pop_test = (refl, refl)
