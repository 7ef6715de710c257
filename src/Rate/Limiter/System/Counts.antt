-- ===== src/Rate/Limiter/System/Counts.antt =====
-- grate/limiter.go: how many requests wait and run.
use gokits.Prelude.{
  ℕ, suc, ◌+◌, ◌≡◌, ◌==◌, Bool, true, false, Bool-cases, Option-cases, inl, inr, Option, none, some,
  List, [], ◌∷◌, length, length-map, leb, arith, if◌then◌else◌,
}
use gokits.Rate.Floats.{Floats, IsFloat64}
use gokits.Rate.Vegas.{ignore, acquire}
use gokits.Rate.Vegas.Bounds.{IsLimited, done-IsLimited}
use gokits.Rate.Vegas.Flight.{pull, length-pull, in_flight-done, new_vegas-IsLimited, start_empty}
use gokits.Rate.Codel.{CodelOption, QueuePacket, Error, push, received}
use gokits.Rate.Codel.Queue.{IsBounded, push-IsBounded, pop-IsBounded}
use gokits.Rate.Limiter.{Limiter, new_limiter, pushed, queued, allow, resume, finish}
use gokits.Rate.Limiter.System.{
  System, Event, arrives, listens, expires, finishes, claim, mark, marked, arriving, entered,
  answer, answers, step, run, new_system,
}

pub length-claim :
    (id : ℕ) (ws : List (ℕ × ℕ)) (n : ℕ) (vs : List (ℕ × ℕ))
    → claim id ws ≡ some (n, vs)
    → length ws ≡ length vs + 1
unfolding claim
length-claim id [] n vs h = ground (arith, h)
length-claim id ((i, m) ∷ ws) n vs h = elim (Option-cases (claim id ws)) [
  | inl e ↦ ground (arith, h, e)
  | inr ((k, us), e) ↦ ground (arith, h, e, length-claim id ws k us e)
]

-- The limit and the queue are within their bounds, and the count of requests in flight is the number
-- of those that wait or run.
pub record IsCounted (s : System) : Type 0 where
  pub limited : IsLimited s.limiter.rate
  pub bounded : IsBounded s.limiter.queue
  pub counted : s.limiter.rate.in_flight ≡ length s.waiting + length s.running

pub new_system-IsCounted : IsCounted new_system
unfolding new_limiter
new_system-IsCounted = record {
  limited = new_vegas-IsLimited;
  bounded = omega arith;
  counted = start_empty;
}

module _ {F : Type 0} {f : Floats F} {Within : ℕ → F → Type 0} (laws : IsFloat64 f Within) where
  -- A decision ends the wait of a request: it runs, or it is not counted any more.
  entered-pushed :
      (id n : ℕ) (e : Option Error) (l : Limiter) (ws : List (ℕ × ℕ)) (ns : List ℕ)
      → IsLimited l.rate
      → IsBounded l.queue
      → l.rate.in_flight ≡ suc (length ws + length ns)
      → IsCounted (entered id (pushed f n e l) ws ns)
  unfolding entered pushed
  entered-pushed id n none l ws ns b c h = record {
    limited = b;
    bounded = c;
    counted = omega (arith, h);
  }
  entered-pushed id n (some e) l ws ns b c h = record {
    limited = done-IsLimited laws n 0 0 ignore 0 l.rate b;
    bounded = c;
    counted = omega (arith, h, in_flight-done f n 0 0 ignore 0 l.rate);
  }

  answer-IsCounted :
      (id : ℕ) (d : Option Bool) (s : System) → IsCounted s → IsCounted (answer f id d s)
  unfolding answer resume
  answer-IsCounted id d s c = elim (Option-cases (claim id s.waiting)) [
    | inl e ↦ rw (e, answer) c
    | inr ((n, ws), e) ↦
        rw (e, answer)
          (entered-pushed id n (received d) s.limiter ws s.running c.limited c.bounded
            (omega (arith, c.counted, length-claim id s.waiting n ws e)))
  ]

  answers-IsCounted :
      (sent : List (QueuePacket × Bool)) (s : System) → IsCounted s → IsCounted (answers f sent s)
  unfolding answers
  answers-IsCounted [] s c = c
  answers-IsCounted ((p, drop) ∷ sent) s c =
      answers-IsCounted sent _ (answer-IsCounted p.id (some drop) s c)

  marked-IsCounted : (id : ℕ) (b : Bool) (s : System) → IsCounted s → IsCounted (marked id b s)
  unfolding marked mark
  marked-IsCounted id b s c = record {
    limited = c.limited;
    bounded =
        rw
          (length-map (λ p. if p.id == id then record p { waits = b } else p)
            s.limiter.queue.packets)
          c.bounded;
    counted = c.counted;
  }

  entered-queued :
      (id n : ℕ) (e : Option Error) (l : Limiter) (ws : List (ℕ × ℕ)) (ns : List ℕ)
      → IsLimited l.rate
      → IsBounded l.queue
      → l.rate.in_flight ≡ suc (length ws + length ns)
      → IsCounted (entered id (queued f n e l) ws ns)
  unfolding queued entered
  entered-queued id n none l ws ns b c h = record {
    limited = b;
    bounded = c;
    counted = omega (arith, h);
  }
  entered-queued id n (some e) l ws ns b c h = entered-pushed id n (some e) l ws ns b c h

  arrives-IsCounted :
      (id now : ℕ) (s : System)
      → IsCounted s
      → IsCounted (entered id (allow f (arriving id now) s.limiter) s.waiting s.running)
  unfolding allow acquire entered
  arrives-IsCounted id now s c =
      let l = s.limiter in
      let n = l.rate.in_flight + 1 in
      elim (Bool-cases (leb n l.rate.limit)) [
        | inl e ↦
            rw (e, entered)
              record {
                limited = c.limited;
                bounded = c.bounded;
                counted = omega (arith, c.counted);
              }
        | inr e ↦
            rw (e, entered)
              (entered-queued id n (push (arriving id now) l.queue).0 _ s.waiting s.running
                c.limited (push-IsBounded (arriving id now) l.queue c.bounded)
                (omega (arith, c.counted)))
      ]

  module _ (quotient : ℕ → ℕ → ℕ) (o : CodelOption) where
    pub step-IsCounted : (e : Event) (s : System) → IsCounted s → IsCounted (step f quotient o e s)
    unfolding step finish
    step-IsCounted (arrives id now) s c = arrives-IsCounted id now s c
    step-IsCounted (listens id) s c = marked-IsCounted id true s c
    step-IsCounted (expires id) s c =
        answer-IsCounted id none (marked id false s) (marked-IsCounted id false s c)
    step-IsCounted (finishes k start end op r clock) s c = elim (Option-cases (pull k s.running)) [
      | inl e ↦ rw (e, step) c
      | inr ((n, ns), e) ↦
          rw (e, step)
            (answers-IsCounted _ _ record {
              limited = done-IsLimited laws n start end op r s.limiter.rate c.limited;
              bounded = pop-IsBounded quotient o clock s.limiter.queue c.bounded;
              counted = omega (
                arith,
                c.counted,
                length-pull k s.running n ns e,
                in_flight-done f n start end op r s.limiter.rate,
              );
            })
    ]

    run-IsCounted : (es : List Event) (s : System) → IsCounted s → IsCounted (run f quotient o es s)
    unfolding run
    run-IsCounted [] s c = c
    run-IsCounted (e ∷ es) s c = run-IsCounted es (step f quotient o e s) (step-IsCounted e s c)

    -- After any requests, the limit is within 8 and 2048, the queue has at most 2048 packets, and the
    -- count of requests in flight is the number of those that wait in the queue or run. float64
    -- behaves as documented.
    pub reachable-IsCounted : (es : List Event) → IsCounted (run f quotient o es new_system)
    reachable-IsCounted es = run-IsCounted es new_system new_system-IsCounted
