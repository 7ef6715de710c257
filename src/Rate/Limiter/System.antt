-- ===== src/Rate/Limiter/System.antt =====
-- grate/limiter.go over any sequence of requests: those that wait in the queue and those that run.
pub mod Counts
pub mod Running
use gokits.Prelude.{
  ℕ, ◌==◌, Bool, true, false, Option, none, some, List, [], ◌∷◌, map, if◌then◌else◌,
}
use gokits.Rate.Floats.{Floats}
use gokits.Rate.Vegas.{Operation}
use gokits.Rate.Vegas.Flight.{pull}
use gokits.Rate.Codel.{CodelOption, QueuePacket, Codel}
use gokits.Rate.Limiter.{
  Limiter, new_limiter, Allowed, admitted, waits, refused, allow, resume, finish,
}

-- The limiter with the requests: those that wait, by the identity of the packet, and those that run,
-- each with the number that it was given.
pub record System : Type 0 where
  pub limiter : Limiter
  pub waiting : List (ℕ × ℕ)
  pub running : List ℕ

pub data Event : Type 0 where
  -- A request calls `Allow`.
  arrives : (id now : ℕ) → Event
  -- A request in the queue reaches its receive.
  listens : ℕ → Event
  -- The context of a request in the queue ends.
  expires : ℕ → Event
  -- A request that runs calls its function.
  finishes : ℕ → (start end : ℕ) → Operation → (r : ℕ) → (ℕ → ℕ) → Event

-- The number of the request that waits under the identity, and the others.
pub claim : ℕ → List (ℕ × ℕ) → Option (ℕ × List (ℕ × ℕ))
claim id [] = none
claim id ((i, n) ∷ ws) =
    let rest = claim id ws in
    if i == id
    then some (n, ws)
    else elim rest [ none ↦ none | some (m, vs) ↦ some (m, (i, n) ∷ vs) ]

pub mark : ℕ → Bool → Codel → Codel
mark id b q = record q {
  packets = map (λ p. if p.id == id then record p { waits = b } else p) q.packets;
}

pub marked : ℕ → Bool → System → System
marked id b s = record s { limiter = record s.limiter { queue = mark id b s.limiter.queue } }

-- The packet of a request that is not at its receive yet.
abbrev pub arriving : ℕ → ℕ → QueuePacket
arriving id now = record { id = id; timestamp = now; waits = false }

-- The requests after a call of `Allow` returns or waits.
pub entered : ℕ → Allowed × Limiter → List (ℕ × ℕ) → List ℕ → System
entered id (admitted n, l) ws ns = record { limiter = l; waiting = ws; running = n ∷ ns }
entered id (waits n, l) ws ns = record { limiter = l; waiting = (id, n) ∷ ws; running = ns }
entered id (refused e, l) ws ns = record { limiter = l; waiting = ws; running = ns }

module _ {F : Type 0} (f : Floats F) where
  -- A request that waits goes on with a decision; one that no longer waits receives none.
  unfoldable pub answer : ℕ → Option Bool → System → System
  answer id decision s = elim (claim id s.waiting) [
    | none ↦ s
    | some (n, ws) ↦ entered id (resume f n decision s.limiter) ws s.running
  ]

  -- The decisions of one call of `Pop` reach their requests.
  unfoldable pub answers : List (QueuePacket × Bool) → System → System
  answers [] s = s
  answers ((p, drop) ∷ sent) s = answers sent (answer p.id (some drop) s)

  module _ (quotient : ℕ → ℕ → ℕ) (o : CodelOption) where
    pub step : Event → System → System
    step (arrives id now) s = entered id (allow f (arriving id now) s.limiter) s.waiting s.running
    step (listens id) s = marked id true s
    step (expires id) s = answer id none (marked id false s)
    step (finishes k start end op r clock) s = elim (pull k s.running) [
      | none ↦ s
      | some (n, ns) ↦
          let (sent, l) = finish f quotient o clock n start end op r s.limiter in
          answers sent (record s { limiter = l; running = ns })
    ]

    unfoldable pub run : List Event → System → System
    run [] s = s
    run (e ∷ es) s = run es (step e s)

abbrev pub new_system : System
new_system = record { limiter = new_limiter; waiting = []; running = [] }
