-- ===== src/Rate/Limiter.antt =====
-- grate/limiter.go: the limit with the queue of those above it.
pub mod System
use gokits.Prelude.{ℕ, Bool, true, false, Option, none, some, List, [], if◌then◌else◌}
use gokits.Rate.Floats.{Floats}
use gokits.Rate.Vegas.{Vegas, Operation, ignore, new_vegas, acquire, done}
use gokits.Rate.Codel.{CodelOption, QueuePacket, Error, no_control, Codel, push, received, pop}

-- `limiter`
pub record Limiter : Type 0 where
  pub rate : Vegas
  pub queue : Codel

-- `NewLimiter`
pub new_limiter : Limiter
new_limiter = record { rate = new_vegas; queue = record { packets = []; control = no_control } }

-- Where a call of `Allow` stands: it returned a function that keeps the number, it waits in the queue,
-- or it returned an error.
pub data Allowed : Type 0 where
  admitted : ℕ → Allowed
  waits : ℕ → Allowed
  refused : Error → Allowed

module _ {F : Type 0} (f : Floats F) where
  -- `Allow` after `Push` returns its error or none.
  pub pushed : ℕ → Option Error → Limiter → Allowed × Limiter
  pushed n none l = (admitted n, l)
  pushed n (some e) l = (refused e, record l { rate = done f n 0 0 ignore 0 l.rate })

  -- `Allow` after the first half of `Push`: full, or it waits.
  pub queued : ℕ → Option Error → Limiter → Allowed × Limiter
  queued n none l = (waits n, l)
  queued n (some e) l = pushed n (some e) l

  -- `Allow` up to its return, or to the receive of `Push`.
  pub allow : QueuePacket → Limiter → Allowed × Limiter
  allow p l =
      let (n, success, v) = acquire l.rate in
      let (err, q) = push p l.queue in
      if success
      then (admitted n, record l { rate = v })
      else queued n err (record { rate = v; queue = q })

  -- `Allow` from the receive of `Push` on, with the decision, or none where the context ends first.
  pub resume : ℕ → Option Bool → Limiter → Allowed × Limiter
  resume n decision l = pushed n (received decision) l

  -- The function that `Allow` returns, with the times of its requests and of the calls of `judge`.
  pub finish :
      (ℕ → ℕ → ℕ)
      → CodelOption
      → (ℕ → ℕ)
      → ℕ
      → (start end : ℕ) → Operation
      → ℕ
      → Limiter
      → List (QueuePacket × Bool) × Limiter
  finish quotient o clock n start end op r l =
      let v = done f n start end op r l.rate in
      let (sent, q) = pop quotient o clock l.queue in (sent, record { rate = v; queue = q })
