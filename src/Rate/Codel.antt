-- ===== src/Rate/Codel.antt =====
-- grate/codel.go: the queue of the requests above the limit. Times are in milliseconds and not
-- negative, and the clock does not go back; `now-a < b` is written `now < a + b`.
pub mod Judge
pub mod Queue
mod Tests
use gokits.Prelude.{
  ℕ, zero, suc, ◌+◌, ◌-◌, Bool, true, false, not, Option, none, some, List, [], ◌∷◌, ◌++◌, length,
  ltb, leb, ◌==◌, ◌&&◌, ◌||◌, if◌then◌else◌,
}

pub data Error : Type 0 where
  limit_exceed deadline : Error

-- `CoDelOption`
pub record CodelOption : Type 0 where
  pub target : ℕ
  pub internal : ℕ

-- The option of `NewCoDel` without an argument.
abbrev pub default_option : CodelOption
default_option = record { target = 50; internal = 500 }

-- The capacity of the channel of packets.
abbrev pub max_packets : ℕ
max_packets = 2048

-- `queuePacket`; the identity stands for the channel of the request, and `waits` says whether the
-- request stands at its receive.
pub record QueuePacket : Type 0 where
  pub id : ℕ
  pub timestamp : ℕ
  pub waits : Bool

-- The state of `CoDel` that the lock guards.
pub record Control : Type 0 where
  pub count : ℕ
  pub dropping : Bool
  pub fa_time : ℕ
  pub drop_next : ℕ

abbrev pub no_control : Control
no_control = record { count = 0; dropping = false; fa_time = 0; drop_next = 0 }

-- `checkFaTime`: the answer and the state.
pub check_fa_time : CodelOption → (now elapsed : ℕ) → Control → Bool × Control
check_fa_time o now elapsed q =
    if ltb elapsed o.target
    then (false, record q { fa_time = 0 })
    else if q.fa_time == 0
    then (false, record q { fa_time = now + o.internal })
    else (leb q.fa_time now, q)

-- `controlLaw`, with the quotient of the interval by the root of the count as a function.
abbrev pub control_law : (ℕ → ℕ → ℕ) → CodelOption → ℕ → Control → Control
control_law quotient o now q = record q { drop_next = now + quotient o.internal q.count }

-- The count at which a cycle of drops begins.
abbrev pub restart : CodelOption → ℕ → Control → ℕ
restart o now q =
    if ltb now (q.drop_next + o.internal) then (if ltb 2 q.count then q.count - 2 else 1) else 1

-- The last test of `judge` and what follows it.
pub enter : (ℕ → ℕ → ℕ) → CodelOption → ℕ → Bool → Control → Bool × Control
enter quotient o now drop q =
    if drop && (ltb now (q.drop_next + o.internal) || leb (q.fa_time + o.internal) now)
    then (true, control_law quotient o now (record q { dropping = true; count = restart o now q }))
    else (drop, q)

-- What `judge` does where the queue is in its dropping state.
pub stay : (ℕ → ℕ → ℕ) → CodelOption → ℕ → Bool → Control → Bool × Control
stay quotient o now drop q =
    if not drop
    then (false, record q { dropping = false })
    else if ltb q.drop_next now
    then (true, control_law quotient o q.drop_next (record q { count = q.count + 1 }))
    else enter quotient o now drop q

-- `judge`
pub judge : (ℕ → ℕ → ℕ) → CodelOption → ℕ → QueuePacket → Control → Bool × Control
judge quotient o now p q =
    let (drop, q1) = check_fa_time o now (now - p.timestamp) q in
    if q1.dropping then stay quotient o now drop q1 else enter quotient o now drop q1

-- `CoDel`
pub record Codel : Type 0 where
  pub packets : List QueuePacket
  pub control : Control

-- The first half of `Push`: the packet is queued, or the channel is full.
pub push : QueuePacket → Codel → Option Error × Codel
push p q =
    if ltb (length q.packets) max_packets
    then (none, record q { packets = q.packets ++ (p ∷ []) })
    else (some limit_exceed, q)

-- The second half of `Push`: the request receives a decision, or its context ends before it.
abbrev pub received : Option Bool → Option Error
received none = some deadline
received (some true) = some limit_exceed
received (some false) = none

-- What `Pop` does with one packet: the flags say whether its request waits and whether it is
-- dropped; `stopped` is the state where the loop ends here, `rest` what the loop goes on to.
pub offer :
    Bool
    → Bool
    → QueuePacket
    → Codel
    → List (QueuePacket × Bool) × Codel
    → List (QueuePacket × Bool) × Codel
offer waits drop p stopped rest =
    if waits
    then (if drop then ((p, drop) ∷ rest.0, rest.1) else ((p, drop) ∷ [], stopped))
    else rest

-- `Pop`, with the times of its calls of `judge`, one for each packet: the decisions that are
-- received, with the packets, and the state.
pub pop_loop :
    (ℕ → ℕ → ℕ)
    → CodelOption
    → (ℕ → ℕ)
    → ℕ
    → List QueuePacket
    → Control
    → List (QueuePacket × Bool) × Codel
pop_loop quotient o clock k [] q = ([], record { packets = []; control = q })
pop_loop quotient o clock k (p ∷ ps) q =
    let (drop, q1) = judge quotient o (clock k) p q in
    let rest = pop_loop quotient o clock (suc k) ps q1 in
    offer p.waits drop p (record { packets = ps; control = q1 }) rest

pub pop : (ℕ → ℕ → ℕ) → CodelOption → (ℕ → ℕ) → Codel → List (QueuePacket × Bool) × Codel
pop quotient o clock q = pop_loop quotient o clock 0 q.packets q.control
