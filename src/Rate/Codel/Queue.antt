-- ===== src/Rate/Codel/Queue.antt =====
-- grate/codel.go: the packets over Push and Pop.
use gokits.Prelude.{
  ℕ, suc, ◌≤◌, ◌≡◌, refl, Bool, true, false, List, [], ◌∷◌, length, length-append, arith,
}
use gokits.Rate.Codel.{
  CodelOption, QueuePacket, Control, Codel, judge, offer, push, pop_loop, pop, max_packets,
}

module _ (quotient : ℕ → ℕ → ℕ) (o : CodelOption) (clock : ℕ → ℕ) where
  -- What judge says of the k-th packet, and the state that it leaves.
  abbrev pub verdict : ℕ → QueuePacket → Control → Bool
  verdict k p q = (judge quotient o (clock k) p q).0

  abbrev pub judged : ℕ → QueuePacket → Control → Control
  judged k p q = (judge quotient o (clock k) p q).1

  -- What `Pop` does to the packets from the k-th on, of which each is judged in the state that the
  -- one before leaves: the packets whose requests receive a decision, with it, the packets that stay,
  -- and the last state.
  pub data Pops
      : ℕ
        → Control
        → List QueuePacket
        → List (QueuePacket × Bool)
        → List QueuePacket
        → Control
        → Type 0 where
    emptied : {k : ℕ} {q : Control} → Pops k q [] [] [] q
    skipped :
        {k : ℕ} {q q' : Control} {p : QueuePacket} {ps rest : List QueuePacket}
        {sent : List (QueuePacket × Bool)}
        → p.waits ≡ false
        → Pops (suc k) (judged k p q) ps sent rest q'
        → Pops k q (p ∷ ps) sent rest q'
    dropped :
        {k : ℕ} {q q' : Control} {p : QueuePacket} {ps rest : List QueuePacket}
        {sent : List (QueuePacket × Bool)}
        → p.waits ≡ true
        → verdict k p q ≡ true
        → Pops (suc k) (judged k p q) ps sent rest q'
        → Pops k q (p ∷ ps) ((p, true) ∷ sent) rest q'
    admitted :
        {k : ℕ} {q : Control} {p : QueuePacket} {ps : List QueuePacket}
        → p.waits ≡ true
        → verdict k p q ≡ false
        → Pops k q (p ∷ ps) ((p, false) ∷ []) ps (judged k p q)

  offer-Pops :
      (k : ℕ) (q : Control) (ps : List QueuePacket) (waits drop : Bool) (p : QueuePacket)
      (rest : List (QueuePacket × Bool) × Codel)
      → p.waits ≡ waits
      → verdict k p q ≡ drop
      → Pops (suc k) (judged k p q) ps rest.0 rest.1.packets rest.1.control
      → let (sent, w) = offer waits drop p (record { packets = ps; control = judged k p q }) rest in
        Pops k q (p ∷ ps) sent w.packets w.control
  unfolding offer
  offer-Pops k q ps true true p rest e v r = dropped e v r
  offer-Pops k q ps true false p rest e v r = admitted e v
  offer-Pops k q ps false drop p rest e v r = skipped e r

  pop_loop-Pops :
      (k : ℕ) (ps : List QueuePacket) (q : Control)
      → let (sent, w) = pop_loop quotient o clock k ps q in Pops k q ps sent w.packets w.control
  unfolding pop_loop
  pop_loop-Pops k [] q = emptied
  pop_loop-Pops k (p ∷ ps) q =
      offer-Pops k q ps p.waits (verdict k p q) p _ refl refl
        (pop_loop-Pops (suc k) ps (judged k p q))

  -- `Pop` takes packets from the front, in order, and has each judged in the state that the one before
  -- leaves. Each whose request waits receives the decision of judge, up to the first that judge admits,
  -- after which no more are taken; the others are passed over.
  pub pop-Pops :
      (q : Codel)
      → let (sent, w) = pop quotient o clock q in
        Pops 0 q.control q.packets sent w.packets w.control
  unfolding pop
  pop-Pops q = pop_loop-Pops 0 q.packets q.control

  Pops_length :
      (k : ℕ) (q q' : Control) (ps : List QueuePacket) (sent : List (QueuePacket × Bool))
      (rest : List QueuePacket)
      → Pops k q ps sent rest q'
      → length rest ≤ length ps
  Pops_length k q q' ps sent rest emptied = omega arith
  Pops_length k q q' ps sent rest (skipped {p = p} {ps = qs} {sent = s} e r) =
      omega (arith, Pops_length (suc k) (judged k p q) q' qs s rest r)
  Pops_length k q q' ps sent rest (dropped {p = p} {ps = qs} {sent = s} e v r) =
      omega (arith, Pops_length (suc k) (judged k p q) q' qs s rest r)
  Pops_length k q q' ps sent rest (admitted e v) = omega arith

-- A channel that is not above its capacity.
abbrev pub IsBounded : Codel → Type 0
IsBounded q = length q.packets ≤ max_packets

pub push-IsBounded : (p : QueuePacket) (q : Codel) → IsBounded q → IsBounded (push p q).1
unfolding push
push-IsBounded p q h = ground (arith, h, length-append q.packets (p ∷ []))

pub pop-IsBounded :
    (quotient : ℕ → ℕ → ℕ) (o : CodelOption) (clock : ℕ → ℕ) (q : Codel)
    → IsBounded q
    → IsBounded (pop quotient o clock q).1
pop-IsBounded quotient o clock q h = omega (
  arith,
  h,
  Pops_length quotient o clock 0 q.control _ q.packets _ _ (pop-Pops quotient o clock q),
)
