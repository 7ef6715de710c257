-- ===== src/Rate/Limiter/System/Running.antt =====
-- grate/limiter.go: how many requests run at once.
use gokits.Prelude.{
  ℕ, suc, ◌+◌, ◌≤◌, ◌≡◌, refl, Bool, true, false, Bool-cases, Option-cases, inl, inr, Option, none,
  some, List, [], ◌∷◌, length, leb, arith,
}
use gokits.Rate.Floats.{Floats, IsFloat64}
use gokits.Rate.Vegas.{acquire, max_limit}
use gokits.Rate.Vegas.Flight.{pull, length-pull}
use gokits.Rate.Codel.{CodelOption, QueuePacket, Control, Error, push, pop}
use gokits.Rate.Codel.Queue.{Pops, judged, emptied, skipped, dropped, admitted, pop-Pops}
use gokits.Rate.Limiter.{Limiter, pushed, queued, allow, resume, finish}
use gokits.Rate.Limiter.System.{
  System, Event, arrives, listens, expires, finishes, claim, marked, arriving, entered, answer,
  answers, step, run, new_system,
}
use gokits.Rate.Limiter.System.Counts.{IsCounted, step-IsCounted, new_system-IsCounted}

-- The packets that a call of `Pop` admits.
unfoldable admits : List (QueuePacket × Bool) → ℕ
admits [] = 0
admits ((p, true) ∷ sent) = admits sent
admits ((p, false) ∷ sent) = admits sent + 1

Pops_admits :
    (quotient : ℕ → ℕ → ℕ) (o : CodelOption) (clock : ℕ → ℕ) (k : ℕ) (q q' : Control)
    (ps : List QueuePacket) (sent : List (QueuePacket × Bool)) (rest : List QueuePacket)
    → Pops quotient o clock k q ps sent rest q'
    → admits sent ≤ 1
unfolding admits
Pops_admits quotient o clock k q q' ps sent rest emptied = omega arith
Pops_admits quotient o clock k q q' ps sent rest (skipped {p = p} {ps = qs} {sent = s} e r) =
    Pops_admits quotient o clock (suc k) (judged quotient o clock k p q) q' qs s rest r
Pops_admits quotient o clock k q q' ps sent rest (dropped {p = p} {ps = qs} {sent = s} e v r) =
    Pops_admits quotient o clock (suc k) (judged quotient o clock k p q) q' qs s rest r
Pops_admits quotient o clock k q q' ps sent rest (admitted e v) = omega arith

-- What one decision admits.
unfoldable admitted_by : Option Bool → ℕ
admitted_by none = 0
admitted_by (some true) = 0
admitted_by (some false) = 1

module _ {F : Type 0} (f : Floats F) where
  entered-resume :
      (id n : ℕ) (d : Option Bool) (l : Limiter) (ws : List (ℕ × ℕ)) (ns : List ℕ)
      → length (entered id (resume f n d l) ws ns).running ≤ length ns + admitted_by d
  unfolding entered resume pushed admitted_by
  entered-resume id n none l ws ns = omega arith
  entered-resume id n (some true) l ws ns = omega arith
  entered-resume id n (some false) l ws ns = omega arith

  running-answer :
      (id : ℕ) (d : Option Bool) (s : System)
      → length (answer f id d s).running ≤ length s.running + admitted_by d
  unfolding answer
  running-answer id d s = elim (Option-cases (claim id s.waiting)) [
    | inl e ↦ rw (e, answer) (omega arith)
    | inr ((n, ws), e) ↦ rw (e, answer) (entered-resume id n d s.limiter ws s.running)
  ]

  running-answers :
      (sent : List (QueuePacket × Bool)) (s : System)
      → length (answers f sent s).running ≤ length s.running + admits sent
  unfolding answers admits admitted_by
  running-answers [] s = omega arith
  running-answers ((p, true) ∷ sent) s =
      omega (
        arith,
        running-answers sent (answer f p.id (some true) s),
        running-answer p.id (some true) s,
      )
  running-answers ((p, false) ∷ sent) s = omega (
    arith,
    running-answers sent (answer f p.id (some false) s),
    running-answer p.id (some false) s,
  )

  entered-queued :
      (id n : ℕ) (e : Option Error) (l : Limiter) (ws : List (ℕ × ℕ)) (ns : List ℕ)
      → (entered id (queued f n e l) ws ns).running ≡ ns
  unfolding queued entered pushed
  entered-queued id n none l ws ns = refl
  entered-queued id n (some e) l ws ns = refl

  running-arrives :
      (id now : ℕ) (s : System)
      → IsCounted s
      → length s.running ≤ max_limit
      → length (entered id (allow f (arriving id now) s.limiter) s.waiting s.running).running
        ≤ max_limit
  unfolding allow acquire entered
  running-arrives id now s c h =
      let l = s.limiter in
      let n = l.rate.in_flight + 1 in
      elim (Bool-cases (leb n l.rate.limit)) [
        | inl e ↦ rw (e, entered) (ground (arith, e, c.counted, c.limited.1))
        | inr e ↦
            rw (e, entered)
              (rw (entered-queued id n (push (arriving id now) l.queue).0 _ s.waiting s.running) h)
      ]

  module _ (quotient : ℕ → ℕ → ℕ) (o : CodelOption) where
    running-step :
        (e : Event) (s : System)
        → IsCounted s
        → length s.running ≤ max_limit
        → length (step f quotient o e s).running ≤ max_limit
    unfolding step finish marked admitted_by
    running-step (arrives id now) s c h = running-arrives id now s c h
    running-step (listens id) s c h = h
    running-step (expires id) s c h = omega (arith, h, running-answer id none (marked id false s))
    running-step (finishes k start end op r clock) s c h = elim (Option-cases (pull k s.running)) [
      | inl e ↦ rw (e, step) h
      | inr ((n, ns), e) ↦
          rw (e, step)
            (omega (
              arith,
              h,
              length-pull k s.running n ns e,
              running-answers (pop quotient o clock s.limiter.queue).0 _,
              Pops_admits quotient o clock 0 s.limiter.queue.control _ _ _ _
                  (pop-Pops quotient o clock s.limiter.queue),
            ))
    ]

    module _ {Within : ℕ → F → Type 0} (laws : IsFloat64 f Within) where
      running-run :
          (es : List Event) (s : System)
          → IsCounted s
          → length s.running ≤ max_limit
          → length (run f quotient o es s).running ≤ max_limit
      unfolding run
      running-run [] s c h = h
      running-run (e ∷ es) s c h =
          running-run es (step f quotient o e s) (step-IsCounted laws quotient o e s c)
            (running-step e s c h)

      -- After any requests, at most 2048 of them run: those that were admitted, from the queue or at
      -- once, and have not called their functions. float64 behaves as documented.
      pub running_bounded :
          (es : List Event) → length (run f quotient o es new_system).running ≤ max_limit
      running_bounded es = running-run es new_system new_system-IsCounted (omega arith)
