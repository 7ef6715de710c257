-- ===== src/Rate/Vegas/Flight.antt =====
-- grate/vegas.go over any sequence of requests that begin and end.
use gokits.Prelude.{
  ℕ, zero, suc, ◌+◌, ◌-◌, ◌≡◌, refl, ◌∙◌, Bool, true, false, Option, none, some, List, [], ◌∷◌,
  length, ltb, leb, Option-cases, inl, inr, arith, if◌then◌else◌,
}
use gokits.Rate.Floats.{Floats, IsFloat64}
use gokits.Rate.Sample.{Sample, rtt}
use gokits.Rate.Vegas.{
  Vegas, Operation, success, ignore, drop, new_vegas, acquire, new_update_time, new_min_rtt,
  store_limit, new_limit, end_window, measure, done,
}
use gokits.Rate.Vegas.Bounds.{IsLimited, done-IsLimited}

in_flight-new_update_time :
    (last end : ℕ) (v : Vegas) → (new_update_time last end v).in_flight ≡ v.in_flight
unfolding new_update_time
in_flight-new_update_time last end v = refl

in_flight-new_min_rtt :
    (s : Sample) (last limit r : ℕ) (v : Vegas)
    → (new_min_rtt s last limit r v).in_flight ≡ v.in_flight
unfolding new_min_rtt
in_flight-new_min_rtt s last limit r v = ground arith

either_in_flight :
    (b : Bool) (v w : Vegas) (n : ℕ)
    → v.in_flight ≡ n
    → w.in_flight ≡ n
    → (if b then v else w).in_flight ≡ n
either_in_flight true v w n p q = p
either_in_flight false v w n p q = q

-- A request begins, or the one that stands at the index among those in flight ends: with the times
-- of its start and its end, and the random number that is drawn.
pub data Event : Type 0 where
  begins : Event
  ends : ℕ → (start end : ℕ) → Operation → (r : ℕ) → Event

-- The number that the request at the index was given, and those of the others.
pub pull : ℕ → List ℕ → Option (ℕ × List ℕ)
pull k [] = none
pull zero (n ∷ ns) = some (n, ns)
pull (suc k) (n ∷ ns) = elim (pull k ns) [ none ↦ none | some (m, ms) ↦ some (m, n ∷ ms) ]

pub length-pull :
    (k : ℕ) (ns : List ℕ) (n : ℕ) (ms : List ℕ)
    → pull k ns ≡ some (n, ms)
    → length ns ≡ length ms + 1
unfolding pull
length-pull k [] n ms h = ground (arith, h)
length-pull zero (m ∷ ns) n ms h = ground (arith, h)
length-pull (suc k) (m ∷ ns) n ms h = elim (Option-cases (pull k ns)) [
  | inl e ↦ ground (arith, h, e)
  | inr ((i, js), e) ↦ ground (arith, h, e, length-pull k ns i js e)
]

pub new_vegas-IsLimited : IsLimited new_vegas
unfolding new_vegas
new_vegas-IsLimited = (omega arith, omega arith)

pub start_empty : new_vegas.in_flight ≡ length {A = ℕ} []
unfolding new_vegas
start_empty = refl

module _ {F : Type 0} (f : Floats F) where
  -- The state with the numbers of the requests in flight.
  unfoldable pub run : List Event → Vegas → List ℕ → Vegas × List ℕ
  run [] v ns = (v, ns)
  run (begins ∷ es) v ns = let (n, ok, v') = acquire v in run es v' (n ∷ ns)
  run (ends k start end op r ∷ es) v ns =
      let rest = λ (n : ℕ) (ms : List ℕ). run es (done f n start end op r v) ms in
      let skipped = run es v ns in elim (pull k ns) [ none ↦ skipped | some (n, ms) ↦ rest n ms ]

  in_flight-new_limit :
      (s : Sample) (last l : ℕ) (v : Vegas) → (new_limit f s last l v).in_flight ≡ v.in_flight
  unfolding new_limit store_limit
  in_flight-new_limit s last l v = ground arith

  in_flight-end_window :
      (s : Sample) (end r : ℕ) (v : Vegas) → (end_window f s end r v).in_flight ≡ v.in_flight
  unfolding end_window
  in_flight-end_window s end r v = either_in_flight (leb (rtt s) 0) _ _ v.in_flight refl (
      in_flight-new_limit s (rtt s) v.limit _
      ∙ in_flight-new_min_rtt s (rtt s) v.limit r _
      ∙ in_flight-new_update_time (rtt s) end _)

  in_flight-measure :
      (n start end : ℕ) (op : Operation) (r : ℕ) (v : Vegas)
      → (measure f n start end op r v).in_flight ≡ v.in_flight
  unfolding measure
  in_flight-measure n start end op r v =
      either_in_flight _ _ _ v.in_flight (in_flight-end_window _ end r _) refl

  pub in_flight-done :
      (n start end : ℕ) (op : Operation) (r : ℕ) (v : Vegas)
      → (done f n start end op r v).in_flight ≡ v.in_flight - 1
  unfolding done
  in_flight-done n start end ignore r v = refl
  in_flight-done n start end success r v = in_flight-measure n start end success r _
  in_flight-done n start end drop r v = in_flight-measure n start end drop r _

  module _ {Within : ℕ → F → Type 0} (laws : IsFloat64 f Within) where
    -- The state that any requests lead to from one that counts its requests and is within its
    -- bounds.
    run-IsLimited :
        (es : List Event) (v : Vegas) (ns : List ℕ)
        → IsLimited v
        → v.in_flight ≡ length ns
        → let (w, ms) = run es v ns in IsLimited w × (w.in_flight ≡ length ms)
    unfolding run acquire
    run-IsLimited [] v ns b h = (b, h)
    run-IsLimited (begins ∷ es) v ns b h =
        run-IsLimited es (record v { in_flight = v.in_flight + 1 }) ((v.in_flight + 1) ∷ ns) b
          (omega (arith, h))
    run-IsLimited (ends k start end op r ∷ es) v ns b h = elim (Option-cases (pull k ns)) [
      | inl e ↦ rw (e, run) (run-IsLimited es v ns b h)
      | inr ((n, ms), e) ↦
          rw (e, run)
            (run-IsLimited es (done f n start end op r v) ms
              (done-IsLimited laws n start end op r v b)
              (omega (arith, h, in_flight-done n start end op r v, length-pull k ns n ms e)))
    ]

    -- After any requests that begin and end, the limit is within 8 and 2048, the count of requests in
    -- flight is the number of those that have begun and not ended, and the next request is accepted
    -- exactly where they are fewer than the limit. float64 behaves as documented.
    pub acquire_exact :
        (es : List Event)
        → let (v, ns) = run es new_vegas [] in
          IsLimited v × (v.in_flight ≡ length ns) × ((acquire v).1 ≡ ltb (length ns) v.limit)
    unfolding acquire
    acquire_exact es =
        let (b, h) = run-IsLimited es new_vegas [] new_vegas-IsLimited start_empty in
        (b, h, ground (arith, h))
