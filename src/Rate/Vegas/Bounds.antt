-- ===== src/Rate/Vegas/Bounds.antt =====
-- grate/vegas.go: the bounds on the limit, the window and the least round trip.
use gokits.Prelude.{
  ℕ, ◌+◌, ◌*◌, ◌≤◌, ◌<◌, ◌≡◌, refl, ◌∙◌, Bool, true, false, ltb, leb, arith, if◌then◌else◌,
}
use gokits.Rate.Floats.{Floats, IsFloat64}
use gokits.Rate.Sample.{Sample, no_sample, rtt}
use gokits.Rate.Vegas.{
  Vegas, Operation, success, ignore, drop, min_limit, max_limit, min_window_time, max_window_time,
  new_update_time, new_min_rtt, store_limit, threshold_of, new_limit, end_window, measure, done,
}

-- The limit is within its bounds.
abbrev pub IsLimited : Vegas → Type 0
IsLimited v = (min_limit ≤ v.limit) × (v.limit ≤ max_limit)

limit-new_min_rtt :
    (s : Sample) (last limit r : ℕ) (v : Vegas) → (new_min_rtt s last limit r v).limit ≡ v.limit
unfolding new_min_rtt
limit-new_min_rtt s last limit r v = ground arith

update_time-new_min_rtt :
    (s : Sample) (last limit r : ℕ) (v : Vegas)
    → (new_min_rtt s last limit r v).update_time ≡ v.update_time
unfolding new_min_rtt
update_time-new_min_rtt s last limit r v = ground arith

sample-new_min_rtt :
    (s : Sample) (last limit r : ℕ) (v : Vegas) → (new_min_rtt s last limit r v).sample ≡ v.sample
unfolding new_min_rtt
sample-new_min_rtt s last limit r v = ground arith

-- The least round trip is positive and not above the last one.
new_min_rtt_bounds :
    (s : Sample) (last limit r : ℕ) (v : Vegas)
    → 0 < last
    → (0 < (new_min_rtt s last limit r v).min_rtt) × ((new_min_rtt s last limit r v).min_rtt ≤ last)
unfolding new_min_rtt
new_min_rtt_bounds s last limit r v h = ground arith

new_update_time_bounds :
    (last end : ℕ) (v : Vegas)
    → (end + min_window_time ≤ (new_update_time last end v).update_time)
      × ((new_update_time last end v).update_time ≤ end + max_window_time)
unfolding new_update_time
new_update_time_bounds last end v = ground arith

small_product : (k l : ℕ) → k ≤ 6 → l ≤ 2048 → k * l ≤ 6 * 2048
small_product k l h h' = grind arith

either-IsLimited :
    (b : Bool) (v w : Vegas) → IsLimited v → IsLimited w → IsLimited (if b then v else w)
either-IsLimited true v w p q = p
either-IsLimited false v w p q = q

refreshed :
    (last end : ℕ) (v : Vegas)
    → (new_update_time last end (record v { sample = no_sample })).sample ≡ no_sample
unfolding new_update_time
refreshed last end v = refl

module _ {F : Type 0} {f : Floats F} {Within : ℕ → F → Type 0} (laws : IsFloat64 f Within) where
  store_limit-IsLimited : (m : ℕ) (x : F) (v : Vegas) → Within m x → IsLimited (store_limit f x v)
  unfolding store_limit
  store_limit-IsLimited m x v w = laws.clamped 8 2048 m x (omega arith) (omega arith) w

  threshold_within : (l : ℕ) → l ≤ 2048 → Within l (threshold_of f l)
  threshold_within l h =
      laws.halved_within l (f.sqrt (f.of_int l)) (omega arith) (laws.sqrt_within l (omega arith))

  -- The limit moved up or down by a multiple of its threshold.
  raised-IsLimited :
      (k l : ℕ) (v : Vegas)
      → k ≤ 6
      → l ≤ 2048
      → IsLimited (store_limit f (f.add (f.of_int l) (f.mul (f.of_int k) (threshold_of f l))) v)
  raised-IsLimited k l v few h =
      let t =
        laws.mul_within k l (f.of_int k) (threshold_of f l) (omega (arith, small_product k l few h))
          (laws.of_int_within k (omega arith)) (threshold_within l h) in
      store_limit-IsLimited (l + k * l) _ v (
        laws.add_within l (k * l) (f.of_int l) _ (omega (arith, small_product k l few h))
          (laws.of_int_within l (omega arith)) t)

  raised_once-IsLimited :
      (l : ℕ) (v : Vegas)
      → l ≤ 2048
      → IsLimited (store_limit f (f.add (f.of_int l) (threshold_of f l)) v)
  raised_once-IsLimited l v h = store_limit-IsLimited (l + l) _ v (
      laws.add_within l l (f.of_int l) _ (omega arith) (laws.of_int_within l (omega arith))
        (threshold_within l h))

  lowered-IsLimited :
      (l : ℕ) (v : Vegas)
      → l ≤ 2048
      → IsLimited (store_limit f (f.sub (f.of_int l) (threshold_of f l)) v)
  lowered-IsLimited l v h = store_limit-IsLimited (l + l) _ v (
      laws.sub_within l l (f.of_int l) _ (omega arith) (laws.of_int_within l (omega arith))
        (threshold_within l h))

  new_limit-IsLimited :
      (s : Sample) (last l : ℕ) (v : Vegas)
      → l ≤ 2048
      → IsLimited v
      → IsLimited (new_limit f s last l v)
  unfolding new_limit
  new_limit-IsLimited s last l v h b = either-IsLimited s.drop _ _ (lowered-IsLimited l v h) (
      either-IsLimited (ltb (s.max_in_flight * 2) v.limit) _ _ b (
        either-IsLimited _ _ _ (raised-IsLimited 6 l v (omega arith) h) (
          either-IsLimited _ _ _ (raised-IsLimited 3 l v (omega arith) h) (
            either-IsLimited _ _ _ (raised_once-IsLimited l v h)
              (either-IsLimited _ _ _ (lowered-IsLimited l v h) b)))))

  end_window-IsLimited :
      (s : Sample) (end r : ℕ) (v : Vegas) → IsLimited v → IsLimited (end_window f s end r v)
  unfolding end_window new_update_time
  end_window-IsLimited s end r v b =
      either-IsLimited (leb (rtt s) 0) _ _ b
        (new_limit-IsLimited s (rtt s) v.limit _ b.1 (rw (limit-new_min_rtt s (rtt s) v.limit r) b))

  measure-IsLimited :
      (n start end : ℕ) (op : Operation) (r : ℕ) (v : Vegas)
      → IsLimited v
      → IsLimited (measure f n start end op r v)
  unfolding measure
  measure-IsLimited n start end op r v b =
      either-IsLimited _ _ _ (end_window-IsLimited _ end r _ b) b

  pub done-IsLimited :
      (n start end : ℕ) (op : Operation) (r : ℕ) (v : Vegas)
      → IsLimited v
      → IsLimited (done f n start end op r v)
  unfolding done
  done-IsLimited n start end ignore r v b = b
  done-IsLimited n start end success r v b = measure-IsLimited n start end success r _ b
  done-IsLimited n start end drop r v b = measure-IsLimited n start end drop r _ b

  -- `newLimit` sets the limit and nothing else.
  new_limit_only :
      (s : Sample) (last l : ℕ) (v : Vegas)
      → let w = new_limit f s last l v in
        (w.update_time ≡ v.update_time) × (w.min_rtt ≡ v.min_rtt) × (w.sample ≡ v.sample)
  unfolding new_limit store_limit
  new_limit_only s last l v = ground arith

  closing :
      (s : Sample) (end r : ℕ) (v : Vegas)
      → 0 < rtt s
      → let v1 = record v { sample = no_sample } in
        end_window f s end r v
        ≡ new_limit f s
            (rtt s)
            v.limit
            (new_min_rtt s (rtt s) v.limit r (new_update_time (rtt s) end v1))
  unfolding end_window
  closing s end r v h = ground arith

  -- Where a window ends with a positive mean round trip, the next one lasts from 500 ms to 2000 ms,
  -- the least round trip is positive and not above the mean, the limit is within 8 and 2048, and the
  -- sample is empty. The limit was within its bounds, and float64 behaves as documented.
  pub window_closed :
      (s : Sample) (end r : ℕ) (v : Vegas)
      → IsLimited v
      → 0 < rtt s
      → let w = end_window f s end r v in
        (end + min_window_time ≤ w.update_time)
        × (w.update_time ≤ end + max_window_time)
        × (0 < w.min_rtt)
        × (w.min_rtt ≤ rtt s)
        × IsLimited w
        × (w.sample ≡ no_sample)
  window_closed s end r v b h =
      let v2 = new_update_time (rtt s) end (record v { sample = no_sample }) in
      let v3 = new_min_rtt s (rtt s) v.limit r v2 in
      let (time, least, kept) = new_limit_only s (rtt s) v.limit v3 in
      let (early, late) = new_update_time_bounds (rtt s) end (record v { sample = no_sample }) in
      let (pos, below) = new_min_rtt_bounds s (rtt s) v.limit r v2 h in
      let same = update_time-new_min_rtt s (rtt s) v.limit r v2 in
      rw (closing s end r v h) (
        omega (arith, time, same, early),
        omega (arith, time, same, late),
        omega (arith, least, pos),
        omega (arith, least, below),
        rw (← closing s end r v h) (end_window-IsLimited s end r v b),
        kept ∙ sample-new_min_rtt s (rtt s) v.limit r v2 ∙ refreshed (rtt s) end v,
      )
