-- ===== src/Rate/Vegas.antt =====
-- grate/vegas.go. Times are in nanoseconds, not negative and within int64, and the clock does not go
-- back. The value of `rand.Int63n` is an argument. The calls are one after another.
pub mod Bounds
pub mod Flight
use gokits.Prelude.{ℕ, ◌+◌, ◌-◌, ◌*◌, Bool, true, false, ltb, leb, ◌==◌, ◌&&◌, ◌||◌, if◌then◌else◌}
use gokits.Rate.Floats.{Floats}
use gokits.Rate.Sample.{Sample, no_sample, add, rtt}

pub data Operation : Type 0 where
  success ignore drop : Operation

abbrev pub min_window_time : ℕ
min_window_time = 500000000

abbrev pub max_window_time : ℕ
max_window_time = 2000000000

abbrev pub min_limit : ℕ
min_limit = 8

abbrev pub max_limit : ℕ
max_limit = 2048

-- `Vegas`; `probes` is only compared with 0, so it stops there.
pub record Vegas : Type 0 where
  pub limit : ℕ
  pub in_flight : ℕ
  pub update_time : ℕ
  pub min_rtt : ℕ
  pub sample : Sample
  pub probes : ℕ

pub new_vegas : Vegas
new_vegas = record {
  limit = min_limit;
  in_flight = 0;
  update_time = 0;
  min_rtt = 0;
  sample = no_sample;
  probes = 100;
}

-- `Acquire`: whether it succeeds, and the number that its `done` keeps.
unfoldable pub acquire : Vegas → ℕ × Bool × Vegas
acquire v =
    let in_flight = v.in_flight + 1 in
    (in_flight, leb in_flight v.limit, record v { in_flight = in_flight })

-- `addToSample`
pub add_to_sample : Sample → ℕ → ℕ → Operation → Sample
add_to_sample s t in_flight success = add s t in_flight false
add_to_sample s t in_flight drop = add s t in_flight true
add_to_sample s t in_flight ignore = s

-- `newUpdateTime`
pub new_update_time : ℕ → ℕ → Vegas → Vegas
new_update_time last_rtt end v =
    let window =
      if ltb (last_rtt * 5) min_window_time
      then min_window_time
      else if ltb max_window_time (last_rtt * 5)
      then max_window_time
      else last_rtt * 5 in
    record v { update_time = end + window }

-- `newMinRTT`; `r` is the random number.
pub new_min_rtt : Sample → ℕ → ℕ → ℕ → Vegas → Vegas
new_min_rtt s last_rtt limit r v =
    let v1 = record v { probes = v.probes - 1 } in
    let v2 =
      if leb v1.probes 0 && (ltb (s.max_in_flight * 2) v1.limit || leb s.max_in_flight min_limit)
      then record v1 { probes = 3 * limit + r; min_rtt = last_rtt }
      else v1 in
    if (v2.min_rtt == 0) || ltb last_rtt v2.min_rtt then record v2 { min_rtt = last_rtt } else v2

module _ {F : Type 0} (f : Floats F) where
  -- `storeLimit`
  pub store_limit : F → Vegas → Vegas
  store_limit x v = record v {
    limit = f.to_int (f.max (f.of_int min_limit) (f.min (f.of_int max_limit) x));
  }

  abbrev threshold_of : ℕ → F
  threshold_of limit = f.div (f.sqrt (f.of_int limit)) (f.of_int 2)

  -- `newLimit`
  pub new_limit : Sample → ℕ → ℕ → Vegas → Vegas
  new_limit s last_rtt limit v =
      let l = f.of_int limit in
      let queue = f.mul l (f.sub (f.of_int 1) (f.div (f.of_int v.min_rtt) (f.of_int last_rtt))) in
      let threshold = threshold_of limit in
      if s.drop
      then store_limit (f.sub l threshold) v
      else if ltb (s.max_in_flight * 2) v.limit
      then v
      else if f.lt queue threshold
      then store_limit (f.add l (f.mul (f.of_int 6) threshold)) v
      else if f.lt queue (f.mul (f.of_int 2) threshold)
      then store_limit (f.add l (f.mul (f.of_int 3) threshold)) v
      else if f.lt queue (f.mul (f.of_int 3) threshold)
      then store_limit (f.add l threshold) v
      else if f.lt (f.mul (f.of_int 6) threshold) queue
      then store_limit (f.sub l threshold) v
      else v

  -- The part of `done` under the lock.
  pub end_window : Sample → ℕ → ℕ → Vegas → Vegas
  end_window s end r v =
      let v1 = record v { sample = no_sample } in
      let last_rtt = rtt s in
      if leb last_rtt 0
      then v1
      else let limit = v1.limit in
        let v2 = new_update_time last_rtt end v1 in
        let v3 = new_min_rtt s last_rtt limit r v2 in new_limit s last_rtt limit v3

  -- What `done` does for an operation that is not ignored.
  pub measure : ℕ → ℕ → ℕ → Operation → ℕ → Vegas → Vegas
  measure in_flight start end op r v =
      let s = add_to_sample v.sample (end - start) in_flight op in
      let v1 = record v { sample = s } in
      if ltb v1.update_time end && leb 16 s.count then end_window s end r v1 else v1

  -- The function `done` that `Acquire` returns.
  pub done : ℕ → ℕ → ℕ → Operation → ℕ → Vegas → Vegas
  done in_flight start end ignore r v = record v { in_flight = v.in_flight - 1 }
  done in_flight start end success r v =
      measure in_flight start end success r (record v { in_flight = v.in_flight - 1 })
  done in_flight start end drop r v =
      measure in_flight start end drop r (record v { in_flight = v.in_flight - 1 })
