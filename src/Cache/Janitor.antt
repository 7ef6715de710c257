-- ===== src/Cache/Janitor.antt =====
-- gcache/cache.go: the janitor. The ticker's clock and the channel `stop` are a sequence of events.
use gokits.Prelude.{◌≡◌, refl, ℕ, Bool, true, false, List, [], ◌∷◌, ◌++◌, if◌then◌else◌}
use gokits.Prelude.Eq.{Eq}
use gokits.Cache.{Cache, delete_expired}

-- `elapsed now` is the end of an interval at the time `now`, `stop` a value received from `stop`.
pub data Event : Type 0 where
  elapsed : ℕ → Event
  stop : Event

-- `time.Ticker`
pub record Ticker : Type 0 where
  pub active : Bool

pub new_ticker : Ticker
new_ticker = record { active = true }

abbrev stop_ticker : Ticker → Ticker
stop_ticker t = record t { active = false }

module _ {ℓ κ} {K : Type ℓ} {V : Type κ} ⦃e : Eq K⦄ where
  -- The loop of `run`: its `break` leaves the select and not the loop, so no event ends it.
  run_loop : Ticker → List Event → Cache K V → List (K × V) × Cache K V
  run_loop t [] c = ([], c)
  run_loop t (elapsed now ∷ es) c =
      let (calls, c') = if t.active then delete_expired now c else ([], c) in
      let (calls', c'') = run_loop t es c' in (calls ++ calls', c'')
  run_loop t (stop ∷ es) c = run_loop t es c

  -- `janitor.run`
  pub run : List Event → Cache K V → List (K × V) × Cache K V
  unfolding new_ticker
  run es c = let ticker = stop_ticker new_ticker in run_loop ticker es c

  loop_idle :
      (t : Ticker) (es : List Event) (c : Cache K V) → t.active ≡ false → run_loop t es c ≡ ([], c)
  unfolding run_loop
  loop_idle t [] c f = refl
  loop_idle t (elapsed now ∷ es) c f = rw (f, loop_idle t es c f) refl
  loop_idle t (stop ∷ es) c f = loop_idle t es c f

  -- Whatever intervals end while the janitor runs, it removes nothing from the cache and calls no
  -- callback: its ticker is stopped before its loop begins.
  pub run_idle : (es : List Event) (c : Cache K V) → run es c ≡ ([], c)
  unfolding run
  run_idle es c = loop_idle (stop_ticker new_ticker) es c refl
