-- ===== src/Local/TimeMap/Flat.antt =====
-- gls/internal/time_map.go: what the map promises, without buckets.
use gokits.Prelude.{ℕ, ◌+◌, ◌==◌, Option, none, some, List, [], ◌∷◌, ltb, if◌then◌else◌}
use gokits.Local.TimeMap.{StoreValue, obj_of, Call, gets, deletes, puts, ticks}

-- The value under each key, with the time from which on it may go.
abbrev pub Flat {ℓ} : Type ℓ → Type ℓ
Flat V = ℕ → Option (StoreValue V)

module _ {ℓ} {V : Type ℓ} where
  abbrev pub no_value : Flat V
  no_value j = none

  abbrev pub changed : ℕ → Option (StoreValue V) → Flat V → Flat V
  changed key o m j = if key == j then o else m j

  -- What a tick leaves of a value.
  abbrev pub kept : ℕ → Option (StoreValue V) → Option (StoreValue V)
  kept now none = none
  kept now (some v) = if ltb v.expire_at now then none else some v

  -- A value that stands under the key stays.
  abbrev pub stored : Option (StoreValue V) → ℕ → V → ℕ → Flat V → V × Flat V
  stored (some v) key obj end m = (v.obj, m)
  stored none key obj end m = (obj, changed key (some (record { obj = obj; expire_at = end })) m)

  unfoldable pub flat_call : Flat V → Call V → Option V × Flat V
  flat_call m (gets key) = (obj_of (m key), m)
  flat_call m (deletes key) = (none, changed key none m)
  flat_call m (puts key obj now timeout) =
      let (v, m') = stored (m key) key obj (now + timeout) m in (some v, m')
  flat_call m (ticks now) = (none, λ j. kept now (m j))

  unfoldable pub flat_calls : Flat V → List (Call V) → List (Option V)
  flat_calls m [] = []
  flat_calls m (c ∷ cs) = let (v, m') = flat_call m c in v ∷ flat_calls m' cs
