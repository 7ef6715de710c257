-- ===== src/Local/TimeMap.antt =====
-- gls/internal/time_map.go: a map in 64 buckets whose entries end. A lock is held from the first
-- access of an operation to its last, so an operation is one step, and the sweep one for all buckets.
pub mod Flat
pub mod Refine
use gokits.Prelude.{ℕ, ◌+◌, ◌%◌, ◌==◌, Bool, Option, none, some, List, [], ◌∷◌, ltb, if◌then◌else◌}
use gokits.Prelude.Eq.{eq_of_nat}
use gokits.Prelude.Dict.{lookup, insert, erase}

abbrev pub bucket_const : ℕ
bucket_const = 64

-- `storeValue`
pub record StoreValue {ℓ} (V : Type ℓ) : Type ℓ where
  pub obj : V
  pub expire_at : ℕ

abbrev pub Bucket {ℓ} : Type ℓ → Type ℓ
Bucket V = List (ℕ × StoreValue V)

-- `timemap`: the bucket at each index below 64.
abbrev pub TimeMap {ℓ} : Type ℓ → Type ℓ
TimeMap V = ℕ → Bucket V

module _ {ℓ} {V : Type ℓ} where
  -- `NewTimeMap`
  pub new_time_map : TimeMap V
  new_time_map i = []

  pub get_bucket : TimeMap V → ℕ → Bucket V
  get_bucket tm key = tm (key % bucket_const)

  -- The map with another bucket for the key.
  pub with_bucket : TimeMap V → ℕ → Bucket V → TimeMap V
  with_bucket tm key b i = if i == key % bucket_const then b else tm i

  abbrev pub obj_of : Option (StoreValue V) → Option V
  obj_of none = none
  obj_of (some v) = some v.obj

  -- `Get`
  pub get : TimeMap V → ℕ → Option V
  get tm key = obj_of (lookup key (get_bucket tm key))

  -- `put` of a bucket, after the lookup.
  pub put_found : Option (StoreValue V) → Bucket V → ℕ → V → (now timeout : ℕ) → V × Bucket V
  put_found (some v) b key obj now timeout = (v.obj, b)
  put_found none b key obj now timeout =
      (obj, insert key (record { obj = obj; expire_at = now + timeout }) b)

  -- `Put`
  pub put : TimeMap V → ℕ → V → (now timeout : ℕ) → V × TimeMap V
  put tm key obj now timeout =
      let b = get_bucket tm key in
      let (v, b') = put_found (lookup key b) b key obj now timeout in (v, with_bucket tm key b')

  -- `Delete`
  pub delete : TimeMap V → ℕ → TimeMap V
  delete tm key = with_bucket tm key (erase key (get_bucket tm key))

  -- The loop of `goroutine` over a bucket.
  pub sweep_bucket : ℕ → Bucket V → Bucket V
  sweep_bucket now [] = []
  sweep_bucket now ((k, v) ∷ b) =
      let rest = sweep_bucket now b in if ltb v.expire_at now then rest else (k, v) ∷ rest

  -- One tick of `goroutine`.
  pub sweep : ℕ → TimeMap V → TimeMap V
  sweep now tm i = sweep_bucket now (tm i)

-- The calls of other packages, with the clock, and a tick of the goroutine.
pub data Call {ℓ} (V : Type ℓ) : Type ℓ where
  gets deletes : ℕ → Call V
  puts : ℕ → V → (now timeout : ℕ) → Call V
  ticks : ℕ → Call V

module _ {ℓ} {V : Type ℓ} where
  pub call : TimeMap V → Call V → Option V × TimeMap V
  call tm (gets key) = (get tm key, tm)
  call tm (deletes key) = (none, delete tm key)
  call tm (puts key obj now timeout) = let (v, tm') = put tm key obj now timeout in (some v, tm')
  call tm (ticks now) = (none, sweep now tm)

  -- The answers to calls, one after another.
  pub calls : TimeMap V → List (Call V) → List (Option V)
  calls tm [] = []
  calls tm (c ∷ cs) = let (v, tm') = call tm c in v ∷ calls tm' cs
