-- ===== src/Cache.antt =====
-- gcache/cache.go: a cache of items that may expire. Every method that reads the clock is given the
-- time, `now`, in nanoseconds; durations that are not positive count as 0, and the time and an expiration are within int64. The map is an association
-- list, the callback `onEvicted` is set or nil, and its calls are returned as a list.
pub mod Lookup
pub mod Expiry
pub mod Janitor
mod Tests
use mathlib.Core.Option.{map}
use gokits.Prelude.{
  ℕ, ◌+◌, Bool, true, false, Option, none, some, List, [], ◌∷◌, ◌++◌, length, ltb, ◌==◌, ◌&&◌,
  if◌then◌else◌,
}
use gokits.Prelude.Eq.{Eq}
use gokits.Prelude.Dict.{lookup, insert, erase}

-- `Item`: an expiration of 0 is none.
pub record Item {ℓ} (V : Type ℓ) : Type ℓ where
  pub object : V
  pub expiration : ℕ

-- `cache`
pub record Cache {ℓ κ} (K : Type ℓ) (V : Type κ) : Type (ℓ ⊔ κ) where
  pub items : List (K × Item V)
  pub on_evicted : Bool

-- The errors of `Add`, and of `Replace` and `UpdateExpiration`.
pub data Error : Type 0 where
  already_exists does_not_exist : Error

-- The expiration that `Set` and `set` compute.
abbrev pub expiration_of : ℕ → ℕ → ℕ
expiration_of now d = if ltb 0 d then now + d else 0

-- The inlined test of `get`.
abbrev pub is_expired {ℓ} : {V : Type ℓ} → ℕ → Item V → Bool
is_expired now i = ltb 0 i.expiration && ltb i.expiration now

-- `Item.Expired`
unfoldable pub expired {ℓ} : {V : Type ℓ} → ℕ → Item V → Bool
expired now i = if i.expiration == 0 then false else ltb i.expiration now

-- The item if it is there and has not expired.
abbrev fresh {ℓ} : {V : Type ℓ} → ℕ → Option (Item V) → Option V
fresh now none = none
fresh now (some i) = if is_expired now i then none else some i.object

module _ {ℓ κ} {K : Type ℓ} {V : Type κ} where
  -- `NewCache`
  pub new_cache : Cache K V
  new_cache = record { items = []; on_evicted = false }

  -- `OnEvicted`, with a function or nil.
  pub set_on_evicted : Cache K V → Bool → Cache K V
  set_on_evicted c f = record c { on_evicted = f }

  pub item_count : Cache K V → ℕ
  item_count c = length c.items

  pub clear : Cache K V → Cache K V
  clear c = record c { items = [] }

-- The calls of the callback for one deletion.
abbrev calls_of {ℓ κ} : {K : Type ℓ} → {V : Type κ} → K → Option V → List (K × V)
calls_of k none = []
calls_of k (some v) = (k, v) ∷ []

module _ {ℓ κ} {K : Type ℓ} {V : Type κ} ⦃e : Eq K⦄ where
  -- `Set`, and `set`, which has the same body without the lock.
  pub set : ℕ → Cache K V → K → V → ℕ → Cache K V
  set now c k x d = record c {
    items = insert k (record { object = x; expiration = expiration_of now d }) c.items;
  }

  -- `Get` and `get`
  pub get : ℕ → Cache K V → K → Option V
  get now c k = fresh now (lookup k c.items)

  pub add : ℕ → Cache K V → K → V → ℕ → Option Error × Cache K V
  add now c k x d = elim (get now c k) [
    | some _ ↦ (some already_exists, c)
    | none ↦ (none, set now c k x d)
  ]

  pub replace : ℕ → Cache K V → K → V → ℕ → Option Error × Cache K V
  replace now c k x d = elim (get now c k) [
    | some _ ↦ (none, set now c k x d)
    | none ↦ (some does_not_exist, c)
  ]

  -- `delete`: the value to hand to the callback, if there is one and the key was there.
  pub delete_item : Cache K V → K → Option V × Cache K V
  delete_item c k =
      let c' = record c { items = erase k c.items } in
      if c.on_evicted then (map (λ i. i.object) (lookup k c.items), c') else (none, c')

  -- `Delete`, with the calls of the callback.
  pub delete : Cache K V → K → List (K × V) × Cache K V
  unfolding delete_item
  delete c k = let (v, c') = delete_item c k in (calls_of k v, c')

  -- The loop of `DeleteExpired` over the entries that the map had.
  pub delete_among : ℕ → List (K × Item V) → Cache K V → List (K × V) × Cache K V
  delete_among now [] c = ([], c)
  delete_among now ((k, i) ∷ m) c =
      let (v, c') = if is_expired now i then delete_item c k else (none, c) in
      let (calls, c'') = delete_among now m c' in (calls_of k v ++ calls, c'')

  pub delete_expired : ℕ → Cache K V → List (K × V) × Cache K V
  delete_expired now c = delete_among now c.items c

  -- `UpdateExpiration`: the new expiration is assigned to a copy of the item.
  pub update_expiration : Cache K V → K → ℕ → Option Error × Cache K V
  update_expiration c k t = elim (lookup k c.items) [
    | none ↦ (some does_not_exist, c)
    | some i ↦ let i' = record i { expiration = t } in (none, c)
  ]
