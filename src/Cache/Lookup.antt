-- ===== src/Cache/Lookup.antt =====
-- gcache/cache.go: what a lookup finds after each operation.
use mathlib.Core.Option.{map, get_or}
use gokits.Prelude.{
  ◌≡◌, refl, inl, inr, ap, ℕ, ◌+◌, Bool, true, false, Option, none, some, arith, ltb, if◌then◌else◌,
  Option-cases, ◌&&◌,
}
use gokits.Prelude.Eq.{Eq, ◌==◌}
use gokits.Prelude.Dict.{lookup-erase, lookup-insert}
use gokits.Cache.{
  Item, Cache, Error, already_exists, does_not_exist, expiration_of, is_expired, fresh, set, get,
  add, replace, delete_item, delete, update_expiration,
}

abbrev pub found {ℓ} : {V : Type ℓ} → Option V → Bool
found none = false
found (some v) = true

fresh_if {ℓ} :
    {V : Type ℓ} (now : ℕ) (b : Bool) (i o : Option (Item V))
    → fresh now (if b then i else o) ≡ (if b then fresh now i else fresh now o)
fresh_if now true i o = refl
fresh_if now false i o = refl

expired_now {ℓ} :
    {V : Type ℓ} (now d : ℕ) (x : V)
    → is_expired now (record { object = x; expiration = expiration_of now d }) ≡ false
expired_now now d x = ground arith

module _ {ℓ κ} {K : Type ℓ} {V : Type κ} ⦃e : Eq K⦄ where
  -- After `Set`, a lookup finds the value under its key until the clock has passed the time of the
  -- call by more than the duration, or for ever if the duration is 0; every other key is as before.
  pub get-set :
      (now now' : ℕ) (c : Cache K V) (k : K) (x : V) (d : ℕ) (j : K)
      → get now' (set now c k x d) j ≡ (
          if k == j then (if ltb 0 d && ltb (now + d) now' then none else some x) else get now' c j)
  unfolding get set
  get-set now now' c k x d j =
      ground
        (arith, lookup-insert k j (record { object = x; expiration = expiration_of now d }) c.items)

  set-get :
      (now : ℕ) (c : Cache K V) (k : K) (x : V) (d : ℕ) (j : K)
      → get now (set now c k x d) j ≡ (if k == j then some x else get now c j)
  set-get now c k x d j = ground (arith, get-set now now c k x d j)

  abbrev added : ℕ → Cache K V → K → V → ℕ → Option V → Option Error × Cache K V
  added now c k x d none = (none, set now c k x d)
  added now c k x d (some _) = (some already_exists, c)

  abbrev replaced : ℕ → Cache K V → K → V → ℕ → Option V → Option Error × Cache K V
  replaced now c k x d none = (some does_not_exist, c)
  replaced now c k x d (some _) = (none, set now c k x d)

  add_lem :
      (now : ℕ) (c : Cache K V) (k : K) (x : V) (d : ℕ)
      → add now c k x d ≡ added now c k x d (get now c k)
  unfolding add
  add_lem now c k x d = ground arith

  replace_lem :
      (now : ℕ) (c : Cache K V) (k : K) (x : V) (d : ℕ)
      → replace now c k x d ≡ replaced now c k x d (get now c k)
  unfolding replace
  replace_lem now c k x d = ground arith

  get_same : (now : ℕ) (c : Cache K V) (k j : K) → (k == j) ≡ true → get now c k ≡ get now c j
  get_same now c k j t = ap (get now c) ((e.same_iff k j).0 t)

  -- `Add` keeps a value that is there and has not expired, and is refused; otherwise it stores its own.
  pub get-add :
      (now : ℕ) (c : Cache K V) (k : K) (x : V) (d : ℕ) (j : K)
      → (get now (add now c k x d).1 j
          ≡ (if k == j then some (get_or (get now c k) x) else get now c j))
        × ((add now c k x d).0 ≡ (if found (get now c k) then some already_exists else none))
  get-add now c k x d j = rw (add_lem now c k x d) (elim (Option-cases (get now c k)) [
    | inl n ↦ rw n (set-get now c k x d j, refl)
    | inr (v, n) ↦ rw n (ground (arith, n, get_same now c k j), refl)
  ])

  -- `Replace` stores its value only under a key that is there and has not expired.
  pub get-replace :
      (now : ℕ) (c : Cache K V) (k : K) (x : V) (d : ℕ) (j : K)
      → (get now (replace now c k x d).1 j
          ≡ (if k == j then map (λ _. x) (get now c k) else get now c j))
        × ((replace now c k x d).0 ≡ (if found (get now c k) then none else some does_not_exist))
  get-replace now c k x d j = rw (replace_lem now c k x d) (elim (Option-cases (get now c k)) [
    | inl n ↦ rw n (ground (arith, n, get_same now c k j), refl)
    | inr (v, n) ↦ rw n (set-get now c k x d j, refl)
  ])

  -- After `Delete`, the key is gone and every other key is as before.
  pub get-delete :
      (now : ℕ) (c : Cache K V) (k j : K)
      → get now (delete c k).1 j ≡ (if k == j then none else get now c j)
  unfolding get delete delete_item
  get-delete now c k j = ground (arith, lookup-erase k j c.items)

  -- `UpdateExpiration` leaves the cache as it was: it assigns to a copy of the item.
  pub update_expiration_keeps : (c : Cache K V) (k : K) (t : ℕ) → (update_expiration c k t).1 ≡ c
  unfolding update_expiration
  update_expiration_keeps c k t = ground arith
