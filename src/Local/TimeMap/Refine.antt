-- ===== src/Local/TimeMap/Refine.antt =====
-- gls/internal/time_map.go: the buckets behave as one map.
use gokits.Prelude.{
  ℕ, ◌+◌, ◌%◌, ◌==◌, ==_iff, ◌≡◌, refl, ap, ap₂, ◌∙◌, Bool-cases, inl, inr, Option, none, some,
  List, [], ◌∷◌, ltb, arith, if◌then◌else◌,
}
use gokits.Prelude.Eq.{eq_of_nat}
use gokits.Prelude.Dict.{
  lookup, insert, erase, lookup-insert, lookup-erase, IsDistinct, insert-IsDistinct,
  erase-IsDistinct,
}
use gokits.Local.TimeMap.{
  bucket_const, StoreValue, Bucket, TimeMap, new_time_map, get_bucket, with_bucket, obj_of, get,
  put_found, put, delete, sweep_bucket, sweep, Call, gets, deletes, puts, ticks, call, calls,
}
use gokits.Local.TimeMap.Flat.{Flat, no_value, changed, kept, stored, flat_call, flat_calls}

module _ {ℓ} {V : Type ℓ} where
  -- The entry that stands under the key.
  pub entry : TimeMap V → ℕ → Option (StoreValue V)
  entry tm key = lookup key (get_bucket tm key)

  entry-with_bucket :
      (tm : TimeMap V) (key : ℕ) (b : Bucket V) (o : Option (StoreValue V))
      → ((j : ℕ) → lookup j b ≡ (if key == j then o else lookup j (get_bucket tm key)))
      → (j : ℕ) → entry (with_bucket tm key b) j ≡ (if key == j then o else entry tm j)
  unfolding entry get_bucket with_bucket
  entry-with_bucket tm key b o h j = elim (Bool-cases (j % bucket_const == key % bucket_const)) [
    | inl t ↦ rw (t, (==_iff (j % 64) (key % 64)).0 t) (h j)
    | inr f ↦ rw f (elim (Bool-cases (key == j)) [
      | inl t ↦ ground (arith, t, f, (==_iff key j).0 t)
      | inr g ↦ rw g refl
    ])
  ]

  lookup-sweep_bucket :
      (now : ℕ) (b : Bucket V)
      → IsDistinct b
      → (j : ℕ) → lookup j (sweep_bucket now b) ≡ kept now (lookup j b)
  unfolding sweep_bucket lookup IsDistinct
  lookup-sweep_bucket now [] d j = refl
  lookup-sweep_bucket now ((k, v) ∷ b) (a, d) j =
      ground (arith, a, lookup-sweep_bucket now b d j, ==_iff k j)

  sweep_bucket-IsDistinct :
      (now : ℕ) (b : Bucket V) → IsDistinct b → IsDistinct (sweep_bucket now b)
  unfolding sweep_bucket IsDistinct
  sweep_bucket-IsDistinct now [] d = d
  sweep_bucket-IsDistinct now ((k, v) ∷ b) (a, d) = elim (Bool-cases (ltb v.expire_at now)) [
    | inl t ↦ rw t (sweep_bucket-IsDistinct now b d)
    | inr f ↦ rw f (rw (lookup-sweep_bucket now b d k, a) refl, sweep_bucket-IsDistinct now b d)
  ]

  get-with_bucket :
      (tm : TimeMap V) (key : ℕ) (b : Bucket V) (o : Option (StoreValue V))
      → ((j : ℕ) → lookup j b ≡ (if key == j then o else lookup j (get_bucket tm key)))
      → (j : ℕ) → get (with_bucket tm key b) j ≡ (if key == j then obj_of o else get tm j)
  unfolding get entry
  get-with_bucket tm key b o h j = ground (arith, entry-with_bucket tm key b o h j)

  -- What the caller of `Put` gets.
  abbrev pub standing : V → Option V → V
  standing obj none = obj
  standing obj (some v) = v

  found_lem :
      (b : Bucket V) (key j : ℕ) (v : StoreValue V)
      → lookup key b ≡ some v
      → lookup j b ≡ (if key == j then some v else lookup j b)
  found_lem b key j v h = elim (Bool-cases (key == j)) [
    | inl t ↦ rw (t, ← ((==_iff key j).0 t)) h
    | inr f ↦ rw f refl
  ]

  get-put_found :
      (o : Option (StoreValue V)) (tm : TimeMap V) (key : ℕ) (obj : V) (now timeout j : ℕ)
      → lookup key (get_bucket tm key) ≡ o
      → let (v, b) = put_found o (get_bucket tm key) key obj now timeout in
        (v ≡ standing obj (obj_of o))
        × (get (with_bucket tm key b) j ≡ (if key == j then some v else get tm j))
  unfolding put_found
  get-put_found (some v) tm key obj now timeout j h =
      let b = get_bucket tm key in
      (refl, get-with_bucket tm key b (some v) (λ i. found_lem b key i v h) j)
  get-put_found none tm key obj now timeout j h =
      let v : StoreValue V = record { obj = obj; expire_at = now + timeout } in
      let b = get_bucket tm key in
      (refl, get-with_bucket tm key (insert key v b) (some v) (λ j. lookup-insert key j v b) j)

  -- `Put` hands out the value that stands under the key, or its own, which is found there from then
  -- on.
  pub get-put :
      (tm : TimeMap V) (key : ℕ) (obj : V) (now timeout j : ℕ)
      → let (v, tm') = put tm key obj now timeout in
        (v ≡ standing obj (get tm key)) × (get tm' j ≡ (if key == j then some v else get tm j))
  unfolding put get
  get-put tm key obj now timeout j =
      get-put_found (lookup key (get_bucket tm key)) tm key obj now timeout j refl

  pub get-delete :
      (tm : TimeMap V) (key j : ℕ) → get (delete tm key) j ≡ (if key == j then none else get tm j)
  unfolding delete
  get-delete tm key j =
      let b = get_bucket tm key in
      get-with_bucket tm key (erase key b) none (λ j. lookup-erase key j b) j

  -- The buckets have no key twice and hold what the map has.
  Agrees : TimeMap V → Flat V → Type ℓ
  Agrees tm m = ((i : ℕ) → IsDistinct (tm i)) × ((j : ℕ) → entry tm j ≡ m j)

  changed-Agrees :
      (tm : TimeMap V) (m : Flat V) (key : ℕ) (b : Bucket V) (o : Option (StoreValue V))
      → Agrees tm m
      → IsDistinct b
      → ((j : ℕ) → lookup j b ≡ (if key == j then o else lookup j (get_bucket tm key)))
      → Agrees (with_bucket tm key b) (changed key o m)
  unfolding with_bucket Agrees
  changed-Agrees tm m key b o (d, h) d' h' = (
    λ i. elim (Bool-cases (i == key % bucket_const)) [ inl t ↦ rw t d' | inr f ↦ rw f (d i) ],
    λ j. entry-with_bucket tm key b o h' j ∙ ap (λ x. if key == j then o else x) (h j),
  )

  -- Where the bucket stays, so does the map.
  same-Agrees :
      (tm : TimeMap V) (m : Flat V) (key : ℕ)
      → Agrees tm m
      → Agrees (with_bucket tm key (get_bucket tm key)) m
  unfolding with_bucket get_bucket Agrees entry
  same-Agrees tm m key (d, h) = (
    λ i. elim (Bool-cases (i == key % bucket_const)) [
      | inl t ↦ rw t (d (key % bucket_const))
      | inr f ↦ rw f (d i)
    ],
    λ j. elim (Bool-cases (j % bucket_const == key % bucket_const)) [
      | inl t ↦ rw (t, ← ((==_iff (j % 64) (key % 64)).0 t)) (h j)
      | inr f ↦ rw f (h j)
    ],
  )

  get_bucket-IsDistinct :
      (tm : TimeMap V) (m : Flat V) (key : ℕ) → Agrees tm m → IsDistinct (get_bucket tm key)
  unfolding Agrees get_bucket
  get_bucket-IsDistinct tm m key a = a.0 (key % bucket_const)

  put_found-Agrees :
      (o : Option (StoreValue V)) (tm : TimeMap V) (m : Flat V) (key : ℕ) (obj : V)
      (now timeout : ℕ)
      → Agrees tm m
      → let (v, b) = put_found o (get_bucket tm key) key obj now timeout in
        let (w, m') = stored o key obj (now + timeout) m in
        (v ≡ w) × Agrees (with_bucket tm key b) m'
  unfolding put_found
  put_found-Agrees (some v) tm m key obj now timeout a = (refl, same-Agrees tm m key a)
  put_found-Agrees none tm m key obj now timeout a =
      let v : StoreValue V = record { obj = obj; expire_at = now + timeout } in
      let b = get_bucket tm key in
      (
        refl,
        changed-Agrees tm m key (insert key v b) (some v) a
            (insert-IsDistinct key v b (get_bucket-IsDistinct tm m key a))
            (λ j. lookup-insert key j v b),
      )

  call-Agrees :
      (c : Call V) (tm : TimeMap V) (m : Flat V)
      → Agrees tm m
      → let (v, tm') = call tm c in let (w, m') = flat_call m c in (v ≡ w) × Agrees tm' m'
  unfolding call flat_call get delete put sweep Agrees entry get_bucket
  call-Agrees (gets key) tm m a = (ap obj_of (a.1 key), a)
  call-Agrees (deletes key) tm m a =
      let b = get_bucket tm key in
      (
        refl,
        changed-Agrees tm m key (erase key b) none a
            (erase-IsDistinct key b (get_bucket-IsDistinct tm m key a)) (λ j. lookup-erase key j b),
      )
  call-Agrees (puts key obj now timeout) tm m a =
      let (e, a') = put_found-Agrees (lookup key (get_bucket tm key)) tm m key obj now timeout a in
      rw (← (a.1 key)) (ap some e, a')
  call-Agrees (ticks now) tm m a = (
    refl,
    (
      λ i. sweep_bucket-IsDistinct now (tm i) (a.0 i),
      λ j.
          lookup-sweep_bucket now (tm (j % bucket_const)) (a.0 (j % bucket_const)) j
          ∙ ap (kept now) (a.1 j),
    ),
  )

  calls-Agrees :
      (cs : List (Call V)) (tm : TimeMap V) (m : Flat V)
      → Agrees tm m
      → calls tm cs ≡ flat_calls m cs
  unfolding calls flat_calls
  calls-Agrees [] tm m a = refl
  calls-Agrees (c ∷ cs) tm m a =
      let (e, a') = call-Agrees c tm m a in
      ap₂ (◌∷◌) e (calls-Agrees cs (call tm c).1 (flat_call m c).1 a')

pub get-new_time_map {ℓ} : {V : Type ℓ} (key : ℕ) → get (new_time_map {V = V}) key ≡ none
unfolding get new_time_map get_bucket lookup
get-new_time_map key = refl

new_time_map-Agrees {ℓ} : (V : Type ℓ) → Agrees {V = V} new_time_map no_value
unfolding Agrees new_time_map entry get_bucket IsDistinct lookup
new_time_map-Agrees V = (λ i. tt, λ j. refl)

-- From `NewTimeMap` on, no sequence of Get, Put and Delete, with ticks of the goroutine among them,
-- tells the 64 buckets from one map: a value that stands under a key stays, until it is deleted or
-- a tick comes after its time.
pub calls_flat {ℓ} :
    {V : Type ℓ} (cs : List (Call V)) → calls new_time_map cs ≡ flat_calls no_value cs
calls_flat {V = V} cs = calls-Agrees cs new_time_map no_value (new_time_map-Agrees V)
