-- ===== src/Cache/Expiry.antt =====
-- gcache/cache.go: `DeleteExpired`, and the distinctness of the keys.
use mathlib.Core.Option.{map}
use gokits.Prelude.{
  ◌≡◌, refl, inl, inr, ap, sym, ◌∙◌, ℕ, ◌≤◌, true, false, Option, none, some, List, [], ◌∷◌, ◌++◌,
  arith, subst, if◌then◌else◌, Bool-cases,
}
use gokits.Prelude.Eq.{Eq, ◌==◌}
use gokits.Prelude.Dict.{lookup, erase, lookup-erase, IsDistinct}
use gokits.Cache.{Item, Cache, is_expired, fresh, get, delete_item, delete_among, delete_expired}

-- What `DeleteExpired` leaves of an entry.
abbrev pub kept {ℓ} : {V : Type ℓ} → ℕ → Option (Item V) → Option (Item V)
kept now none = none
kept now (some i) = if is_expired now i then none else some i

-- The entries that have expired, as the callback gets them.
pub expired_values {ℓ κ} : {K : Type ℓ} {V : Type κ} → ℕ → List (K × Item V) → List (K × V)
expired_values now [] = []
expired_values now ((k, i) ∷ m) =
    let rest = expired_values now m in if is_expired now i then (k, i.object) ∷ rest else rest

fresh_kept {ℓ} :
    {V : Type ℓ} (now now' : ℕ)
    → now ≤ now'
    → (o : Option (Item V)) → fresh now' (kept now o) ≡ fresh now' o
fresh_kept now now' h none = refl
fresh_kept now now' h (some i) = ground arith

-- What the loop leaves under a key: what it finds in its list, if that has not expired, and
-- what the map had, if the list has no such key.
abbrev left {ℓ} : {V : Type ℓ} → ℕ → Option (Item V) → Option (Item V) → Option (Item V)
left now none o = o
left now (some i) o = kept now (some i)

left_self {ℓ} : {V : Type ℓ} (now : ℕ) (o : Option (Item V)) → left now o o ≡ kept now o
left_self now none = refl
left_self now (some i) = refl

-- A statement of every key that holds at one key and at the others.
by_key {ℓ κ} :
    {K : Type ℓ} ⦃e : Eq K⦄ {P : K → Type κ} (k : K)
    → P k
    → ((j : K) → (k == j) ≡ false → P j)
    → (j : K) → P j
by_key ⦃e⦄ {P = P} k h o j = elim (Bool-cases (k == j)) [
  | inl t ↦ subst P ((e.same_iff k j).0 t) h
  | inr f ↦ o j f
]

module _ {ℓ κ} {K : Type ℓ} {V : Type κ} ⦃e : Eq K⦄ where
  -- Every entry of the list is the one that a lookup in the map finds.
  unfoldable IsPart : List (K × Item V) → List (K × Item V) → Type κ
  IsPart [] m = Unit {κ}
  IsPart ((k, i) ∷ l) m = (lookup k m ≡ some i) × IsPart l m

  absent :
      (k j : K) (i : Item V) (l : List (K × Item V))
      → lookup k ((j, i) ∷ l) ≡ none
      → ((k == j) ≡ false) × (lookup k l ≡ none)
  unfolding lookup
  absent k j i l a = elim (Bool-cases (j == k)) [
    | inl t ↦ ground (arith, a, t)
    | inr f ↦ (ground (arith, f, e.same_iff j k, e.same_iff k j), ground (arith, a, f))
  ]

  -- A change of the map under a key that the list has not keeps it a part of the map.
  move-IsPart :
      (k : K) (l m m' : List (K × Item V))
      → lookup k l ≡ none
      → ((j : K) → (k == j) ≡ false → lookup j m' ≡ lookup j m)
      → IsPart l m
      → IsPart l m'
  unfolding lookup IsPart
  move-IsPart k [] m m' a s p = tt
  move-IsPart k ((j, i) ∷ l) m m' a s (p, q) =
      let (f, b) = absent k j i l a in (s j f ∙ p, move-IsPart k l m m' b s q)

  self-IsPart : (m : List (K × Item V)) → IsDistinct m → IsPart m m
  unfolding lookup IsPart IsDistinct
  self-IsPart [] p = tt
  self-IsPart ((k, i) ∷ m) (a, q) = (
    ground (arith, e.same_iff k k),
    move-IsPart k m m ((k, i) ∷ m) a (λ j f. ground (arith, f)) (self-IsPart m q),
  )

  delete_item_lem :
      (c : Cache K V) (k : K)
      → delete_item c k ≡ (
        (if c.on_evicted then map (λ i. i.object) (lookup k c.items) else none),
        record c { items = erase k c.items },
      )
  unfolding delete_item
  delete_item_lem c k = ground arith

  abbrev without : K → Cache K V → Cache K V
  without k c = record c { items = erase k c.items }

  delete_among_step :
      (now : ℕ) (k : K) (i : Item V) (l : List (K × Item V)) (c : Cache K V)
      → lookup k c.items ≡ some i
      → delete_among now ((k, i) ∷ l) c ≡ (
          if is_expired now i
          then (
            (if c.on_evicted then (k, i.object) ∷ [] else [])
                ++ (delete_among now l (without k c)).0,
            (delete_among now l (without k c)).1,
          )
          else delete_among now l c)
  unfolding delete_among
  delete_among_step now k i l c p = ground (arith, p, delete_item_lem c k)

  delete_among_expired :
      (now : ℕ) (k : K) (i : Item V) (l : List (K × Item V)) (c : Cache K V)
      → lookup k c.items ≡ some i
      → is_expired now i ≡ true
      → delete_among now ((k, i) ∷ l) c ≡ (
        (if c.on_evicted then (k, i.object) ∷ [] else []) ++ (delete_among now l (without k c)).0,
        (delete_among now l (without k c)).1,
      )
  delete_among_expired now k i l c p t = ground (arith, delete_among_step now k i l c p, t)

  delete_among_kept :
      (now : ℕ) (k : K) (i : Item V) (l : List (K × Item V)) (c : Cache K V)
      → lookup k c.items ≡ some i
      → is_expired now i ≡ false
      → delete_among now ((k, i) ∷ l) c ≡ delete_among now l c
  delete_among_kept now k i l c p f = ground (arith, delete_among_step now k i l c p, f)

  IsSwept : ℕ → List (K × Item V) → Cache K V → List (K × V) × Cache K V → Type (ℓ ⊔ κ)
  IsSwept now l c r =
      (r.0 ≡ (if c.on_evicted then expired_values now l else []))
      × (r.1.on_evicted ≡ c.on_evicted)
      × ((j : K) → lookup j r.1.items ≡ left now (lookup j l) (lookup j c.items))

  delete_among-IsSwept :
      (now : ℕ) (l : List (K × Item V)) (c : Cache K V)
      → IsDistinct l
      → IsPart l c.items
      → IsSwept now l c (delete_among now l c)
  unfolding IsSwept IsPart IsDistinct lookup delete_among expired_values
  delete_among-IsSwept now [] c d p = (ground arith, refl, λ j. refl)
  delete_among-IsSwept now ((k, i) ∷ l) c (a, d) (p, q) = elim (Bool-cases (is_expired now i)) [
    | inl t ↦
        let (h0, h1, h2) = delete_among-IsSwept now l (without k c) d (
          move-IsPart k l c.items (erase k c.items) a
            (λ j f. ground (arith, f, lookup-erase k j c.items)) q) in
        subst (IsSwept now ((k, i) ∷ l) c) (sym (delete_among_expired now k i l c p t)) (
          ground (arith, h0, t),
          h1,
          by_key k (ground (arith, h2 k, a, p, t, e.same_iff k k, lookup-erase k k c.items))
              (λ j n. ground (arith, h2 j, n, lookup-erase k j c.items)),
        )
    | inr f ↦
        let (h0, h1, h2) = delete_among-IsSwept now l c d q in
        subst (IsSwept now ((k, i) ∷ l) c) (sym (delete_among_kept now k i l c p f)) (
          ground (arith, h0, f),
          h1,
          by_key k (ground (arith, h2 k, a, p, f, e.same_iff k k)) (λ j n. ground (arith, h2 j, n)),
        )
  ]

  -- `DeleteExpired` leaves every entry that has not expired and no other, under the same callback,
  -- and hands to the callback, where one is set, each entry that has expired, once and in the order
  -- of the map. The keys of the map are distinct.
  pub delete_expired_lem :
      (now : ℕ) (c : Cache K V)
      → IsDistinct c.items
      → ((delete_expired now c).0 ≡ (if c.on_evicted then expired_values now c.items else []))
        × ((delete_expired now c).1.on_evicted ≡ c.on_evicted)
        × ((j : K) → lookup j (delete_expired now c).1.items ≡ kept now (lookup j c.items))
  unfolding delete_expired IsSwept
  delete_expired_lem now c d =
      let (h0, h1, h2) = delete_among-IsSwept now c.items c d (self-IsPart c.items d) in
      (h0, h1, λ j. h2 j ∙ left_self now (lookup j c.items))

  -- `DeleteExpired` changes no lookup made at the same time or later. The keys of the map are distinct.
  pub get-delete_expired :
      (now now' : ℕ) (c : Cache K V) (k : K)
      → now ≤ now'
      → IsDistinct c.items
      → get now' (delete_expired now c).1 k ≡ get now' c k
  unfolding get
  get-delete_expired now now' c k h d =
      ap (fresh now') ((delete_expired_lem now c d).2 k) ∙ fresh_kept now now' h (lookup k c.items)
