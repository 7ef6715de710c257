-- ===== src/Local/Storage/Inherit.antt =====
-- gls/gls.go: what a goroutine that `Go` starts sees, and what `With` leaves.
use gokits.Prelude.{
  ℕ, ◌<◌, ==_iff, ◌≡◌, refl, ap, ◌∙◌, false, Bool-cases, inl, inr, Option, none, some, [], ◌∷◌,
  arith, if◌then◌else◌,
}
use gokits.Prelude.Eq.{Eq, ◌==◌, eq_of_nat}
use gokits.Prelude.Dict.{lookup, lookup-insert}
use gokits.Local.TimeMap.Refine.{standing, get-put}
use gokits.Local.Storage.{
  Storage, Memory, hour, write, new_storage, get_storage, value_in, get_value, set_in, set_value,
  put_storage, copy_storage, copy_of, go_copy,
}

module _ {ℓ κ} {K : Type ℓ} {V : Type κ} ⦃e : Eq K⦄ where
  lookup-copy_storage : (k : K) (src : Storage K V) → lookup k (copy_storage src []) ≡ lookup k src
  unfolding copy_storage lookup
  lookup-copy_storage k [] = refl
  lookup-copy_storage k ((j, v) ∷ src) =
      ground (arith, lookup-insert j k v (copy_storage src []), lookup-copy_storage k src)

  lookup-copy_of : (k : K) (m : Memory K V) (o : Option ℕ) → lookup k (copy_of m o) ≡ value_in m k o
  unfolding lookup
  lookup-copy_of k m none = refl
  lookup-copy_of k m (some r) = lookup-copy_storage k (m.stores r)

  pub get_storage-put_storage :
      (m : Memory K V) (g r now timeout h : ℕ)
      → let (r', m') = put_storage m g r now timeout in
        (r' ≡ standing r (get_storage m g))
        × (get_storage m' h ≡ (if g == h then some r' else get_storage m h))
  unfolding put_storage get_storage
  get_storage-put_storage m g r now timeout h = get-put m.gtm g r now timeout h

  pub stores-put_storage :
      (m : Memory K V) (g r now timeout : ℕ) → (put_storage m g r now timeout).1.stores ≡ m.stores
  unfolding put_storage
  stores-put_storage m g r now timeout = refl

  -- Every storage that a goroutine has was made.
  unfoldable pub IsSound : Memory K V → Type 0
  IsSound m = (g r : ℕ) → get_storage m g ≡ some r → r < m.next

  pub get_storage-set_in :
      (m : Memory K V) (key : K) (v : V) (o : Option ℕ) (h : ℕ)
      → get_storage (set_in m key v o) h ≡ get_storage m h
  unfolding get_storage write
  get_storage-set_in m key v none h = refl
  get_storage-set_in m key v (some r) h = refl

  get_value-set_value :
      (m : Memory K V) (g : ℕ) (key : K) (v : V) (h : ℕ) (k : K)
      → get_value (set_value m g key v) h k
        ≡ value_in (set_in m key v (get_storage m g)) k (get_storage m h)
  unfolding get_value set_value
  get_value-set_value m g key v h k =
      let m' = set_in m key v (get_storage m g) in
      ap (value_in m' k) (get_storage-set_in m key v (get_storage m g) h)

  own_value :
      (m : Memory K V) (key : K) (v : V) (r : ℕ) (k : K)
      → value_in (set_in m key v (some r)) k (some r)
        ≡ (if key == k then some v else lookup k (m.stores r))
  unfolding write
  own_value m key v r k = rw ((==_iff r r).1 refl) (lookup-insert key k v (m.stores r))

  other_value :
      (m : Memory K V) (key : K) (v : V) (r i : ℕ) (k : K)
      → i < r
      → value_in (set_in m key v (some r)) k (some i) ≡ lookup k (m.stores i)
  unfolding write
  other_value m key v r i k h = elim (Bool-cases (r == i)) [
    | inl t ↦ ground (arith, h, (==_iff r i).0 t)
    | inr f ↦ rw f refl
  ]

  -- The memory when the function of a goroutine that `Go` started begins.
  unfoldable pub started : Memory K V → (parent child now : ℕ) → Memory K V
  started m parent child now = let (r, m') = go_copy m parent in (put_storage m' child r now hour).1

  pub get_storage-started :
      (m : Memory K V) (parent child now h : ℕ)
      → get_storage m child ≡ none
      → get_storage (started m parent child now) h
        ≡ (if child == h then some m.next else get_storage m h)
  unfolding started go_copy new_storage write get_storage put_storage
  get_storage-started m parent child now h empty =
      let (v, same) = get-put m.gtm child m.next now hour h in ground (arith, empty, v, same)

  stores-started :
      (m : Memory K V) (parent child now i : ℕ)
      → (started m parent child now).stores i
        ≡ (if m.next == i then copy_of m (get_storage m parent) else m.stores i)
  unfolding started go_copy new_storage write put_storage
  stores-started m parent child now i = refl

  child_storage :
      (m : Memory K V) (parent child now : ℕ)
      → get_storage m child ≡ none
      → get_storage (started m parent child now) child ≡ some m.next
  child_storage m parent child now empty =
      ground
        (arith, get_storage-started m parent child now child empty, (==_iff child child).1 refl)

  inherited :
      (m : Memory K V) (parent child now : ℕ) (k : K)
      → lookup k ((started m parent child now).stores m.next) ≡ get_value m parent k
  unfolding get_value
  inherited m parent child now k =
      rw (stores-started m parent child now m.next, (==_iff m.next m.next).1 refl)
        (lookup-copy_of k m (get_storage m parent))

  -- A `Set` of the child does not reach a storage that was made before.
  kept_value :
      (m : Memory K V) (parent child now : ℕ) (key : K) (v : V) (k : K) (o : Option ℕ)
      → ((r : ℕ) → o ≡ some r → r < m.next)
      → value_in (set_in (started m parent child now) key v (some m.next)) k o ≡ value_in m k o
  kept_value m parent child now key v k none below = refl
  kept_value m parent child now key v k (some i) below =
      let w = started m parent child now in
      let same : (m.next == i) ≡ false = ground (arith, below i refl, ==_iff m.next i) in
      other_value w key v m.next i k (below i refl)
      ∙ rw (stores-started m parent child now i, same) refl

  -- `Go` in a goroutine whose storages were made, for a goroutine whose address has no storage: the
  -- new goroutine sees what its parent saw when it called `Go`, and its own `Set`; every other
  -- goroutine, the parent too, sees what it saw before.
  pub go_inherits :
      (m : Memory K V) (parent child now : ℕ) (key : K) (v : V) (k : K)
      → IsSound m
      → get_storage m child ≡ none
      → let m' = set_value (started m parent child now) child key v in
        (get_value m' child k ≡ (if key == k then some v else get_value m parent k))
        × ((h : ℕ) → (child == h) ≡ false → get_value m' h k ≡ get_value m h k)
  unfolding IsSound get_value
  go_inherits m parent child now key v k sound empty =
      let w = started m parent child now in
      let own = child_storage m parent child now empty in
      (
        get_value-set_value w child key v child k
            ∙ rw own (own_value w key v m.next k)
            ∙ ap (λ x. if key == k then some v else x) (inherited m parent child now k),
        λ h other.
            let same : get_storage w h ≡ get_storage m h =
              ground (arith, other, get_storage-started m parent child now h empty) in
            get_value-set_value w child key v h k
            ∙ rw (own, same)
                (kept_value m parent child now key v k (get_storage m h) (λ r. sound h r)),
      )
