-- ===== src/Local/Storage/Sound.antt =====
-- gls/gls.go: the storages that goroutines have are ones that were made; and what `With` leaves.
use gokits.Prelude.{
  ℕ, ==_iff, ◌≡◌, refl, ap, Option, none, some, List, [], ◌∷◌, arith, if◌then◌else◌,
}
use gokits.Prelude.Eq.{Eq, ◌==◌, eq_of_nat}
use gokits.Prelude.Dict.{lookup}
use gokits.Local.TimeMap.{get}
use gokits.Local.TimeMap.Refine.{standing, get-put, get-delete, get-new_time_map}
use gokits.Local.Storage.{
  Memory, hour, write, new_memory, new_storage, get_storage, value_in, get_value, set_in, set_value,
  put_storage, put_new, cleanup, with_storage, go_copy,
}
use gokits.Local.Storage.Inherit.{IsSound, started}

-- `Put`, `Set`, `Cleanup` and the start of a goroutine by `Go`.
pub data Action {ℓ κ} (K : Type ℓ) (V : Type κ) : Type (ℓ ⊔ κ) where
  puts : (g now timeout : ℕ) → Action K V
  sets : ℕ → K → V → Action K V
  cleans : ℕ → Action K V
  goes : (parent child now : ℕ) → Action K V

module _ {ℓ κ} {K : Type ℓ} {V : Type κ} ⦃e : Eq K⦄ where
  unfoldable pub act : Memory K V → Action K V → Memory K V
  act m (puts g now timeout) = (put_new m g now timeout).1
  act m (sets g key v) = set_value m g key v
  act m (cleans g) = cleanup m g
  act m (goes parent child now) = started m parent child now

  unfoldable pub acts : Memory K V → List (Action K V) → Memory K V
  acts m [] = m
  acts m (a ∷ rest) = acts (act m a) rest

  set_in-IsSound :
      (m : Memory K V) (key : K) (v : V) (o : Option ℕ) → IsSound m → IsSound (set_in m key v o)
  unfolding IsSound get_storage write
  set_in-IsSound m key v none sound = sound
  set_in-IsSound m key v (some r) sound = sound

  set_value-IsSound :
      (m : Memory K V) (g : ℕ) (key : K) (v : V) → IsSound m → IsSound (set_value m g key v)
  unfolding set_value
  set_value-IsSound m g key v sound = set_in-IsSound m key v (get_storage m g) sound

  cleanup-IsSound : (m : Memory K V) (g : ℕ) → IsSound m → IsSound (cleanup m g)
  unfolding IsSound cleanup get_storage
  cleanup-IsSound m g sound h r s = sound h r (ground (arith, s, get-delete m.gtm g h))

  put_new-IsSound :
      (m : Memory K V) (g now timeout : ℕ) → IsSound m → IsSound (put_new m g now timeout).1
  unfolding IsSound put_new new_storage write put_storage get_storage
  put_new-IsSound m g now timeout sound h r s =
      let (v, same) = get-put m.gtm g m.next now timeout h in
      ground (arith, sound h r, sound g m.next, s, v, same)

  started-IsSound :
      (m : Memory K V) (parent child now : ℕ) → IsSound m → IsSound (started m parent child now)
  unfolding IsSound started go_copy new_storage write put_storage get_storage
  started-IsSound m parent child now sound h r s =
      let (v, same) = get-put m.gtm child m.next now hour h in
      ground (arith, sound h r, sound child m.next, s, v, same)

  acts-IsSound : (calls : List (Action K V)) (m : Memory K V) → IsSound m → IsSound (acts m calls)
  unfolding acts act
  acts-IsSound [] m sound = sound
  acts-IsSound (puts g now timeout ∷ rest) m sound =
      acts-IsSound rest _ (put_new-IsSound m g now timeout sound)
  acts-IsSound (sets g key v ∷ rest) m sound =
      acts-IsSound rest _ (set_value-IsSound m g key v sound)
  acts-IsSound (goes parent child now ∷ rest) m sound =
      acts-IsSound rest _ (started-IsSound m parent child now sound)
  acts-IsSound (cleans g ∷ rest) m sound = acts-IsSound rest _ (cleanup-IsSound m g sound)

  -- `With`: its function finds the values of the storage that it was given, or those of the storage
  -- that the goroutine has already; afterwards the goroutine has none, and the others have theirs as
  -- the function left them.
  pub with_storage_lem :
      (m : Memory K V) (g r now : ℕ) (f : Memory K V → Memory K V) (k : K) (h : ℕ)
      → let m' = (put_storage m g r now hour).1 in
        let w = with_storage m g r now f in
        (get_value m' g k ≡ lookup k (m.stores (standing r (get_storage m g))))
        × (get_storage w h ≡ (if g == h then none else get_storage (f m') h))
  unfolding get_value with_storage cleanup get_storage put_storage
  with_storage_lem m g r now f k h =
      let m' = (put_storage m g r now hour).1 in
      let (v, same) = get-put m.gtm g r now hour g in
      let found : get_storage m' g ≡ some (standing r (get m.gtm g)) =
        ground (arith, v, same, (==_iff g g).1 refl) in
      (ap (value_in m' k) found, get-delete (f m').gtm g h)

new_memory-IsSound {ℓ κ} : (K : Type ℓ) (V : Type κ) ⦃e : Eq K⦄ → IsSound {K = K} {V = V} new_memory
unfolding IsSound new_memory get_storage
new_memory-IsSound K V g r s = ground (arith, s, get-new_time_map {V = ℕ} g)

-- Every storage that a goroutine has after any calls was made before.
pub reachable-IsSound {ℓ κ} :
    {K : Type ℓ} {V : Type κ} ⦃e : Eq K⦄ (calls : List (Action K V))
    → IsSound (acts new_memory calls)
reachable-IsSound {K = K} {V = V} calls = acts-IsSound calls new_memory (new_memory-IsSound K V)
