-- ===== src/Local/Storage.antt =====
-- gls/gls.go: the storages of goroutines, by the addresses that internal.Getg gives. A storage is a Go
-- map that a reference stands for, so a call changes it for everyone who has the reference.
pub mod Inherit
pub mod Sound
mod Tests
use gokits.Prelude.{ℕ, suc, ◌+◌, ◌==◌, Bool, Option, none, some, List, [], ◌∷◌, if◌then◌else◌}
use gokits.Prelude.Eq.{Eq, eq_of_nat}
use gokits.Prelude.Dict.{lookup, insert}
use gokits.Local.TimeMap.{TimeMap, new_time_map, get, put, delete}

-- `Storage`
abbrev pub Storage {ℓ κ} : Type ℓ → Type κ → Type (ℓ ⊔ κ)
Storage K V = List (K × V)

-- The storages that were made, below `next`, and the variable `gtm`.
pub record Memory {ℓ κ} (K : Type ℓ) (V : Type κ) : Type (ℓ ⊔ κ) where
  pub stores : ℕ → Storage K V
  pub next : ℕ
  pub gtm : TimeMap ℕ

-- One hour, in nanoseconds.
abbrev pub hour : ℕ
hour = 3600000000000

module _ {ℓ κ} {K : Type ℓ} {V : Type κ} ⦃e : Eq K⦄ where
  pub new_memory : Memory K V
  new_memory = record { stores = λ r. []; next = 0; gtm = new_time_map }

  pub write : ℕ → Storage K V → Memory K V → Memory K V
  write r store m = record m { stores = λ i. if r == i then store else m.stores i }

  -- `newStorage`, with what is copied into it.
  pub new_storage : Storage K V → Memory K V → ℕ × Memory K V
  new_storage store m = (m.next, record (write m.next store m) { next = suc m.next })

  -- `getStorage`
  pub get_storage : Memory K V → ℕ → Option ℕ
  get_storage m g = get m.gtm g

  -- The value in a storage, where there is one; `none` is a nil.
  abbrev pub value_in : Memory K V → K → Option ℕ → Option V
  value_in m key none = none
  value_in m key (some r) = lookup key (m.stores r)

  -- `Get`
  pub get_value : Memory K V → ℕ → K → Option V
  get_value m g key = value_in m key (get_storage m g)

  abbrev pub set_in : Memory K V → K → V → Option ℕ → Memory K V
  set_in m key value none = m
  set_in m key value (some r) = write r (insert key value (m.stores r)) m

  -- `Set`
  pub set_value : Memory K V → ℕ → K → V → Memory K V
  set_value m g key value = set_in m key value (get_storage m g)

  -- `putStorage`
  pub put_storage : Memory K V → ℕ → ℕ → (now timeout : ℕ) → ℕ × Memory K V
  put_storage m g r now timeout =
      let (r', tm) = put m.gtm g r now timeout in (r', record m { gtm = tm })

  -- `Put`
  pub put_new : Memory K V → ℕ → (now timeout : ℕ) → ℕ × Memory K V
  put_new m g now timeout = let (r, m') = new_storage [] m in put_storage m' g r now timeout

  -- `Cleanup`
  pub cleanup : Memory K V → ℕ → Memory K V
  cleanup m g = record m { gtm = delete m.gtm g }

  -- `With`; `f` is what the function does to the memory.
  pub with_storage : Memory K V → ℕ → ℕ → ℕ → (Memory K V → Memory K V) → Memory K V
  with_storage m g r now f = let (_, m') = put_storage m g r now hour in cleanup (f m') g

  -- `copyStorage`, in an order of the source's keys.
  pub copy_storage : Storage K V → Storage K V → Storage K V
  copy_storage [] dest = dest
  copy_storage ((k, v) ∷ src) dest = insert k v (copy_storage src dest)

  abbrev pub copy_of : Memory K V → Option ℕ → Storage K V
  copy_of m none = []
  copy_of m (some r) = copy_storage (m.stores r) []

  -- `Go` in the goroutine that calls it.
  pub go_copy : Memory K V → ℕ → ℕ × Memory K V
  go_copy m g = new_storage (copy_of m (get_storage m g)) m

  -- The goroutine that `Go` starts.
  pub go_run : Memory K V → ℕ → ℕ → ℕ → (Memory K V → Memory K V) → Memory K V
  go_run m child r now f = let (_, m') = put_storage m child r now hour in cleanup (f m') child
