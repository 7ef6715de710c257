-- ===== src/Cache/Tests.antt =====
-- Runs of gcache/cache.go on small caches.
use mathlib.Core.Option.{map, get_or}
use gokits.Prelude.{
  ◌≡◌, refl, ◌≤◌, ◌+◌, ℕ, true, false, none, some, [], ◌∷◌, arith, ltb, if◌then◌else◌, ◌&&◌, Option,
  List,
}
use gokits.Prelude.Eq.{eq_of_nat}
use gokits.Prelude.Dict.{lookup, IsDistinct}
use gokits.Cache.{
  Item, Cache, already_exists, does_not_exist, set, get, add, replace, delete, delete_expired,
}
use gokits.Cache.Lookup.{get-set, get-add, get-replace, get-delete, found}
use gokits.Cache.Expiry.{delete_expired_lem, get-delete_expired, expired_values, kept}
use gokits.Cache.Janitor.{run, run_idle, elapsed, stop}

-- Key 1 expires after 10, key 2 never, key 3 after 30.
abbrev three : Cache ℕ ℕ
three = record {
  items =
      (1, record { object = 100; expiration = 10 })
      ∷ (2, record { object = 200; expiration = 0 })
      ∷ (3, record { object = 300; expiration = 30 })
      ∷ [];
  on_evicted = true;
}

three-IsDistinct : IsDistinct three.items
unfolding IsDistinct lookup
three-IsDistinct = (refl, (refl, (refl, tt)))

swept : delete_expired 20 three ≡ (
  (1, 100) ∷ [],
  record three {
    items =
        (2, record { object = 200; expiration = 0 })
        ∷ (3, record { object = 300; expiration = 30 })
        ∷ [];
  },
)
unfolding delete_expired gokits.Cache.delete_among gokits.Cache.delete_item lookup
    gokits.Prelude.Dict.erase
swept = refl

get-set_example : get 26 (set 20 three 4 7 5) 4 ≡ none
get-set_example = get-set 20 26 three 4 7 5 4

get-add_example :
    (get 20 (add 20 three 1 7 5).1 1
      ≡ (if true then some (get_or (get 20 three 1) 7) else get 20 three 1))
    × ((add 20 three 1 7 5).0 ≡ (if found (get 20 three 1) then some already_exists else none))
get-add_example = get-add 20 three 1 7 5 1

get-replace_example :
    (get 20 (replace 20 three 3 7 5).1 3
      ≡ (if true then map (λ _. 7) (get 20 three 3) else get 20 three 3))
    × ((replace 20 three 3 7 5).0 ≡ (if found (get 20 three 3) then none else some does_not_exist))
get-replace_example = get-replace 20 three 3 7 5 3

get-delete_example : get 5 (delete three 1).1 1 ≡ none
get-delete_example = get-delete 5 three 1 1

delete_expired_example :
    ((delete_expired 20 three).0 ≡ (if true then expired_values 20 three.items else []))
    × ((delete_expired 20 three).1.on_evicted ≡ true)
    × ((j : ℕ) → lookup j (delete_expired 20 three).1.items ≡ kept 20 (lookup j three.items))
delete_expired_example = delete_expired_lem 20 three three-IsDistinct

get-delete_expired_example : get 25 (delete_expired 20 three).1 3 ≡ get 25 three 3
get-delete_expired_example = get-delete_expired 20 25 three 3 (omega arith) three-IsDistinct

run_idle_example : run (elapsed 20 ∷ stop ∷ elapsed 40 ∷ []) three ≡ ([], three)
run_idle_example = run_idle (elapsed 20 ∷ stop ∷ elapsed 40 ∷ []) three
