-- ===== src/Local/Storage/Tests.antt =====
-- gls/gls.go: tests and examples.
use gokits.Prelude.{ℕ, ◌≡◌, false, none, some, List, [], ◌∷◌, ◌∙◌}
use gokits.Prelude.Eq.{◌==◌, eq_of_nat}
use gokits.Prelude.Dict.{lookup}
use gokits.Local.TimeMap.{new_time_map}
use gokits.Local.TimeMap.Refine.{standing, get-put, get-new_time_map}
use gokits.Local.Storage.{
  write, hour, new_memory, get_storage, get_value, set_value, put_storage, put_new, new_storage,
  with_storage,
}
use gokits.Local.Storage.Inherit.{IsSound, started, go_inherits, get_storage-set_in}
use gokits.Local.Storage.Sound.{Action, puts, sets, act, acts, reachable-IsSound, with_storage_lem}

-- Goroutine 1 has a storage with 50 under the key 5.
abbrev parent_set : List (Action ℕ ℕ)
parent_set = puts 1 100 1000 ∷ sets 1 5 50 ∷ []

reachable-IsSound_example : IsSound (acts new_memory parent_set)
reachable-IsSound_example = reachable-IsSound parent_set

new_storage_test : get_storage (put_new {K = ℕ} {V = ℕ} new_memory 1 100 1000).1 2 ≡ none
unfolding put_new new_storage new_memory put_storage get_storage write
new_storage_test = (get-put {V = ℕ} new_time_map 1 0 100 1000 2).1 ∙ get-new_time_map {V = ℕ} 2

child_has_none : get_storage (acts new_memory parent_set) 2 ≡ none
unfolding acts act set_value
child_has_none =
    get_storage-set_in (put_new {K = ℕ} {V = ℕ} new_memory 1 100 1000).1 5 50
      (get_storage (put_new {K = ℕ} {V = ℕ} new_memory 1 100 1000).1 1) 2
    ∙ new_storage_test

go_inherits_example :
    let m = acts new_memory parent_set in
    let m' = set_value (started m 1 2 200) 2 5 60 in
    (get_value m' 2 5 ≡ some 60)
    × ((h : ℕ) → ◌==◌ {K = ℕ} 2 h ≡ false → get_value m' h 5 ≡ get_value m h 5)
go_inherits_example =
    go_inherits (acts new_memory parent_set) 1 2 200 5 60 5 (reachable-IsSound parent_set)
      child_has_none

-- A storage that the goroutine has already hides the one that `With` is given, and is gone after it.
with_storage_lem_example :
    let m = acts new_memory parent_set in
    let m' = (put_storage m 1 7 200 hour).1 in
    let w = with_storage m 1 7 200 (λ n. set_value n 1 6 60) in
    (get_value m' 1 5 ≡ lookup 5 (m.stores (standing 7 (get_storage m 1))))
    × (get_storage w 1 ≡ none)
with_storage_lem_example =
    with_storage_lem (acts new_memory parent_set) 1 7 200 (λ n. set_value n 1 6 60) 5 1
