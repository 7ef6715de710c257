-- ===== src/Local/Tests.antt =====
-- The package gls: tests and examples.
use gokits.Prelude.{ℕ, ◌≡◌, refl, none, some, List, [], ◌∷◌}
use gokits.Prelude.Eq.{eq_of_nat}
use gokits.Local.TimeMap.{Call, gets, deletes, puts, ticks, calls, new_time_map}
use gokits.Local.TimeMap.Flat.{no_value, flat_call, flat_calls}
use gokits.Local.TimeMap.Refine.{calls_flat}

-- The keys 3 and 67 share a bucket.
abbrev some_calls : List (Call ℕ)
some_calls =
    puts 3 30 100 10
    ∷ puts 67 40 100 50
    ∷ puts 3 31 105 10
    ∷ ticks 120
    ∷ gets 3
    ∷ gets 67
    ∷ deletes 67
    ∷ gets 67
    ∷ []

calls_flat_example : calls new_time_map some_calls ≡ flat_calls no_value some_calls
calls_flat_example = calls_flat some_calls

flat_calls_test :
    flat_calls no_value some_calls
    ≡ some 30 ∷ some 40 ∷ some 30 ∷ none ∷ none ∷ some 40 ∷ none ∷ none ∷ []
unfolding flat_call flat_calls
flat_calls_test = refl
