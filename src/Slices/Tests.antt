-- ===== src/Slices/Tests.antt =====
-- Runs of gslice/slice.go.
use gokits.Prelude.{ℕ, ◌≡◌, true, none, some, [], ◌∷◌, get_elem?}
use gokits.Prelude.Eq.{eq_of_nat}
use gokits.Slices.{slice_to, slice_contains}
use gokits.Slices.Laws.{slice_to_lem, slice_contains_lem}

slice_to_lem_example : slice_to {A = ℕ} (7 ∷ 8 ∷ []) ≡ none ∷ none ∷ some 7 ∷ some 8 ∷ []
slice_to_lem_example = slice_to_lem (7 ∷ 8 ∷ [])

slice_contains_lem_example :
    (slice_contains {A = ℕ} (7 ∷ 8 ∷ []) 8 ≡ true
      → (i : ℕ) × (get_elem? {A = ℕ} (7 ∷ 8 ∷ []) i ≡ some 8))
    × ((i : ℕ)
        → get_elem? {A = ℕ} (7 ∷ 8 ∷ []) i ≡ some 8
        → slice_contains {A = ℕ} (7 ∷ 8 ∷ []) 8 ≡ true)
slice_contains_lem_example = slice_contains_lem (7 ∷ 8 ∷ []) 8
