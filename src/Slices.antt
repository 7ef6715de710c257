-- ===== src/Slices.antt =====
-- gslice/slice.go. The functions on strings and on int64 are one each; an interface{} is an option.
pub mod Laws
mod Tests
use gokits.Prelude.{
  ℕ, Bool, true, false, Option, none, some, List, [], ◌∷◌, ◌++◌, length, replicate, if◌then◌else◌,
}
use gokits.Prelude.Eq.{Eq, ◌==◌}

module _ {ℓ} {A : Type ℓ} where
  -- The loop of `SliceStrTo` and `SliceInt64To`.
  pub append_all : List A → List (Option A) → List (Option A)
  append_all [] uns = uns
  append_all (v ∷ sts) uns = append_all sts (uns ++ some v ∷ [])

  pub slice_to : List A → List (Option A)
  slice_to sts = append_all sts (replicate (length sts) none)

-- `StrSliceContains` and `Int64SliceContains`
pub slice_contains {ℓ} : {A : Type ℓ} ⦃e : Eq A⦄ → List A → A → Bool
slice_contains [] i = false
slice_contains (s ∷ sl) i = let later = slice_contains sl i in if s == i then true else later
