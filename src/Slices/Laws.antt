-- ===== src/Slices/Laws.antt =====
-- gslice/slice.go: what the conversions return, and the search.
use gokits.Prelude.{
  ◌≡◌, refl, ap, ◌∙◌, ℕ, zero, suc, true, Option, none, some, List, [], ◌∷◌, ◌++◌, map, length,
  replicate, get_elem?, Bool-cases, inl, inr, arith,
}
use gokits.Prelude.Eq.{Eq, ◌==◌}
use gokits.Slices.{append_all, slice_to, slice_contains}

module _ {ℓ} {A : Type ℓ} where
  assoc : (xs ys zs : List A) → (xs ++ ys) ++ zs ≡ xs ++ (ys ++ zs)
  assoc [] ys zs = refl
  assoc (x ∷ xs) ys zs = ap (λ l. x ∷ l) (assoc xs ys zs)

  empty : (xs : List A) → xs ≡ xs ++ []
  empty [] = refl
  empty (x ∷ xs) = ap (λ l. x ∷ l) (empty xs)

module _ {ℓ} {A : Type ℓ} where
  append_all_lem :
      (sts : List A) (uns : List (Option A)) → append_all sts uns ≡ uns ++ map (λ v. some v) sts
  unfolding append_all
  append_all_lem [] uns = empty uns
  append_all_lem (v ∷ sts) uns =
      append_all_lem sts (uns ++ some v ∷ []) ∙ assoc uns (some v ∷ []) (map (λ w. some w) sts)

  -- `SliceStrTo` and `SliceInt64To` return the values after as many nils.
  pub slice_to_lem :
      (sts : List A) → slice_to sts ≡ replicate (length sts) none ++ map (λ v. some v) sts
  unfolding slice_to
  slice_to_lem sts = append_all_lem sts (replicate (length sts) none)

contains_at {ℓ} :
    {A : Type ℓ} ⦃e : Eq A⦄ (sl : List A) (x : A) (i : ℕ)
    → get_elem? sl i ≡ some x
    → slice_contains sl x ≡ true
unfolding slice_contains
contains_at [] x i h = ground (arith, h)
contains_at ⦃e⦄ (s ∷ sl) x zero h = ground (arith, h, e.same_iff s x)
contains_at (s ∷ sl) x (suc i) h = ground (arith, contains_at sl x i h)

contained {ℓ} :
    {A : Type ℓ} ⦃e : Eq A⦄ (sl : List A) (x : A)
    → slice_contains sl x ≡ true
    → (i : ℕ) × (get_elem? sl i ≡ some x)
unfolding slice_contains
contained [] x h = ground (arith, h)
contained ⦃e⦄ (s ∷ sl) x h = elim (Bool-cases (s == x)) [
  | inl t ↦ (0, ap (λ y. some y) ((e.same_iff s x).0 t))
  | inr f ↦ let (i, k) = contained sl x (ground (arith, h, f)) in (suc i, k)
]

-- `StrSliceContains` and `Int64SliceContains` are true exactly if some index of the slice has the value.
pub slice_contains_lem {ℓ} :
    {A : Type ℓ} ⦃e : Eq A⦄ (sl : List A) (x : A)
    → (slice_contains sl x ≡ true → (i : ℕ) × (get_elem? sl i ≡ some x))
      × ((i : ℕ) → get_elem? sl i ≡ some x → slice_contains sl x ≡ true)
slice_contains_lem sl x = (contained sl x, contains_at sl x)
