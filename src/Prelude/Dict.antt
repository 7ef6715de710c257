-- ===== src/Prelude/Dict.antt =====
-- A Go map as an association list: assignment replaces, deletion takes every entry of the key.
use gokits.Prelude.{
  ◌≡◌, Option, none, some, List, [], ◌∷◌, arith, if◌then◌else◌, Bool-cases, inl, inr,
}
use gokits.Prelude.Eq.{Eq, ◌==◌}

module _ {ℓ κ} {K : Type ℓ} {V : Type κ} ⦃e : Eq K⦄ where
  unfoldable pub lookup : K → List (K × V) → Option V
  lookup k [] = none
  lookup k ((j, v) ∷ m) = if j == k then some v else lookup k m

  unfoldable pub erase : K → List (K × V) → List (K × V)
  erase k [] = []
  erase k ((j, v) ∷ m) = if j == k then erase k m else (j, v) ∷ erase k m

  unfoldable pub insert : K → V → List (K × V) → List (K × V)
  insert k v m = (k, v) ∷ erase k m

  pub lookup-erase :
      (k j : K) (m : List (K × V)) → lookup j (erase k m) ≡ (if k == j then none else lookup j m)
  unfolding lookup erase
  lookup-erase k j [] = ground arith
  lookup-erase k j ((i, v) ∷ m) =
      ground (arith, lookup-erase k j m, e.same_iff i k, e.same_iff i j, e.same_iff k j)

  pub lookup-insert :
      (k j : K) (v : V) (m : List (K × V))
      → lookup j (insert k v m) ≡ (if k == j then some v else lookup j m)
  unfolding lookup insert
  lookup-insert k j v m = ground (arith, lookup-erase k j m)

  -- No key occurs twice.
  unfoldable pub IsDistinct : List (K × V) → Type κ
  IsDistinct [] = Unit {κ}
  IsDistinct ((k, v) ∷ m) = (lookup k m ≡ none) × IsDistinct m

  pub erase-IsDistinct : (k : K) (m : List (K × V)) → IsDistinct m → IsDistinct (erase k m)
  unfolding erase IsDistinct
  erase-IsDistinct k [] p = p
  erase-IsDistinct k ((j, v) ∷ m) (p, q) = elim (Bool-cases (j == k)) [
    | inl t ↦ rw t (erase-IsDistinct k m q)
    | inr f ↦ rw f (ground (arith, p, f, lookup-erase k j m), erase-IsDistinct k m q)
  ]

  pub insert-IsDistinct :
      (k : K) (v : V) (m : List (K × V)) → IsDistinct m → IsDistinct (insert k v m)
  unfolding insert IsDistinct
  insert-IsDistinct k v m p =
      (ground (arith, lookup-erase k k m, e.same_iff k k), erase-IsDistinct k m p)
