-- ===== src/Collection/Deque/Cells.antt =====
-- The shape of the deque of gcollection/queue.go: a list of cells, an address and an item each, that
-- the links of the nodes join in both directions.
use gokits.Prelude.{
  ℕ, suc, ◌+◌, ◌<◌, ◌≡◌, refl, ap, ◌≢◌, ◌⊎◌, inl, inr, Option, some, List, [], ◌∷◌, ◌++◌, arith,
  length,
}
use gokits.Collection.Heap.{Nodes}

abbrev pub Cells {ℓ} : Type ℓ → Type ℓ
Cells A = List (ℕ × A)

module _ {ℓ} {A : Type ℓ} where
  abbrev pub items : Cells A → List A
  items [] = []
  items ((a, x) ∷ cs) = x ∷ items cs

  -- The address of the first cell, or `n` if there is none.
  abbrev pub head_addr : Cells A → Option ℕ → Option ℕ
  head_addr [] n = n
  head_addr ((a, x) ∷ cs) n = some a

  -- The address of the last cell, or `p` if there is none.
  abbrev pub last_addr : Option ℕ → Cells A → Option ℕ
  last_addr p [] = p
  last_addr p ((a, x) ∷ cs) = last_addr (some a) cs

  -- The cells lie in the heap, linked to one another, to `p` before them and to `n` behind.
  abbrev pub Linked : Nodes A → Option ℕ → Cells A → Option ℕ → Type ℓ
  Linked h p [] n = Unit
  Linked h p ((a, x) ∷ cs) n =
      ((h a).item ≡ some x)
      × ((h a).prev ≡ p)
      × ((h a).next ≡ head_addr cs n)
      × Linked h (some a) cs n

  -- No cell stands at the address.
  abbrev pub Apart : ℕ → Cells A → Type 0
  Apart a [] = Unit
  Apart a ((b, x) ∷ cs) = (a ≢ b) × Apart a cs

  abbrev pub Distinct : Cells A → Type 0
  Distinct [] = Unit
  Distinct ((a, x) ∷ cs) = Apart a cs × Distinct cs

  -- All cells stand below the address.
  abbrev pub Below : ℕ → Cells A → Type 0
  Below n [] = Unit
  Below n ((a, x) ∷ cs) = (a < n) × Below n cs

  pub items-append : (cs ds : Cells A) → items (cs ++ ds) ≡ items cs ++ items ds
  items-append [] ds = refl
  items-append ((a, x) ∷ cs) ds = ap (◌∷◌ x) (items-append cs ds)

  pub length-items : (cs : Cells A) → length (items cs) ≡ length cs
  length-items [] = refl
  length-items ((a, x) ∷ cs) = ap suc (length-items cs)

  pub head_addr-append :
      (cs ds : Cells A) (n : Option ℕ) → head_addr (cs ++ ds) n ≡ head_addr cs (head_addr ds n)
  head_addr-append [] ds n = refl
  head_addr-append ((a, x) ∷ cs) ds n = refl

  pub last_addr-append :
      (p : Option ℕ) (cs ds : Cells A) → last_addr p (cs ++ ds) ≡ last_addr (last_addr p cs) ds
  last_addr-append p [] ds = refl
  last_addr-append p ((a, x) ∷ cs) ds = last_addr-append (some a) cs ds

  pub Below-Apart : (n : ℕ) (cs : Cells A) → Below n cs → Apart n cs
  Below-Apart n [] b = tt
  Below-Apart n ((a, x) ∷ cs) b = ground (arith, Below-Apart n cs)

  pub Below-suc : (n : ℕ) (cs : Cells A) → Below n cs → Below (n + 1) cs
  Below-suc n [] b = tt
  Below-suc n ((a, x) ∷ cs) b = ground (arith, Below-suc n cs)

  pub Below-append : (n : ℕ) (cs ds : Cells A) → Below n cs → Below n ds → Below n (cs ++ ds)
  Below-append n [] ds b c = c
  Below-append n ((a, x) ∷ cs) ds b c = ground (arith, Below-append n cs ds)

  pub Below-split : (n : ℕ) (cs ds : Cells A) → Below n (cs ++ ds) → Below n cs × Below n ds
  Below-split n [] ds b = (tt, b)
  Below-split n ((a, x) ∷ cs) ds b = ground (arith, Below-split n cs ds)

  pub Apart-append : (n : ℕ) (cs ds : Cells A) → Apart n cs → Apart n ds → Apart n (cs ++ ds)
  Apart-append n [] ds b c = c
  Apart-append n ((a, x) ∷ cs) ds b c = ground (arith, Apart-append n cs ds)

  pub Apart-split : (n : ℕ) (cs ds : Cells A) → Apart n (cs ++ ds) → Apart n cs × Apart n ds
  Apart-split n [] ds b = (tt, b)
  Apart-split n ((a, x) ∷ cs) ds b = ground (arith, Apart-split n cs ds)

  -- A list with a cell taken out of its middle.
  pub Distinct-remove :
      (cs ds : Cells A) (a : ℕ) (x : A)
      → Distinct (cs ++ ((a, x) ∷ ds))
      → Apart a cs × Apart a ds × Distinct (cs ++ ds) × Distinct cs × Distinct ds
  Distinct-remove [] ds a x d = ground arith
  Distinct-remove ((b, y) ∷ cs) ds a x d =
      let (away, apart) = Apart-split b cs ((a, x) ∷ ds) d.0 in
      ground (arith, Distinct-remove cs ds a x d.1, Apart-append b cs ds, Apart-split b cs ds)

  pub Distinct-snoc :
      (cs : Cells A) (a : ℕ) (x : A) → Distinct cs → Apart a cs → Distinct (cs ++ ((a, x) ∷ []))
  Distinct-snoc [] a x d p = ground arith
  Distinct-snoc ((b, y) ∷ cs) a x d p =
      ground (arith, Distinct-snoc cs a x, Apart-append b cs ((a, x) ∷ []))

  -- A list is empty or has a last cell.
  pub snoc-cases :
      (cs : Cells A) → (cs ≡ []) ⊎ ((ds : Cells A) × (a : ℕ) × (x : A) × (cs ≡ ds ++ ((a, x) ∷ [])))
  snoc-cases [] = inl refl
  snoc-cases ((a, x) ∷ cs) = elim (snoc-cases cs) [
    | inl e ↦ inr ([], a, x, ap (◌∷◌ (a, x)) e)
    | inr (ds, b, y, e) ↦ inr ((a, x) ∷ ds, b, y, ap (◌∷◌ (a, x)) e)
  ]
