-- ===== src/Collection/Calls/Search.antt =====
-- The search loops of `RemoveFirstOccurrence` and `RemoveLastOccurrence` in gcollection/queue.go.
use mathlib.Core.List.{reverse-cons}
use gokits.Prelude.{
  ℕ, zero, suc, ◌<◌, ◌≡◌, refl, ap, ◌∙◌, subst, ◌⊎◌, inl, inr, true, false, Option, none, some, [],
  ◌∷◌, ◌++◌, reverse, arith, length, Bool-cases,
}
use gokits.Prelude.Eq.{Eq, ◌==◌}
use gokits.Collection.Heap.{Node, Nodes}
use gokits.Collection.Bounded.{remove}
use gokits.Collection.Deque.Cells.{Cells, items, head_addr, last_addr, Linked, last_addr-append}
use gokits.Collection.Deque.Links.{Linked-split}
use gokits.Collection.Calls.{find_node}

module _ {ℓ} {A : Type ℓ} ⦃e : Eq A⦄ where
  -- The loop found the first cell with an item equal to `i`, or there is none.
  abbrev pub Search : A → Cells A → Option (Option ℕ) → Type ℓ
  Search i cs r =
      ((r ≡ some none) × (remove i (items cs) ≡ (false, items cs)))
      ⊎ ((ds : Cells A) × (a : ℕ) × (x : A) × (es : Cells A) × (cs ≡ ds ++ ((a, x) ∷ es))
          × (r ≡ some (some a))
          × (remove i (items cs) ≡ (true, items (ds ++ es))))

  Search-hit :
      (i : A) (a : ℕ) (x : A) (cs : Cells A)
      → (i == x) ≡ true
      → Search i ((a, x) ∷ cs) (some (some a))
  Search-hit i a x cs hit = inr ([], a, x, cs, refl, refl, rw hit)

  Search-miss :
      (i : A) (a : ℕ) (x : A) (cs : Cells A) {r : Option (Option ℕ)}
      → (i == x) ≡ false
      → Search i cs r
      → Search i ((a, x) ∷ cs) r
  Search-miss i a x cs miss (inl (r, f)) = inl (r, rw (miss, f))
  Search-miss i a x cs miss (inr (ds, b, y, es, split, r, f)) =
      inr ((a, x) ∷ ds, b, y, es, ap (◌∷◌ (a, x)) split, r, rw (miss, f))

  step-hit :
      (link : Node A → Option ℕ) (fuel : ℕ) (h : Nodes A) (i : A) (a : ℕ) (x : A)
      → (h a).item ≡ some x
      → (i == x) ≡ true
      → find_node link (suc fuel) h i (some a) ≡ some (some a)
  unfolding find_node
  step-hit link fuel h i a x at hit = ground arith

  step-miss :
      (link : Node A → Option ℕ) (fuel : ℕ) (h : Nodes A) (i : A) (a : ℕ) (x : A)
      → (h a).item ≡ some x
      → (i == x) ≡ false
      → find_node link (suc fuel) h i (some a) ≡ find_node link fuel h i (link (h a))
  unfolding find_node
  step-miss link fuel h i a x at miss = ground arith

  -- The loop along `next` ends, and finds the first occurrence.
  pub find_node-next :
      (fuel : ℕ) (h : Nodes A) (i : A) (p : Option ℕ) (cs : Cells A)
      → length cs < fuel
      → Linked h p cs none
      → Search i cs (find_node (λ n. n.next) fuel h i (head_addr cs none))
  unfolding find_node
  find_node-next zero h i p cs less l = absurd (omega arith)
  find_node-next (suc fuel) h i p [] less l = inl (refl, refl)
  find_node-next (suc fuel) h i p ((a, x) ∷ cs) less l = elim (Bool-cases (i == x)) [
    | inl hit ↦ rw (step-hit (λ n. n.next) fuel h i a x l.0 hit) (Search-hit i a x cs hit)
    | inr miss ↦
        rw (step-miss (λ n. n.next) fuel h i a x l.0 miss, l.2)
          (Search-miss i a x cs miss (find_node-next fuel h i (some a) cs (omega arith) l.3))
  ]

  -- The loop along `prev` ends, and finds the first occurrence from behind.
  pub find_node-prev :
      (fuel : ℕ) (h : Nodes A) (i : A) (rs : Cells A) (n : Option ℕ)
      → length rs < fuel
      → Linked h none (reverse rs) n
      → Search i rs (find_node (λ n. n.prev) fuel h i (last_addr none (reverse rs)))
  unfolding find_node
  find_node-prev zero h i rs n less l = absurd (omega arith)
  find_node-prev (suc fuel) h i [] n less l = inl (refl, refl)
  find_node-prev (suc fuel) h i ((a, x) ∷ rs) n less l =
      let turned = reverse-cons (a, x) rs in
      let back = subst (λ cs. Linked h none cs n) turned l in
      let (front, at) = Linked-split h none (reverse rs) ((a, x) ∷ []) n back in
      let last = ap (last_addr none) turned ∙ last_addr-append none (reverse rs) ((a, x) ∷ []) in
      rw last (elim (Bool-cases (i == x)) [
        | inl hit ↦ rw (step-hit (λ n. n.prev) fuel h i a x at.0 hit) (Search-hit i a x rs hit)
        | inr miss ↦
            rw (step-miss (λ n. n.prev) fuel h i a x at.0 miss, at.1)
              (Search-miss i a x rs miss (find_node-prev fuel h i rs (some a) (omega arith) front))
      ])
