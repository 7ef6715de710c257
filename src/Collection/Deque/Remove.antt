-- ===== src/Collection/Deque/Remove.antt =====
-- `unlink` of gcollection/queue.go at any node of a deque of known cells.
use mathlib.Core.List.{append-nil}
use gokits.Prelude.{
  ℕ, ◌≡◌, refl, ap₂, sym, ◌∙◌, inl, inr, none, some, [], ◌∷◌, ◌++◌, arith, length-append, subst,
}
use gokits.Collection.Heap.{write_item, write_prev, write_next}
use gokits.Collection.Deque.{Deque, removed, unlink_first, unlink_last, unlink, unlink_at}
use gokits.Collection.Deque.Cells.{
  Cells, head_addr, Below-append, Below-split, Distinct-remove, last_addr-append, snoc-cases,
}
use gokits.Collection.Deque.Links.{Linked-split, Linked-unlink}
use gokits.Collection.Deque.Holds.{Holds}
use gokits.Collection.Deque.Unlink.{Left, unlink_first-Holds, unlink_last-Holds}

module _ {ℓ} {A : Type ℓ} where
  unlink-head : (q : Deque A) (a : ℕ) → (q.nodes a).prev ≡ none → unlink q a ≡ (unlink_first q).1
  unfolding unlink
  unlink-head q a e = rw (e, unlink)

  unlink-tail :
      (q : Deque A) (a p : ℕ)
      → (q.nodes a).prev ≡ some p
      → (q.nodes a).next ≡ none
      → unlink q a ≡ (unlink_last q).1
  unfolding unlink
  unlink-tail q a p e f = ap₂ (unlink_at q a) e f

  without : Deque A → ℕ → ℕ → ℕ → Deque A
  without q p a n = removed (record q {
    nodes = write_item (write_prev (write_next q.nodes p (some n)) n (some p)) a none;
  })

  unlink-middle :
      (q : Deque A) (a p n : ℕ)
      → (q.nodes a).prev ≡ some p
      → (q.nodes a).next ≡ some n
      → unlink q a ≡ without q p a n
  unfolding unlink without
  unlink-middle q a p n e f = ap₂ (unlink_at q a) e f

  without-Left :
      (q : Deque A) (cs : Cells A) (p : ℕ) (y : A) (a : ℕ) (x : A) (n : ℕ) (z : A) (ds : Cells A)
      → Holds q ((cs ++ ((p, y) ∷ [])) ++ ((a, x) ∷ (n, z) ∷ ds))
      → Left q (without q p a n) ((cs ++ ((p, y) ∷ [])) ++ ((n, z) ∷ ds))
  unfolding without
  without-Left q cs p y a x n z ds v =
      let front = cs ++ ((p, y) ∷ []) in
      let back : Cells A = (n, z) ∷ ds in
      let (_, _, joined, _, _) = Distinct-remove front back a x v.distinct in
      let below = Below-split q.fresh front ((a, x) ∷ back) v.below in
      record {
        holds = record {
          first_at = v.first_at ∙ head cs;
          last_at =
              v.last_at
              ∙ last_addr-append none front ((a, x) ∷ back)
              ∙ sym (last_addr-append none front back);
          counted = omega (
            arith,
            v.counted,
            length-append {ℓ} front ((a, x) ∷ back),
            length-append {ℓ} front back,
          );
          fits = omega arith;
          below = Below-append q.fresh front back below.0 below.1.1;
          distinct = joined;
          linked = Linked-unlink q.nodes cs p y a x n z ds v.distinct v.linked;
        };
        same_capacity = refl;
      }
    where
      head :
          (cs : Cells A)
          → head_addr ((cs ++ ((p, y) ∷ [])) ++ ((a, x) ∷ (n, z) ∷ ds)) none
            ≡ head_addr ((cs ++ ((p, y) ∷ [])) ++ ((n, z) ∷ ds)) none
      head [] = refl
      head ((b, w) ∷ cs) = refl

  unlink_snoc :
      (q : Deque A) (cs : Cells A) (p : ℕ) (y : A) (a : ℕ) (x : A) (ds : Cells A)
      → Holds q ((cs ++ ((p, y) ∷ [])) ++ ((a, x) ∷ ds))
      → Left q (unlink q a) ((cs ++ ((p, y) ∷ [])) ++ ds)
  unlink_snoc q cs p y a x [] v =
      let front = cs ++ ((p, y) ∷ []) in
      let (_, at) = Linked-split q.nodes none front ((a, x) ∷ []) none v.linked in
      let before = at.1 ∙ last_addr-append none cs ((p, y) ∷ []) in
      rw (unlink-tail q a p before at.2, append-nil) (unlink_last-Holds q front a x v).1
  unlink_snoc q cs p y a x ((n, z) ∷ ds) v =
      let front = cs ++ ((p, y) ∷ []) in
      let (_, at) = Linked-split q.nodes none front ((a, x) ∷ (n, z) ∷ ds) none v.linked in
      let before = at.1 ∙ last_addr-append none cs ((p, y) ∷ []) in
      rw (unlink-middle q a p n before at.2) (without-Left q cs p y a x n z ds v)

  -- `unlink` takes the cell at the address out, wherever it stands.
  pub unlink-Holds :
      (q : Deque A) (cs : Cells A) (a : ℕ) (x : A) (ds : Cells A)
      → Holds q (cs ++ ((a, x) ∷ ds))
      → Left q (unlink q a) (cs ++ ds)
  unlink-Holds q cs a x ds v = elim (snoc-cases cs) [
    | inl none_yet ↦
        let w = subst (λ es. Holds q (es ++ ((a, x) ∷ ds))) none_yet v in
        rw (none_yet, unlink-head q a w.linked.1) (unlink_first-Holds q a x ds w).1
    | inr (es, p, y, split) ↦
        let w = subst (λ es. Holds q (es ++ ((a, x) ∷ ds))) split v in
        rw split (unlink_snoc q es p y a x ds w)
  ]
