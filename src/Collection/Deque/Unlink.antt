-- ===== src/Collection/Deque/Unlink.antt =====
-- `unlinkFirst`, `unlinkLast` and `unlink` of gcollection/queue.go on a deque of known cells.
use gokits.Prelude.{
  ℕ, ◌≡◌, refl, sym, ◌∙◌, inl, inr, Option, none, some, [], ◌∷◌, ◌++◌, arith, length-append, subst,
}
use gokits.Collection.Heap.{Nodes, write_item, write_prev, write_next}
use gokits.Collection.Deque.{Deque, removed, unlink_first, unlink_last}
use gokits.Collection.Deque.Cells.{
  Cells, head_addr, Linked, Apart, Below-split, Distinct-remove, last_addr-append, snoc-cases,
}
use gokits.Collection.Deque.Links.{
  Linked-update, Linked-split, Linked-write_prev, Linked-write_next,
}
use gokits.Collection.Deque.Holds.{Holds}

module _ {ℓ} {A : Type ℓ} where
  -- A deque of these cells, of the same capacity as before.
  pub record Left (q q' : Deque A) (cs : Cells A) : Type ℓ where
    pub holds : Holds q' cs
    pub same_capacity : q'.capacity ≡ q.capacity

  pub unlink_first-empty : (q : Deque A) → Holds q [] → unlink_first q ≡ (none, q)
  unfolding unlink_first
  unlink_first-empty q v = ground arith

  pub unlink_last-empty : (q : Deque A) → Holds q [] → unlink_last q ≡ (none, q)
  unfolding unlink_last
  unlink_last-empty q v = ground arith

  cleared_first : Nodes A → ℕ → Nodes A
  cleared_first h f = write_next (write_item h f none) f (some f)

  cleared_last : Nodes A → ℕ → Nodes A
  cleared_last h l = write_prev (write_item h l none) l (some l)

  -- The deque once its only, its first or its last node is cut off.
  emptied : Deque A → Nodes A → Deque A
  emptied q h = removed (record q { nodes = h; first = none; last = none })

  without_first : Deque A → ℕ → ℕ → Deque A
  without_first q f n =
      removed (record q { nodes = write_prev (cleared_first q.nodes f) n none; first = some n })

  without_last : Deque A → ℕ → ℕ → Deque A
  without_last q l p =
      removed (record q { nodes = write_next (cleared_last q.nodes l) p none; last = some p })

  unlink_first-only :
      (q : Deque A) (f : ℕ) (x : A)
      → q.first ≡ some f
      → (q.nodes f).item ≡ some x
      → (q.nodes f).next ≡ none
      → unlink_first q ≡ (some x, emptied q (cleared_first q.nodes f))
  unfolding unlink_first emptied cleared_first
  unlink_first-only q f x e i n = ground arith

  unlink_first-more :
      (q : Deque A) (f n : ℕ) (x : A)
      → q.first ≡ some f
      → (q.nodes f).item ≡ some x
      → (q.nodes f).next ≡ some n
      → unlink_first q ≡ (some x, without_first q f n)
  unfolding unlink_first without_first cleared_first
  unlink_first-more q f n x e i t = ground arith

  unlink_last-only :
      (q : Deque A) (l : ℕ) (x : A)
      → q.last ≡ some l
      → (q.nodes l).item ≡ some x
      → (q.nodes l).prev ≡ none
      → unlink_last q ≡ (some x, emptied q (cleared_last q.nodes l))
  unfolding unlink_last emptied cleared_last
  unlink_last-only q l x e i n = ground arith

  unlink_last-more :
      (q : Deque A) (l p : ℕ) (x : A)
      → q.last ≡ some l
      → (q.nodes l).item ≡ some x
      → (q.nodes l).prev ≡ some p
      → unlink_last q ≡ (some x, without_last q l p)
  unfolding unlink_last without_last cleared_last
  unlink_last-more q l p x e i t = ground arith

  cleared_first-Linked :
      (h : Nodes A) (a : ℕ) (p : Option ℕ) (cs : Cells A) (n : Option ℕ)
      → Apart a cs
      → Linked h p cs n
      → Linked (cleared_first h a) p cs n
  unfolding cleared_first
  cleared_first-Linked h a p cs n s l =
      let h1 = write_item h a none in
      Linked-update h1 a (record (h1 a) { next = some a }) p cs n s
        (Linked-update h a (record (h a) { item = none }) p cs n s l)

  cleared_last-Linked :
      (h : Nodes A) (a : ℕ) (p : Option ℕ) (cs : Cells A) (n : Option ℕ)
      → Apart a cs
      → Linked h p cs n
      → Linked (cleared_last h a) p cs n
  unfolding cleared_last
  cleared_last-Linked h a p cs n s l =
      let h1 = write_item h a none in
      Linked-update h1 a (record (h1 a) { prev = some a }) p cs n s
        (Linked-update h a (record (h a) { item = none }) p cs n s l)

  emptied-Left :
      (q : Deque A) (h : Nodes A) (a : ℕ) (x : A) → Holds q ((a, x) ∷ []) → Left q (emptied q h) []
  unfolding emptied
  emptied-Left q h a x v = record { holds = ground arith; same_capacity = refl }

  without_first-Left :
      (q : Deque A) (f : ℕ) (x : A) (n : ℕ) (y : A) (cs : Cells A)
      → Holds q ((f, x) ∷ (n, y) ∷ cs)
      → Left q (without_first q f n) ((n, y) ∷ cs)
  unfolding without_first
  without_first-Left q f x n y cs v = record {
    holds = record {
      first_at = refl;
      last_at = v.last_at;
      counted = omega arith;
      fits = omega arith;
      below = v.below.1;
      distinct = v.distinct.1;
      linked =
          Linked-write_prev (cleared_first q.nodes f) (some f) none n y cs none v.distinct.1
            (cleared_first-Linked q.nodes f (some f) ((n, y) ∷ cs) none v.distinct.0 v.linked.3);
    };
    same_capacity = refl;
  }

  without_last-Left :
      (q : Deque A) (cs : Cells A) (p : ℕ) (y : A) (l : ℕ) (x : A)
      → Holds q ((cs ++ ((p, y) ∷ [])) ++ ((l, x) ∷ []))
      → Left q (without_last q l p) (cs ++ ((p, y) ∷ []))
  unfolding without_last
  without_last-Left q cs p y l x v =
      let rest = cs ++ ((p, y) ∷ []) in
      let (apart, _, _, distinct, _) = Distinct-remove rest [] l x v.distinct in
      let (p_apart, _, _, _, _) = Distinct-remove cs [] p y distinct in
      let (kept, _) = Linked-split q.nodes none rest ((l, x) ∷ []) none v.linked in
      let counted = length-append {ℓ} rest ((l, x) ∷ []) in
      record {
        holds = record {
          first_at = v.first_at ∙ head cs;
          last_at = sym (last_addr-append none cs ((p, y) ∷ []));
          counted = omega (arith, counted, v.counted);
          fits = omega arith;
          below = (Below-split q.fresh rest ((l, x) ∷ []) v.below).0;
          distinct = distinct;
          linked =
              Linked-write_next (cleared_last q.nodes l) none cs p y (some l) none p_apart
                (cleared_last-Linked q.nodes l none rest (some l) apart kept);
        };
        same_capacity = refl;
      }
    where
      head :
          (cs : Cells A)
          → head_addr ((cs ++ ((p, y) ∷ [])) ++ ((l, x) ∷ [])) none
            ≡ head_addr (cs ++ ((p, y) ∷ [])) none
      head [] = refl
      head ((b, z) ∷ cs) = refl

  -- `unlinkFirst` takes the first cell out and returns its item.
  pub unlink_first-Holds :
      (q : Deque A) (f : ℕ) (x : A) (cs : Cells A)
      → Holds q ((f, x) ∷ cs)
      → ((unlink_first q).0 ≡ some x) × Left q (unlink_first q).1 cs
  unlink_first-Holds q f x [] v =
      let e = unlink_first-only q f x v.first_at v.linked.0 v.linked.2 in
      rw e (refl, emptied-Left q _ f x v)
  unlink_first-Holds q f x ((n, y) ∷ cs) v =
      let e = unlink_first-more q f n x v.first_at v.linked.0 v.linked.2 in
      rw e (refl, without_first-Left q f x n y cs v)

  -- `unlinkLast` takes the last cell out and returns its item.
  pub unlink_last-Holds :
      (q : Deque A) (cs : Cells A) (l : ℕ) (x : A)
      → Holds q (cs ++ ((l, x) ∷ []))
      → ((unlink_last q).0 ≡ some x) × Left q (unlink_last q).1 cs
  unlink_last-Holds q cs l x v = elim (snoc-cases cs) [
    | inl none_yet ↦
        let w = subst (λ ds. Holds q (ds ++ ((l, x) ∷ []))) none_yet v in
        let e = unlink_last-only q l x w.last_at w.linked.0 w.linked.1 in
        rw (e, none_yet) (refl, emptied-Left q _ l x w)
    | inr (ds, p, y, split) ↦
        let w = subst (λ ds. Holds q (ds ++ ((l, x) ∷ []))) split v in
        let (_, at) = Linked-split q.nodes none (ds ++ ((p, y) ∷ [])) ((l, x) ∷ []) none w.linked in
        let before = at.1 ∙ last_addr-append none ds ((p, y) ∷ []) in
        let last = w.last_at ∙ last_addr-append none (ds ++ ((p, y) ∷ [])) ((l, x) ∷ []) in
        let e = unlink_last-more q l p x last at.0 before in
        rw (e, split) (refl, without_last-Left q ds p y l x w)
  ]
