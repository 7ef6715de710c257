-- ===== src/Collection/Deque/Link.antt =====
-- `linkFirst` and `linkLast` of gcollection/queue.go on a deque of known cells.
use gokits.Prelude.{
  ℕ, ◌+◌, ◌≤◌, ◌<◌, ◌≡◌, refl, sym, ◌∙◌, inl, inr, true, false, none, some, [], ◌∷◌, ◌++◌, arith,
  length-append, subst,
}
use gokits.Collection.Heap.{update, new_node, write_prev, write_next}
use gokits.Collection.Deque.{Deque, added, link_first, link_last}
use gokits.Collection.Deque.Cells.{
  Cells, head_addr, last_addr, Linked, Below-Apart, Below-suc, Below-append, Below-split,
  Distinct-remove, Distinct-snoc, last_addr-append, snoc-cases,
}
use gokits.Collection.Deque.Links.{
  Linked-update, Linked-append, Linked-write_prev, Linked-write_next,
}
use gokits.Collection.Deque.Holds.{Holds, last_addr-some}

module _ {ℓ} {A : Type ℓ} where
  pub link_first-full :
      (q : Deque A) (e : A) → q.capacity ≤ q.count → link_first q e ≡ some (false, q)
  unfolding link_first
  link_first-full q e h = ground arith

  pub link_last-full :
      (q : Deque A) (e : A) → q.capacity ≤ q.count → link_last q e ≡ some (false, q)
  unfolding link_last
  link_last-full q e h = ground arith

  -- The deque once its first, or only, or last node is linked.
  linked_alone : Deque A → A → Deque A
  linked_alone q e = added (record q {
    nodes = update q.nodes q.fresh (new_node e none none);
    first = some q.fresh;
    last = some q.fresh;
  })

  linked_before : Deque A → A → ℕ → Deque A
  linked_before q e f = added (record q {
    nodes = write_prev (update q.nodes q.fresh (new_node e none (some f))) f (some q.fresh);
    first = some q.fresh;
  })

  linked_behind : Deque A → A → ℕ → Deque A
  linked_behind q e l = added (record q {
    nodes = write_next (update q.nodes q.fresh (new_node e (some l) none)) l (some q.fresh);
    last = some q.fresh;
  })

  alone-Holds :
      (q : Deque A) (e : A)
      → Holds q []
      → q.count < q.capacity
      → Holds (linked_alone q e) ((q.fresh, e) ∷ [])
  unfolding linked_alone
  alone-Holds q e v room = ground arith

  before-Holds :
      (q : Deque A) (e : A) (a : ℕ) (x : A) (cs : Cells A)
      → Holds q ((a, x) ∷ cs)
      → q.count < q.capacity
      → Holds (linked_before q e a) ((q.fresh, e) ∷ (a, x) ∷ cs)
  unfolding linked_before
  before-Holds q e a x cs v room =
      let new = new_node e none (some a) in
      let moved =
        Linked-write_prev (update q.nodes q.fresh new) none (some q.fresh) a x cs none v.distinct (
          Linked-update q.nodes q.fresh new none ((a, x) ∷ cs) none
            (Below-Apart q.fresh ((a, x) ∷ cs) v.below) v.linked) in
      ground (
        arith,
        moved,
        Below-Apart q.fresh ((a, x) ∷ cs) v.below,
        Below-suc q.fresh ((a, x) ∷ cs) v.below,
      )

  behind-Holds :
      (q : Deque A) (e : A) (cs : Cells A) (a : ℕ) (x : A)
      → Holds q (cs ++ ((a, x) ∷ []))
      → q.count < q.capacity
      → Holds (linked_behind q e a) ((cs ++ ((a, x) ∷ [])) ++ ((q.fresh, e) ∷ []))
  unfolding linked_behind
  behind-Holds q e cs a x v room =
      let before = cs ++ ((a, x) ∷ []) in
      let new = new_node e (some a) none in
      let h1 = update q.nodes q.fresh new in
      let away = Below-Apart q.fresh before v.below in
      let (apart, _, _, _, _) = Distinct-remove cs [] a x v.distinct in
      let last : last_addr none before ≡ some a = last_addr-append none cs ((a, x) ∷ []) in
      let kept =
        Linked-write_next h1 none cs a x none (some q.fresh) apart
          (Linked-update q.nodes q.fresh new none before none away v.linked) in
      record {
        first_at = v.first_at ∙ head cs;
        last_at = sym (last_addr-append none before ((q.fresh, e) ∷ []));
        counted = omega (arith, v.counted, length-append {ℓ} before ((q.fresh, e) ∷ []));
        fits = omega arith;
        below =
            Below-append (q.fresh + 1) before ((q.fresh, e) ∷ []) (Below-suc q.fresh before v.below)
              (omega arith);
        distinct = Distinct-snoc before q.fresh e v.distinct away;
        linked =
            Linked-append _ none before ((q.fresh, e) ∷ []) none kept
              (rw last (at (Below-split q.fresh cs ((a, x) ∷ []) v.below).1.0));
      }
    where
      head :
          (cs : Cells A)
          → head_addr (cs ++ ((a, x) ∷ [])) none
            ≡ head_addr ((cs ++ ((a, x) ∷ [])) ++ ((q.fresh, e) ∷ [])) none
      head [] = refl
      head ((b, y) ∷ cs) = refl

      at : a < q.fresh → Linked (linked_behind q e a).nodes (some a) ((q.fresh, e) ∷ []) none
      at less = ground arith

  link_first-alone :
      (q : Deque A) (e : A)
      → q.last ≡ none
      → q.first ≡ none
      → q.count < q.capacity
      → link_first q e ≡ some (true, linked_alone q e)
  unfolding link_first linked_alone
  link_first-alone q e l f room = ground arith

  link_first-before :
      (q : Deque A) (e : A) (a b : ℕ)
      → q.last ≡ some b
      → q.first ≡ some a
      → q.count < q.capacity
      → link_first q e ≡ some (true, linked_before q e a)
  unfolding link_first linked_before
  link_first-before q e a b l f room = ground arith

  link_last-alone :
      (q : Deque A) (e : A)
      → q.last ≡ none
      → q.first ≡ none
      → q.count < q.capacity
      → link_last q e ≡ some (true, linked_alone q e)
  unfolding link_last linked_alone
  link_last-alone q e l f room = ground arith

  link_last-behind :
      (q : Deque A) (e : A) (a b : ℕ)
      → q.last ≡ some b
      → q.first ≡ some a
      → q.count < q.capacity
      → link_last q e ≡ some (true, linked_behind q e b)
  unfolding link_last linked_behind
  link_last-behind q e a b l f room = ground arith

  -- With room, `linkFirst` puts a new cell in front.
  pub link_first-Holds :
      (q : Deque A) (e : A) (cs : Cells A)
      → Holds q cs
      → q.count < q.capacity
      → (q' : Deque A) × (link_first q e ≡ some (true, q'))
        × Holds q' ((q.fresh, e) ∷ cs)
        × (q'.capacity ≡ q.capacity)
  unfolding linked_alone linked_before
  link_first-Holds q e [] v room = (
    linked_alone q e,
    link_first-alone q e v.last_at v.first_at room,
    alone-Holds q e v room,
    refl,
  )
  link_first-Holds q e ((a, x) ∷ cs) v room =
      let (b, l) = last_addr-some a cs in
      (
        linked_before q e a,
        link_first-before q e a b (v.last_at ∙ l) v.first_at room,
        before-Holds q e a x cs v room,
        refl,
      )

  first_of_snoc :
      (cs : Cells A) (a : ℕ) (x : A) → (b : ℕ) × (head_addr (cs ++ ((a, x) ∷ [])) none ≡ some b)
  first_of_snoc [] a x = (a, refl)
  first_of_snoc ((b, y) ∷ cs) a x = (b, refl)

  -- With room, `linkLast` puts a new cell behind.
  pub link_last-Holds :
      (q : Deque A) (e : A) (cs : Cells A)
      → Holds q cs
      → q.count < q.capacity
      → (q' : Deque A) × (link_last q e ≡ some (true, q'))
        × Holds q' (cs ++ ((q.fresh, e) ∷ []))
        × (q'.capacity ≡ q.capacity)
  unfolding linked_alone linked_behind
  link_last-Holds q e cs v room = elim (snoc-cases cs) [
    | inl none_yet ↦
        let w = subst (Holds q) none_yet v in
        (
          linked_alone q e,
          link_last-alone q e w.last_at w.first_at room,
          rw none_yet (alone-Holds q e w room),
          refl,
        )
    | inr (ds, a, x, split) ↦
        let w = subst (Holds q) split v in
        let (b, f) = first_of_snoc ds a x in
        (
          linked_behind q e a,
          link_last-behind q e b a (w.last_at ∙ last_addr-append none ds ((a, x) ∷ []))
              (w.first_at ∙ f) room,
          rw split (behind-Holds q e ds a x w room),
          refl,
        )
  ]
