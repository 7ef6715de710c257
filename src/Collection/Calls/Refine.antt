-- ===== src/Collection/Calls/Refine.antt =====
-- Each call of gcollection/queue.go does to the cells what the bounded list does to the items.
use mathlib.Core.List.{reverse-cons, reverse-reverse}
use gokits.Prelude.{
  ℕ, ◌≡◌, refl, ap, sym, ◌∙◌, inl, inr, Option, some, List, [], ◌∷◌, ◌++◌, reverse, arith, length,
  length-append, ltb, Bool-cases, ltb→lt, ltb_false→le,
}
use gokits.Collection.Bounded.{at_end, push}
use gokits.Collection.Deque.{Deque, link_first, link_last}
use gokits.Collection.Deque.Cells.{Cells, items, items-append, length-items}
use gokits.Collection.Deque.Holds.{Holds}
use gokits.Collection.Deque.Link.{
  link_first-full, link_last-full, link_first-Holds, link_last-Holds,
}

module _ {ℓ} {A : Type ℓ} where
  -- The deque holds these items, first to last, with this capacity.
  pub record Represents (cap : ℕ) (xs : List A) (q : Deque A) : Type ℓ where
    pub cells : Cells A
    pub holds : Holds q cells
    pub same_items : items cells ≡ xs
    pub same_capacity : q.capacity ≡ cap

  -- The outcome is no panic, and is the answer of the list with the list that it leaves.
  pub record Refines {κ} {B : Type κ} (cap : ℕ) (spec : B × List A) (out : Option (B × Deque A))
      : Type (ℓ ⊔ κ) where
    pub after : Deque A
    pub returns : out ≡ some (spec.0, after)
    pub represents : Represents cap spec.1 after

  pub items-reverse : (cs : Cells A) → items (reverse cs) ≡ reverse (items cs)
  items-reverse [] = refl
  items-reverse ((a, x) ∷ cs) =
      ap items (reverse-cons (a, x) cs)
      ∙ items-append (reverse cs) ((a, x) ∷ [])
      ∙ ap (λ ys. ys ++ (x ∷ [])) (items-reverse cs)
      ∙ sym (reverse-cons x (items cs))

  pub length-reverse : (xs : List A) → length (reverse xs) ≡ length xs
  length-reverse [] = refl
  length-reverse (x ∷ xs) = omega (
    arith,
    ap length (reverse-cons x xs),
    length-append {ℓ} (reverse xs) (x ∷ []),
    length-reverse xs,
  )

  module _ {q : Deque A} {cs : Cells A} (v : Holds q cs) where
    pub counted_items : length (items cs) ≡ q.count
    counted_items = length-items cs ∙ sym v.counted

    pub unchanged : Represents q.capacity (items cs) q
    unchanged = record { cells = cs; holds = v; same_items = refl; same_capacity = refl }

    pub link_first-Refines :
        (x : A) → Refines q.capacity (push q.capacity x (items cs)) (link_first q x)
    link_first-Refines x = rw counted_items (elim (Bool-cases (ltb q.count q.capacity)) [
      | inl room ↦
          let (q', out, w, cap) = link_first-Holds q x cs v (ltb→lt q.count q.capacity room) in
          rw room (record {
            after = q';
            returns = out;
            represents = record {
              cells = (q.fresh, x) ∷ cs;
              holds = w;
              same_items = refl;
              same_capacity = cap;
            };
          })
      | inr full ↦ rw full (record {
        after = q;
        returns = link_first-full q x (ltb_false→le q.count q.capacity full);
        represents = unchanged;
      })
    ])

    pub link_last-Refines :
        (x : A) → Refines q.capacity (at_end (push q.capacity x) (items cs)) (link_last q x)
    link_last-Refines x =
        rw (length-reverse (items cs), counted_items)
          (elim (Bool-cases (ltb q.count q.capacity)) [
            | inl room ↦
                let (q', out, w, cap) = link_last-Holds q x cs v (ltb→lt q.count q.capacity room) in
                rw room (record {
                  after = q';
                  returns = out;
                  represents = record {
                    cells = cs ++ ((q.fresh, x) ∷ []);
                    holds = w;
                    same_items =
                        items-append cs ((q.fresh, x) ∷ [])
                        ∙ ap (λ ys. ys ++ (x ∷ [])) (sym (reverse-reverse (items cs)))
                        ∙ sym (reverse-cons x (reverse (items cs)));
                    same_capacity = cap;
                  };
                })
            | inr full ↦
                rw (full, reverse-reverse)
                  (record {
                    after = q;
                    returns = link_last-full q x (ltb_false→le q.count q.capacity full);
                    represents = unchanged;
                  })
          ])
