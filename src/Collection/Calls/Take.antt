-- ===== src/Collection/Calls/Take.antt =====
-- Taking items out of the deque of gcollection/queue.go, at its ends and in its middle.
use mathlib.Core.List.{reverse-append, reverse-cons, reverse-reverse, append_assoc}
use gokits.Prelude.{
  ℕ, suc, ◌≡◌, refl, ap, sym, ◌∙◌, subst, inl, inr, Option, none, some, List, [], ◌∷◌, ◌++◌,
  reverse, arith,
}
use gokits.Prelude.Eq.{Eq}
use gokits.Collection.Bounded.{at_end, pop, remove}
use gokits.Collection.Deque.{Deque, unlink_first, unlink_last, unlink}
use gokits.Collection.Deque.Cells.{Cells, items, items-append, snoc-cases, last_addr, Linked}
use gokits.Collection.Deque.Holds.{Holds}
use gokits.Collection.Deque.Unlink.{
  Left, unlink_first-empty, unlink_last-empty, unlink_first-Holds, unlink_last-Holds,
}
use gokits.Collection.Deque.Remove.{unlink-Holds}
use gokits.Collection.Calls.{
  find_node, remove_first_occurrence, remove_last_occurrence, unlink_found,
}
use gokits.Collection.Calls.Search.{Search, find_node-next, find_node-prev}
use gokits.Collection.Calls.Refine.{Represents, Refines, items-reverse, unchanged, length-reverse}

module _ {ℓ} {A : Type ℓ} where
  Left-Represents :
      {q q' : Deque A} {cs : Cells A} (xs : List A)
      → Left q q' cs
      → items cs ≡ xs
      → Represents q.capacity xs q'
  Left-Represents {cs} xs l e = record {
    cells = cs;
    holds = l.holds;
    same_items = e;
    same_capacity = l.same_capacity;
  }

  took :
      {q : Deque A} {r : Option A × Deque A} {cs : Cells A} (x : A) (xs : List A)
      → (r.0 ≡ some x) × Left q r.1 cs
      → items cs ≡ xs
      → Refines q.capacity (some x, xs) (some r)
  took {r} x xs (i, l) e = record {
    after = r.1;
    returns = ap (λ y. some (y, r.1)) i;
    represents = Left-Represents xs l e;
  }

  pub unlink_first-Refines :
      (q : Deque A) (cs : Cells A)
      → Holds q cs
      → Refines q.capacity (pop (items cs)) (some (unlink_first q))
  unlink_first-Refines q [] v = record {
    after = q;
    returns = ap some (unlink_first-empty q v);
    represents = unchanged v;
  }
  unlink_first-Refines q ((a, x) ∷ cs) v = took x (items cs) (unlink_first-Holds q a x cs v) refl

  pub reverse_snoc :
      (cs : Cells A) (a : ℕ) (x : A)
      → reverse (items (cs ++ ((a, x) ∷ []))) ≡ x ∷ reverse (items cs)
  reverse_snoc cs a x =
      ap reverse (items-append cs ((a, x) ∷ [])) ∙ reverse-append (items cs) (x ∷ [])

  pub unlink_last-Refines :
      (q : Deque A) (cs : Cells A)
      → Holds q cs
      → Refines q.capacity (at_end pop (items cs)) (some (unlink_last q))
  unlink_last-Refines q cs v = elim (snoc-cases cs) [
    | inl none_yet ↦
        let w = subst (Holds q) none_yet v in
        rw none_yet (record {
          after = q;
          returns = ap some (unlink_last-empty q w);
          represents = unchanged w;
        })
    | inr (ds, a, x, split) ↦
        let w = subst (Holds q) split v in
        rw (split, reverse_snoc ds a x)
          (took x (reverse (reverse (items ds))) (unlink_last-Holds q ds a x w)
            (sym (reverse-reverse (items ds))))
  ]

  turned :
      (cs ds : Cells A) (a : ℕ) (x : A) (es : Cells A)
      → reverse cs ≡ ds ++ ((a, x) ∷ es)
      → cs ≡ reverse es ++ ((a, x) ∷ reverse ds)
  turned cs ds a x es split =
      sym (reverse-reverse cs)
      ∙ ap reverse split
      ∙ reverse-append ds ((a, x) ∷ es)
      ∙ ap (λ front. front ++ reverse ds) (reverse-cons (a, x) es)
      ∙ append_assoc (reverse es) ((a, x) ∷ []) (reverse ds)

module _ {ℓ} {A : Type ℓ} ⦃e : Eq A⦄ where
  pub remove_first-Refines :
      (q : Deque A) (cs : Cells A) (i : A)
      → Holds q cs
      → Refines q.capacity (remove i (items cs)) (remove_first_occurrence q (some i))
  unfolding remove_first_occurrence
  remove_first-Refines q cs i v = by_search (
      subst (λ p. Search i cs (find_node (λ n. n.next) (suc q.count) q.nodes i p)) (sym v.first_at)
        (find_node-next (suc q.count) q.nodes i none cs (omega arith) v.linked))
    where
      by_search :
          {r : Option (Option ℕ)}
          → Search i cs r
          → Refines q.capacity (remove i (items cs)) (unlink_found q r)
      by_search (inl (r, f)) =
          rw (r, f) (record { after = q; returns = refl; represents = unchanged v })
      by_search (inr (ds, a, x, es, split, r, f)) =
          rw (r, f)
            (record {
              after = unlink q a;
              returns = refl;
              represents =
                  Left-Represents (items (ds ++ es))
                    (unlink-Holds q ds a x es (subst (Holds q) split v)) refl;
            })

  pub remove_last-Refines :
      (q : Deque A) (cs : Cells A) (i : A)
      → Holds q cs
      → Refines q.capacity (at_end (remove i) (items cs)) (remove_last_occurrence q (some i))
  unfolding remove_last_occurrence
  remove_last-Refines q cs i v = by_search (
      subst (λ p. Search i (reverse cs) (find_node (λ n. n.prev) (suc q.count) q.nodes i p))
        (ap (last_addr none) (reverse-reverse cs) ∙ sym v.last_at)
        (find_node-prev (suc q.count) q.nodes i (reverse cs) none
          (omega (arith, length-reverse {ℓ} cs))
          (subst (λ ds. Linked q.nodes none ds none) (sym (reverse-reverse cs)) v.linked)))
    where
      by_search :
          {r : Option (Option ℕ)}
          → Search i (reverse cs) r
          → Refines q.capacity (at_end (remove i) (items cs)) (unlink_found q r)
      by_search (inl (r, f)) =
          rw (r, ← items-reverse cs, f, items-reverse cs, reverse-reverse)
            (record { after = q; returns = refl; represents = unchanged v })
      by_search (inr (ds, a, x, es, split, r, f)) =
          rw (r, ← items-reverse cs, f)
            (record {
              after = unlink q a;
              returns = refl;
              represents =
                  Left-Represents (reverse (items (ds ++ es)))
                    (unlink-Holds q (reverse es) a x (reverse ds)
                      (subst (Holds q) (turned cs ds a x es split) v))
                    (ap items (sym (reverse-append ds es)) ∙ items-reverse (ds ++ es));
            })
