-- ===== src/Collection/Calls/Answers.antt =====
-- The deque of gcollection/queue.go against the bounded list, call by call and over any sequence.
use gokits.Prelude.{
  ℕ, suc, ◌≡◌, refl, ap, ap₂, inl, inr, if◌then◌else◌, replicate, sym, ◌∙◌, subst, Bool, Option,
  none, some, List, [], ◌∷◌, map, reverse, arith,
}
use gokits.Prelude.Eq.{Eq}
use gokits.Collection.Api.{
  deque_full, Call, offers_first, offers_last, adds_first, adds_last, removes_first, removes_last,
  polls_first, polls_last, peeks_first, peeks_last, sizes, slices, Reply, accepted, added, item,
  number,
}
use gokits.Collection.Bounded.{peek, answer, answers}
use gokits.Collection.Deque.{Deque, new_deque}
use gokits.Collection.Deque.Cells.{Cells, items, snoc-cases, last_addr-append}
use gokits.Collection.Deque.Links.{Linked-split}
use gokits.Collection.Deque.Holds.{Holds, new_deque-Holds}
use gokits.Collection.Calls.{
  offer_first, offer_last, add_first, add_last, offered, poll_first, poll_last, peek_first,
  peek_last, size, to_slice, item_at, fill, remove_first_occurrence, remove_last_occurrence, reply,
  call, calls,
}
use gokits.Collection.Calls.Slice.{fill-Linked}
use gokits.Collection.Calls.Refine.{
  Represents, Refines, link_first-Refines, link_last-Refines, unchanged, counted_items,
}
use gokits.Collection.Calls.Take.{
  unlink_first-Refines, unlink_last-Refines, remove_first-Refines, remove_last-Refines,
  reverse_snoc,
}

module _ {ℓ} {A : Type ℓ} where
  reply-Refines {κ} :
      {B : Type κ} (f : B → Reply A) {cap : ℕ} {spec : B × List A} {out : Option (B × Deque A)}
      → Refines cap spec out
      → Refines cap (f spec.0, spec.1) (reply f out)
  unfolding reply
  reply-Refines f {spec} r = record {
    after = r.after;
    returns = ap (reply f) r.returns;
    represents = r.represents;
  }

  offered-Refines :
      {cap : ℕ} {spec : Bool × List A} {out : Option (Bool × Deque A)}
      → Refines cap spec out
      → Refines cap
          (added (if spec.0 then none else some deque_full), spec.1)
          (reply added (offered out))
  unfolding reply
  offered-Refines {spec} r = record {
    after = r.after;
    returns = ap (λ o. reply added (offered o)) r.returns;
    represents = r.represents;
  }

  peek_first-eq : (q : Deque A) (cs : Cells A) → Holds q cs → peek_first q ≡ peek (items cs)
  unfolding peek_first
  peek_first-eq q [] v = ap (item_at q.nodes) v.first_at
  peek_first-eq q ((a, x) ∷ cs) v = ap (item_at q.nodes) v.first_at ∙ v.linked.0

  peek_last-eq : (q : Deque A) (cs : Cells A) → Holds q cs → peek_last q ≡ peek (reverse (items cs))
  unfolding peek_last
  peek_last-eq q cs v = elim (snoc-cases cs) [
    | inl none_yet ↦
        let w = subst (Holds q) none_yet v in rw none_yet (ap (item_at q.nodes) w.last_at)
    | inr (ds, a, x, split) ↦
        let w = subst (Holds q) split v in
        let (_, at) = Linked-split q.nodes none ds ((a, x) ∷ []) none w.linked in
        rw (split, reverse_snoc ds a x)
          (ap (item_at q.nodes) (w.last_at ∙ last_addr-append none ds ((a, x) ∷ [])) ∙ at.0)
  ]

  to_slice-eq : (q : Deque A) (cs : Cells A) → Holds q cs → to_slice q ≡ some (map some (items cs))
  unfolding to_slice
  to_slice-eq q cs v =
      let goal = λ (n : ℕ) (p : Option ℕ). fill (suc q.count) q.nodes p 0 (replicate n none) in
      ap₂ goal v.counted v.first_at
      ∙ fill-Linked (suc q.count) q.nodes none cs [] (omega arith) v.linked

  asked :
      {q : Deque A} {cs : Cells A} {r s : Reply A}
      → Holds q cs
      → r ≡ s
      → Refines q.capacity (s, items cs) (some (r, q))
  asked {q} v e = record { after = q; returns = ap (λ t. some (t, q)) e; represents = unchanged v }

module _ {ℓ} {A : Type ℓ} ⦃e : Eq A⦄ where
  -- On a deque of these cells.
  call-Holds :
      (q : Deque A) (cs : Cells A) (c : Call A)
      → Holds q cs
      → Refines q.capacity (answer q.capacity (items cs) c) (call q c)
  unfolding call answer offer_first offer_last add_first add_last poll_first poll_last size
      remove_first_occurrence remove_last_occurrence
  call-Holds q cs (offers_first none) v = asked v refl
  call-Holds q cs (offers_first (some x)) v = reply-Refines accepted (link_first-Refines v x)
  call-Holds q cs (offers_last none) v = asked v refl
  call-Holds q cs (offers_last (some x)) v = reply-Refines accepted (link_last-Refines v x)
  call-Holds q cs (adds_first none) v = asked v refl
  call-Holds q cs (adds_first (some x)) v = offered-Refines (link_first-Refines v x)
  call-Holds q cs (adds_last none) v = asked v refl
  call-Holds q cs (adds_last (some x)) v = offered-Refines (link_last-Refines v x)
  call-Holds q cs (removes_first none) v = asked v refl
  call-Holds q cs (removes_first (some x)) v =
      reply-Refines accepted (remove_first-Refines q cs x v)
  call-Holds q cs (removes_last none) v = asked v refl
  call-Holds q cs (removes_last (some x)) v = reply-Refines accepted (remove_last-Refines q cs x v)
  call-Holds q cs polls_first v = reply-Refines item (unlink_first-Refines q cs v)
  call-Holds q cs polls_last v = reply-Refines item (unlink_last-Refines q cs v)
  call-Holds q cs peeks_first v = asked v (ap item (peek_first-eq q cs v))
  call-Holds q cs peeks_last v = asked v (ap item (peek_last-eq q cs v))
  call-Holds q cs sizes v = asked v (ap number (sym (counted_items v)))
  call-Holds q cs slices v = rw (to_slice-eq q cs v, call) (asked v refl)

  -- Every method that does not wait, on every argument, answers as the bounded list does, leaves a deque
  -- that holds the list's new items in order with links sound both ways, and neither follows a nil
  -- pointer, nor leaves a slice's bounds, nor loops for ever.
  pub call-Refines :
      (cap : ℕ) (xs : List A) (q : Deque A) (c : Call A)
      → Represents cap xs q
      → Refines cap (answer cap xs c) (call q c)
  call-Refines cap xs q c r =
      subst (λ n. Refines n (answer n xs c) (call q c)) r.same_capacity
        (subst (λ ys. Refines q.capacity (answer q.capacity ys c) (call q c)) r.same_items
          (call-Holds q r.cells c r.holds))

  calls-Represents :
      (cap : ℕ) (xs : List A) (q : Deque A) (cs : List (Call A))
      → Represents cap xs q
      → calls q cs ≡ some (answers cap xs cs)
  unfolding calls answers
  calls-Represents cap xs q [] r = refl
  calls-Represents cap xs q (c ∷ cs) r =
      let s = call-Refines cap xs q c r in
      rw (s.returns, calls, calls-Represents cap (answer cap xs c).1 s.after cs s.represents)

  pub new_deque-Represents : (cap : ℕ) → Represents cap [] (new_deque {A = A} cap)
  unfolding new_deque
  new_deque-Represents cap = record {
    cells = [];
    holds = new_deque-Holds cap;
    same_items = refl;
    same_capacity = refl;
  }

  -- From `NewDeque` on, no sequence of such calls tells the deque from the bounded list.
  pub calls_refine :
      (cap : ℕ) (cs : List (Call A)) → calls (new_deque cap) cs ≡ some (answers cap [] cs)
  calls_refine cap cs = calls-Represents cap [] (new_deque cap) cs (new_deque-Represents cap)
