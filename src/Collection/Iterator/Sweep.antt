-- ===== src/Collection/Iterator/Sweep.antt =====
-- A walk over the deque of gcollection/queue.go with one of its iterators, removing on the way.
use mathlib.Core.List.{reverse-cons, reverse-reverse, append-nil}
use gokits.Prelude.{
  ℕ, zero, suc, ◌≤◌, ◌≡◌, refl, ap, sym, ◌∙◌, subst, Bool, true, false, Bool-cases, inl, inr, none,
  some, Option, List, [], ◌∷◌, ◌++◌, reverse, length, arith, if◌then◌else◌,
}
use gokits.Collection.Deque.{Deque, unlink}
use gokits.Collection.Deque.Cells.{Cells, items, length-items, head_addr}
use gokits.Collection.Deque.Holds.{Holds}
use gokits.Collection.Calls.{item_at}
use gokits.Collection.Calls.Refine.{Represents, items-reverse, length-reverse}
use gokits.Collection.Iterator.{
  Iterator, next_node, new_iterator, has_next, succ, advance, next_of, remove_last_ret, seen, sweep,
}
use gokits.Collection.Iterator.Position.{
  whole, passed, whole-passed, visited, unlink-visited, in_order, whole-in_order,
  first_node-in_order,
}

module _ {ℓ} {A : Type ℓ} where
  -- The items that `p` does not pick.
  unfoldable pub unpicked : (A → Bool) → List A → List A
  unpicked p [] = []
  unpicked p (x ∷ xs) = let rest = unpicked p xs in if p x then rest else x ∷ rest

  unpicked-append :
      (p : A → Bool) (xs ys : List A) → unpicked p (xs ++ ys) ≡ unpicked p xs ++ unpicked p ys
  unfolding unpicked
  unpicked-append p [] ys = refl
  unpicked-append p (x ∷ xs) ys = elim (Bool-cases (p x)) [
    | inl t ↦ rw t (unpicked-append p xs ys)
    | inr f ↦ rw f (ap (λ l. x ∷ l) (unpicked-append p xs ys))
  ]

  unpicked_one :
      (p : A → Bool) (x : A) (xs : List A)
      → reverse (unpicked p xs) ++ unpicked p (x ∷ []) ≡ reverse (unpicked p (x ∷ xs))
  unfolding unpicked
  unpicked_one p x xs = elim (Bool-cases (p x)) [
    | inl t ↦ rw t (append-nil (reverse (unpicked p xs)))
    | inr f ↦ rw f (sym (reverse-cons x (unpicked p xs)))
  ]

  unpicked-reverse :
      (p : A → Bool) (xs : List A) → unpicked p (reverse xs) ≡ reverse (unpicked p xs)
  unfolding unpicked
  unpicked-reverse p [] = refl
  unpicked-reverse p (x ∷ xs) =
      ap (unpicked p) (reverse-cons x xs)
      ∙ unpicked-append p (reverse xs) (x ∷ [])
      ∙ ap (λ l. l ++ unpicked p (x ∷ [])) (unpicked-reverse p xs)
      ∙ unpicked_one p x xs

  -- The same for cells.
  abbrev kept : (A → Bool) → Cells A → Cells A
  kept p [] = []
  kept p ((a, x) ∷ cs) = let rest = kept p cs in if p x then rest else (a, x) ∷ rest

  items-kept : (p : A → Bool) (cs : Cells A) → items (kept p cs) ≡ unpicked p (items cs)
  unfolding unpicked
  items-kept p [] = refl
  items-kept p ((a, x) ∷ cs) = elim (Bool-cases (p x)) [
    | inl t ↦ rw t (items-kept p cs)
    | inr f ↦ rw f (ap (λ l. x ∷ l) (items-kept p cs))
  ]

  kept_skip :
      (p : A → Bool) (a : ℕ) (x : A) (cs : Cells A) → p x ≡ true → kept p ((a, x) ∷ cs) ≡ kept p cs
  kept_skip p a x cs t = rw t refl

  kept_stay :
      (p : A → Bool) (a : ℕ) (x : A) (cs : Cells A)
      → p x ≡ false
      → kept p ((a, x) ∷ cs) ≡ (a, x) ∷ kept p cs
  kept_stay p a x cs f = rw f refl

  abbrev head_item : Cells A → Option A
  head_item [] = none
  head_item ((a, x) ∷ cs) = some x

  -- An iterator before these cells.
  abbrev before : Cells A → Option ℕ → Bool → Iterator A
  before rest l desc = record {
    next = head_addr rest none;
    next_item = head_item rest;
    last_ret = l;
    desc = desc;
  }

  succ_end :
      (fuel : ℕ) (desc : Bool) (q : Deque A) (n : ℕ)
      → next_node desc (q.nodes n) ≡ none
      → succ (suc fuel) desc q n ≡ some none
  unfolding succ
  succ_end fuel desc q n e = ground (arith, e)

  succ_next :
      (fuel : ℕ) (desc : Bool) (q : Deque A) (n s : ℕ) (x : A)
      → next_node desc (q.nodes n) ≡ some s
      → (q.nodes s).item ≡ some x
      → succ (suc fuel) desc q n ≡ some (some s)
  unfolding succ
  succ_next fuel desc q n s x e i = ground (arith, e, i)

  succ_visited :
      (fuel : ℕ) (desc : Bool) (q : Deque A) (behind : Cells A) (a : ℕ) (x : A) (rest : Cells A)
      → Holds q (whole desc behind ((a, x) ∷ rest))
      → (succ (suc fuel) desc q a ≡ some (head_addr rest none))
        × (item_at q.nodes (head_addr rest none) ≡ head_item rest)
  succ_visited fuel desc q behind a x [] v =
      (succ_end fuel desc q a (visited desc q behind a x [] v).1, refl)
  succ_visited fuel desc q behind a x ((b, y) ∷ rest) v =
      let (_, link) = visited desc q behind a x ((b, y) ∷ rest) v in
      let w = subst (Holds q) (whole-passed desc behind (a, x) ((b, y) ∷ rest)) v in
      let (item, _) = visited desc q (passed desc behind (a, x)) b y rest w in
      (succ_next fuel desc q a b y link item, item)

  -- `Next` returns the item of the first cell before it and moves past the cell.
  pub next_of-Holds :
      (fuel : ℕ) (desc : Bool) (q : Deque A) (behind : Cells A) (a : ℕ) (x : A) (rest : Cells A)
      (l : Option ℕ)
      → Holds q (whole desc behind ((a, x) ∷ rest))
      → next_of (suc fuel) q (before ((a, x) ∷ rest) l desc)
        ≡ some (some x, before rest (some a) desc)
  unfolding next_of advance succ
  next_of-Holds fuel desc q behind a x rest l v =
      let (s, i) = succ_visited fuel desc q behind a x rest v in rw (s, i) refl

  -- `Remove` takes out the cell that `Next` has passed.
  removed_cell :
      (desc : Bool) (q : Deque A) (a : ℕ) (x : A) (rest : Cells A)
      → (q.nodes a).item ≡ some x
      → remove_last_ret q (before rest (some a) desc) ≡ some (unlink q a, before rest none desc)
  unfolding remove_last_ret
  removed_cell desc q a x rest e = ground (arith, e)

  -- One round of the walk, where `p` picks the item and where it does not.
  sweep_picks :
      (fuel : ℕ) (p : A → Bool) (n : ℕ) (desc : Bool) (q : Deque A) (behind : Cells A) (a : ℕ)
      (x : A) (rest : Cells A) (l : Option ℕ)
      → Holds q (whole desc behind ((a, x) ∷ rest))
      → p x ≡ true
      → sweep (suc fuel) p (suc n) q (before ((a, x) ∷ rest) l desc)
        ≡ seen x (sweep (suc fuel) p n (unlink q a) (before rest none desc))
  unfolding sweep has_next
  sweep_picks fuel p n desc q behind a x rest l v t =
      let e = next_of-Holds fuel desc q behind a x rest l v in
      let r = removed_cell desc q a x rest (visited desc q behind a x rest v).0 in
      rw (e, sweep, t, r) refl

  sweep_keeps :
      (fuel : ℕ) (p : A → Bool) (n : ℕ) (desc : Bool) (q : Deque A) (behind : Cells A) (a : ℕ)
      (x : A) (rest : Cells A) (l : Option ℕ)
      → Holds q (whole desc behind ((a, x) ∷ rest))
      → p x ≡ false
      → sweep (suc fuel) p (suc n) q (before ((a, x) ∷ rest) l desc)
        ≡ seen x (sweep (suc fuel) p n q (before rest (some a) desc))
  unfolding sweep has_next
  sweep_keeps fuel p n desc q behind a x rest l v f =
      let e = next_of-Holds fuel desc q behind a x rest l v in rw (e, sweep, f) refl

  -- The walk saw these items, and left a deque of these cells.
  record Swept (p : A → Bool) (desc : Bool) (behind rest : Cells A) (cap : ℕ)
      (out : Option (List A × Deque A)) : Type ℓ where
    after : Deque A
    returns : out ≡ some (items rest, after)
    cells : Cells A
    are_kept : cells ≡ kept p rest
    holds : Holds after (whole desc behind cells)
    same_capacity : after.capacity ≡ cap

  sweep-Swept :
      (fuel : ℕ) (p : A → Bool) (n : ℕ) (desc : Bool) (q : Deque A) (behind rest : Cells A)
      (l : Option ℕ)
      → length rest ≤ n
      → Holds q (whole desc behind rest)
      → Swept p desc behind rest q.capacity (sweep (suc fuel) p n q (before rest l desc))
  unfolding sweep has_next
  sweep-Swept fuel p zero desc q behind [] l h v = record {
    after = q;
    returns = refl;
    cells = [];
    are_kept = refl;
    holds = v;
    same_capacity = refl;
  }
  sweep-Swept fuel p (suc n) desc q behind [] l h v = record {
    after = q;
    returns = refl;
    cells = [];
    are_kept = refl;
    holds = v;
    same_capacity = refl;
  }
  sweep-Swept fuel p zero desc q behind (c ∷ rest) l h v = absurd (omega arith)
  sweep-Swept fuel p (suc n) desc q behind ((a, x) ∷ rest) l h v = elim (Bool-cases (p x)) [
    | inl t ↦
        let u = unlink-visited desc q behind a x rest v in
        let s = sweep-Swept fuel p n desc (unlink q a) behind rest none (omega arith) u.holds in
        record {
          after = s.after;
          returns = sweep_picks fuel p n desc q behind a x rest l v t ∙ ap (seen x) s.returns;
          cells = s.cells;
          are_kept = s.are_kept ∙ sym (kept_skip p a x rest t);
          holds = s.holds;
          same_capacity = s.same_capacity ∙ u.same_capacity;
        }
    | inr f ↦
        let w = subst (Holds q) (whole-passed desc behind (a, x) rest) v in
        let s =
          sweep-Swept fuel p n desc q (passed desc behind (a, x)) rest (some a) (omega arith) w in
        record {
          after = s.after;
          returns = sweep_keeps fuel p n desc q behind a x rest l v f ∙ ap (seen x) s.returns;
          cells = (a, x) ∷ s.cells;
          are_kept = ap (λ cs. (a, x) ∷ cs) s.are_kept ∙ sym (kept_stay p a x rest f);
          holds = subst (Holds s.after) (sym (whole-passed desc behind (a, x) s.cells)) s.holds;
          same_capacity = s.same_capacity;
        }
  ]

  -- The list in the order of the visit.
  abbrev pub list_order : Bool → List A → List A
  list_order false xs = xs
  list_order true xs = reverse xs

  items-in_order :
      (desc : Bool) (cs : Cells A) → items (in_order desc cs) ≡ list_order desc (items cs)
  items-in_order false cs = refl
  items-in_order true cs = items-reverse cs

  items-whole :
      (p : A → Bool) (desc : Bool) (cs : Cells A)
      → items (whole desc [] (kept p (in_order desc cs))) ≡ unpicked p (items cs)
  items-whole p false cs = items-kept p cs
  items-whole p true cs =
      ap items (append-nil (reverse (kept p (reverse cs))))
      ∙ items-reverse (kept p (reverse cs))
      ∙ ap reverse (items-kept p (reverse cs))
      ∙ ap (λ xs. reverse (unpicked p xs)) (items-reverse cs)
      ∙ ap reverse (unpicked-reverse p (items cs))
      ∙ reverse-reverse (unpicked p (items cs))

  head_at :
      (desc : Bool) (q : Deque A) (rest : Cells A)
      → Holds q (whole desc [] rest)
      → item_at q.nodes (head_addr rest none) ≡ head_item rest
  head_at desc q [] v = refl
  head_at desc q ((a, x) ∷ rest) v = (visited desc q [] a x rest v).0

  new_iterator-before :
      (desc : Bool) (q : Deque A) (cs : Cells A)
      → Holds q cs
      → new_iterator q desc ≡ before (in_order desc cs) none desc
  unfolding new_iterator
  new_iterator-before desc q cs v =
      let at : Option ℕ → Option A → Iterator A =
        λ n i. record { next = n; next_item = i; last_ret = none; desc = desc } in
      ap (λ n. at n (item_at q.nodes n)) (first_node-in_order desc q cs v)
      ∙ ap (at (head_addr (in_order desc cs) none))
          (head_at desc q (in_order desc cs) (subst (Holds q) (whole-in_order desc cs) v))

  length-in_order : (desc : Bool) (cs : Cells A) → length (in_order desc cs) ≡ length (items cs)
  length-in_order false cs = sym (length-items cs)
  length-in_order true cs = length-reverse {A = ℕ × A} cs ∙ sym (length-items cs)

  -- A walk with a new iterator while nobody else makes a call sees every item once, in the order of
  -- the deque or, descending, from last to first; removing what `p` picks leaves the other items in
  -- order. It ends without panic, and the loop of `succ` takes one round for each step.
  pub sweep_lem :
      (fuel cap : ℕ) (p : A → Bool) (desc : Bool) (xs : List A) (q : Deque A) (n : ℕ)
      → Represents cap xs q
      → length xs ≤ n
      → (q' : Deque A) × (sweep (suc fuel) p n q (new_iterator q desc)
          ≡ some (list_order desc xs, q'))
        × Represents cap (unpicked p xs) q'
  sweep_lem fuel cap p desc xs q n r h =
      let order = in_order desc r.cells in
      let w = subst (Holds q) (whole-in_order desc r.cells) r.holds in
      let long = length-in_order desc r.cells ∙ ap length r.same_items in
      let s = sweep-Swept fuel p n desc q [] order none (omega (arith, long)) w in
      (
        s.after,
        ap (sweep (suc fuel) p n q) (new_iterator-before desc q r.cells r.holds)
            ∙ s.returns
            ∙ ap (λ ys. some (ys, s.after))
                (items-in_order desc r.cells ∙ ap (list_order desc) r.same_items),
        record {
          cells = whole desc [] s.cells;
          holds = s.holds;
          same_items =
              ap (λ cs. items (whole desc [] cs)) s.are_kept
              ∙ items-whole p desc r.cells
              ∙ ap (unpicked p) r.same_items;
          same_capacity = s.same_capacity ∙ r.same_capacity;
        },
      )
