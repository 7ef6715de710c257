-- ===== src/Collection/Deque/Links.antt =====
-- How the writes of gcollection/queue.go to a node change the links of the cells.
use mathlib.Core.List.{append_assoc}
use gokits.Prelude.{ℕ, ◌≡◌, Option, none, some, [], ◌∷◌, ◌++◌, arith, subst}
use gokits.Collection.Heap.{Node, Nodes, update, write_item, write_prev, write_next}
use gokits.Collection.Deque.Cells.{
  Cells, head_addr, last_addr, Linked, Apart, Distinct, Distinct-remove, head_addr-append,
  last_addr-append,
}

module _ {ℓ} {A : Type ℓ} where
  -- A write apart from the cells leaves their links.
  pub Linked-update :
      (h : Nodes A) (a : ℕ) (node : Node A) (p : Option ℕ) (cs : Cells A) (n : Option ℕ)
      → Apart a cs
      → Linked h p cs n
      → Linked (update h a node) p cs n
  Linked-update h a node p [] n s l = tt
  Linked-update h a node p ((b, x) ∷ cs) n s l =
      ground (arith, Linked-update h a node (some b) cs n s.1 l.3)

  pub Linked-append :
      (h : Nodes A) (p : Option ℕ) (cs ds : Cells A) (n : Option ℕ)
      → Linked h p cs (head_addr ds n)
      → Linked h (last_addr p cs) ds n
      → Linked h p (cs ++ ds) n
  Linked-append h p [] ds n l k = k
  Linked-append h p ((a, x) ∷ cs) ds n l k =
      ground (arith, Linked-append h (some a) cs ds n, head_addr-append cs ds n)

  pub Linked-split :
      (h : Nodes A) (p : Option ℕ) (cs ds : Cells A) (n : Option ℕ)
      → Linked h p (cs ++ ds) n
      → Linked h p cs (head_addr ds n) × Linked h (last_addr p cs) ds n
  Linked-split h p [] ds n l = (tt, l)
  Linked-split h p ((a, x) ∷ cs) ds n l =
      ground (arith, Linked-split h (some a) cs ds n, head_addr-append cs ds n)

  -- The first cell gets another predecessor.
  pub Linked-write_prev :
      (h : Nodes A) (p q : Option ℕ) (a : ℕ) (x : A) (cs : Cells A) (n : Option ℕ)
      → Distinct ((a, x) ∷ cs)
      → Linked h p ((a, x) ∷ cs) n
      → Linked (write_prev h a q) q ((a, x) ∷ cs) n
  Linked-write_prev h p q a x cs n d l =
      ground (arith, Linked-update h a (record (h a) { prev = q }) (some a) cs n d.0 l.3)

  one-Linked :
      (h : Nodes A) (p n m : Option ℕ) (a : ℕ) (x : A)
      → Linked h p ((a, x) ∷ []) n
      → Linked (write_next h a m) p ((a, x) ∷ []) m
  one-Linked h p n m a x l = ground arith

  -- The last cell gets another successor.
  pub Linked-write_next :
      (h : Nodes A) (p : Option ℕ) (cs : Cells A) (a : ℕ) (x : A) (n m : Option ℕ)
      → Apart a cs
      → Linked h p (cs ++ ((a, x) ∷ [])) n
      → Linked (write_next h a m) p (cs ++ ((a, x) ∷ [])) m
  Linked-write_next h p cs a x n m d l =
      let (before, at) = Linked-split h p cs ((a, x) ∷ []) n l in
      Linked-append (write_next h a m) p cs ((a, x) ∷ []) m
        (Linked-update h a (record (h a) { next = m }) p cs (some a) d before)
        (one-Linked h (last_addr p cs) n m a x at)

  -- The cell at `x`, between those at `b` and `c`, is unlinked.
  pub Linked-unlink :
      (h : Nodes A) (cs : Cells A) (b : ℕ) (y : A) (a : ℕ) (x : A) (c : ℕ) (z : A) (ds : Cells A)
      → let before = cs ++ ((b, y) ∷ []) in
        Distinct (before ++ ((a, x) ∷ (c, z) ∷ ds))
        → Linked h none (before ++ ((a, x) ∷ (c, z) ∷ ds)) none
        → Linked
            (write_item (write_prev (write_next h b (some c)) c (some b)) a none)
            none
            (before ++ ((c, z) ∷ ds))
            none
  Linked-unlink h cs b y a x c z ds d l =
      let before = cs ++ ((b, y) ∷ []) in
      let tail : Cells A = (c, z) ∷ ds in
      let (front, rest) = Linked-split h none before ((a, x) ∷ tail) none l in
      let (a_front, a_tail, joined, _, d_tail) = Distinct-remove before tail a x d in
      let (c_front, _, _, _, _) = Distinct-remove before ds c z joined in
      let around = subst Distinct (append_assoc cs ((b, y) ∷ []) tail) joined in
      let (b_front, b_tail, _, _, _) = Distinct-remove cs tail b y around in
      let h1 = write_next h b (some c) in
      let h2 = write_prev h1 c (some b) in
      let front2 =
        Linked-update h1 c (record (h1 c) { prev = some b }) none before (some c) c_front
          (Linked-write_next h none cs b y (some a) (some c) b_front front) in
      let tail2 =
        Linked-write_prev h1 (some a) (some b) c z ds none d_tail
          (Linked-update h b (record (h b) { next = some c }) (some a) tail none b_tail rest.3) in
      let cleared = record (h2 a) { item = none } in
      let last : last_addr none before ≡ some b = last_addr-append none cs ((b, y) ∷ []) in
      Linked-append (write_item h2 a none) none before tail none
        (Linked-update h2 a cleared none before (some c) a_front front2)
        (rw last (Linked-update h2 a cleared (some b) tail none a_tail tail2))
