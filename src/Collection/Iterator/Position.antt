-- ===== src/Collection/Iterator/Position.antt =====
-- Where an iterator of gcollection/queue.go stands: cells behind it, and cells before it in the order
-- of its visit.
use mathlib.Core.List.{reverse-cons, reverse-reverse, append_assoc, append-nil}
use gokits.Prelude.{
  ℕ, ◌≡◌, refl, ap, sym, ◌∙◌, subst, Bool, true, false, none, some, [], ◌∷◌, ◌++◌, reverse,
}
use gokits.Collection.Deque.{Deque, unlink}
use gokits.Collection.Deque.Cells.{Cells, head_addr, last_addr, Linked, last_addr-append}
use gokits.Collection.Deque.Links.{Linked-split}
use gokits.Collection.Deque.Holds.{Holds}
use gokits.Collection.Deque.Unlink.{Left}
use gokits.Collection.Deque.Remove.{unlink-Holds}
use gokits.Collection.Iterator.{first_node, next_node}

module _ {ℓ} {A : Type ℓ} where
  -- All cells, first to last.
  abbrev pub whole : Bool → Cells A → Cells A → Cells A
  whole false behind rest = behind ++ rest
  whole true behind rest = reverse rest ++ behind

  -- The cells behind, with one more.
  abbrev pub passed : Bool → Cells A → ℕ × A → Cells A
  passed false behind c = behind ++ (c ∷ [])
  passed true behind c = c ∷ behind

  turned :
      (c : ℕ × A) (rest behind : Cells A)
      → reverse (c ∷ rest) ++ behind ≡ reverse rest ++ (c ∷ behind)
  turned c rest behind =
      ap (λ cs. cs ++ behind) (reverse-cons c rest) ∙ append_assoc (reverse rest) (c ∷ []) behind

  pub whole-passed :
      (desc : Bool) (behind : Cells A) (c : ℕ × A) (rest : Cells A)
      → whole desc behind (c ∷ rest) ≡ whole desc (passed desc behind c) rest
  whole-passed false behind c rest = sym (append_assoc behind (c ∷ []) rest)
  whole-passed true behind c rest = turned c rest behind

  last_addr-reverse : (rest : Cells A) → last_addr none (reverse rest) ≡ head_addr rest none
  last_addr-reverse [] = refl
  last_addr-reverse ((a, x) ∷ rest) =
      ap (last_addr none) (reverse-cons (a, x) rest)
      ∙ last_addr-append none (reverse rest) ((a, x) ∷ [])

  -- The node that is visited next has its item, and its link is to the one after it.
  pub visited :
      (desc : Bool) (q : Deque A) (behind : Cells A) (a : ℕ) (x : A) (rest : Cells A)
      → Holds q (whole desc behind ((a, x) ∷ rest))
      → ((q.nodes a).item ≡ some x) × (next_node desc (q.nodes a) ≡ head_addr rest none)
  visited false q behind a x rest v =
      let (_, at) = Linked-split q.nodes none behind ((a, x) ∷ rest) none v.linked in (at.0, at.2)
  visited true q behind a x rest v =
      let l = subst (λ cs. Linked q.nodes none cs none) (turned (a, x) rest behind) v.linked in
      let (_, at) = Linked-split q.nodes none (reverse rest) ((a, x) ∷ behind) none l in
      (at.0, at.1 ∙ last_addr-reverse rest)

  pub unlink-visited :
      (desc : Bool) (q : Deque A) (behind : Cells A) (a : ℕ) (x : A) (rest : Cells A)
      → Holds q (whole desc behind ((a, x) ∷ rest))
      → Left q (unlink q a) (whole desc behind rest)
  unlink-visited false q behind a x rest v = unlink-Holds q behind a x rest v
  unlink-visited true q behind a x rest v =
      unlink-Holds q (reverse rest) a x behind (subst (Holds q) (turned (a, x) rest behind) v)

  -- The cells in the order of the visit.
  abbrev pub in_order : Bool → Cells A → Cells A
  in_order false cs = cs
  in_order true cs = reverse cs

  pub whole-in_order : (desc : Bool) (cs : Cells A) → cs ≡ whole desc [] (in_order desc cs)
  whole-in_order false cs = refl
  whole-in_order true cs = sym (append-nil _ ∙ reverse-reverse cs)

  pub first_node-in_order :
      (desc : Bool) (q : Deque A) (cs : Cells A)
      → Holds q cs
      → first_node desc q ≡ head_addr (in_order desc cs) none
  first_node-in_order false q cs v = v.first_at
  first_node-in_order true q cs v =
      v.last_at ∙ ap (last_addr none) (sym (reverse-reverse cs)) ∙ last_addr-reverse (reverse cs)
