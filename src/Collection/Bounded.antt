-- ===== src/Collection/Bounded.antt =====
-- What gcollection/queue.go promises: a list of items, first to last, of bounded length.
use gokits.Prelude.{
  ℕ, Bool, true, false, Option, none, some, List, [], ◌∷◌, map, reverse, length, ltb, if◌then◌else◌,
}
use gokits.Prelude.Eq.{Eq, ◌==◌}
use gokits.Collection.Api.{
  Call, offers_first, offers_last, adds_first, adds_last, removes_first, removes_last, polls_first,
  polls_last, peeks_first, peeks_last, sizes, slices, Reply, accepted, added, item, number, slice,
  e_is_nil, deque_full,
}

module _ {ℓ} {A : Type ℓ} where
  -- The same at the other end.
  abbrev pub at_end {κ} : {B : Type κ} → (List A → B × List A) → List A → B × List A
  at_end f xs = let (b, ys) = f (reverse xs) in (b, reverse ys)

  abbrev pub push : ℕ → A → List A → Bool × List A
  push cap x xs = if ltb (length xs) cap then (true, x ∷ xs) else (false, xs)

  abbrev pub pop : List A → Option A × List A
  pop [] = (none, [])
  pop (x ∷ xs) = (some x, xs)

  abbrev pub peek : List A → Option A
  peek [] = none
  peek (x ∷ xs) = some x

  abbrev pub refused_or_added : Bool → Reply A
  refused_or_added ok = added (if ok then none else some deque_full)

module _ {ℓ} {A : Type ℓ} ⦃e : Eq A⦄ where
  -- The first item equal to `i` taken out, and whether there was one.
  abbrev pub remove : A → List A → Bool × List A
  remove i [] = (false, [])
  remove i (x ∷ xs) =
      let (found, ys) = remove i xs in if i == x then (true, xs) else (found, x ∷ ys)

  unfoldable pub answer : ℕ → List A → Call A → Reply A × List A
  answer cap xs (offers_first none) = (accepted false, xs)
  answer cap xs (offers_first (some x)) = let (ok, ys) = push cap x xs in (accepted ok, ys)
  answer cap xs (offers_last none) = (accepted false, xs)
  answer cap xs (offers_last (some x)) = let (ok, ys) = at_end (push cap x) xs in (accepted ok, ys)
  answer cap xs (adds_first none) = (added (some e_is_nil), xs)
  answer cap xs (adds_first (some x)) = let (ok, ys) = push cap x xs in (refused_or_added ok, ys)
  answer cap xs (adds_last none) = (added (some e_is_nil), xs)
  answer cap xs (adds_last (some x)) =
      let (ok, ys) = at_end (push cap x) xs in (refused_or_added ok, ys)
  answer cap xs (removes_first none) = (accepted false, xs)
  answer cap xs (removes_first (some x)) = let (ok, ys) = remove x xs in (accepted ok, ys)
  answer cap xs (removes_last none) = (accepted false, xs)
  answer cap xs (removes_last (some x)) = let (ok, ys) = at_end (remove x) xs in (accepted ok, ys)
  answer cap xs polls_first = let (r, ys) = pop xs in (item r, ys)
  answer cap xs polls_last = let (r, ys) = at_end pop xs in (item r, ys)
  answer cap xs peeks_first = (item (peek xs), xs)
  answer cap xs peeks_last = (item (peek (reverse xs)), xs)
  answer cap xs sizes = (number (length xs), xs)
  answer cap xs slices = (slice (map some xs), xs)

  unfoldable pub answers : ℕ → List A → List (Call A) → List (Reply A)
  answers cap xs [] = []
  answers cap xs (c ∷ cs) = let (r, ys) = answer cap xs c in r ∷ answers cap ys cs
