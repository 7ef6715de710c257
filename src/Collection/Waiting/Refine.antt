-- ===== src/Collection/Waiting/Refine.antt =====
-- The waiting methods of gcollection/queue.go against the same loops over the bounded list.
use gokits.Prelude.{
  ℕ, ◌≡◌, refl, sym, subst, Bool, true, false, Option, none, some, List, [], ◌∷◌, if◌then◌else◌,
}
use gokits.Prelude.Eq.{Eq}
use gokits.Collection.Api.{Call}
use gokits.Collection.Bounded.{at_end, push, pop, answer}
use gokits.Collection.Deque.{Deque, link_first, link_last, unlink_first, unlink_last}
use gokits.Collection.Deque.Holds.{Holds}
use gokits.Collection.Deque.Cells.{Cells, items}
use gokits.Collection.Calls.Refine.{Represents, Refines, link_first-Refines, link_last-Refines}
use gokits.Collection.Calls.Take.{unlink_first-Refines, unlink_last-Refines}
use gokits.Collection.Calls.Answers.{call-Refines}
use gokits.Collection.Waiting.{
  Round, Outcome, put, got, waiting, Blocking, puts_first, puts_last, takes_first, takes_last,
  polls_first_with_context, polls_last_with_context, ◌>>=◌, after_link, after_unlink, still_waiting,
  others, put_loop, take_loop, poll_loop, block,
}

module _ {ℓ} {A : Type ℓ} ⦃e : Eq A⦄ where
  -- The list after calls.
  pub leaves : ℕ → List A → List (Call A) → List A
  leaves cap xs [] = xs
  leaves cap xs (c ∷ cs) = leaves cap (answer cap xs c).1 cs

  module _ (cap : ℕ) where
    unfoldable pub put_list :
        (List A → Bool × List A) → List (Round A) → List A → Option (Outcome A × List A)
    put_list f [] xs = after_link still_waiting (f xs)
    put_list f (r ∷ rs) xs = after_link (λ ys. put_list f rs (leaves cap ys r.meanwhile)) (f xs)

    unfoldable pub take_list :
        (List A → Option A × List A) → List (Round A) → Bool → List A → Option (Outcome A × List A)
    take_list f [] interrupt xs = after_unlink interrupt still_waiting (f xs)
    take_list f (r ∷ rs) interrupt xs =
        after_unlink interrupt (λ ys. take_list f rs r.interrupted (leaves cap ys r.meanwhile))
          (f xs)

    unfoldable pub poll_list :
        (List A → Option A × List A) → List (Round A) → Bool → List A → Option (Outcome A × List A)
    poll_list f [] interrupt xs = after_unlink interrupt still_waiting (f xs)
    poll_list f (r ∷ rs) interrupt xs =
        let waits = λ (ys : List A). poll_list f rs r.interrupted (leaves cap ys r.meanwhile) in
        let looks = λ (ys : List A). if r.ctx_done then some (got none false, ys) else waits ys in
        after_unlink interrupt looks (f xs)

    -- What the bounded list answers to a method that waits.
    unfoldable pub block_list : List (Round A) → List A → Blocking A → Option (Outcome A × List A)
    block_list rs xs (puts_first none) = some (put, xs)
    block_list rs xs (puts_first (some x)) = put_list (push cap x) rs xs
    block_list rs xs (puts_last none) = some (put, xs)
    block_list rs xs (puts_last (some x)) = put_list (at_end (push cap x)) rs xs
    block_list rs xs takes_first = take_list pop rs false xs
    block_list rs xs takes_last = take_list (at_end pop) rs false xs
    block_list rs xs polls_first_with_context = poll_list pop rs false xs
    block_list rs xs polls_last_with_context = poll_list (at_end pop) rs false xs

module _ {ℓ} {A : Type ℓ} where
  -- Both have the same outcome, no panic, and the deque holds the list that is left.
  pub record Agrees (cap : ℕ) (spec : Option (Outcome A × List A))
      (out : Option (Outcome A × Deque A)) : Type ℓ where
    pub outcome : Outcome A
    pub left : List A
    pub deque : Deque A
    pub answers : spec ≡ some (outcome, left)
    pub returns : out ≡ some (outcome, deque)
    pub represents : Represents cap left deque

  ends :
      {cap : ℕ} (o : Outcome A) {xs : List A} {q : Deque A}
      → Represents cap xs q
      → Agrees cap (some (o, xs)) (some (o, q))
  ends o {xs} {q} r = record {
    outcome = o;
    left = xs;
    deque = q;
    answers = refl;
    returns = refl;
    represents = r;
  }

  -- What follows a test agrees wherever the deque holds the list.
  abbrev Follows :
      ℕ → (List A → Option (Outcome A × List A)) → (Deque A → Option (Outcome A × Deque A)) → Type ℓ
  Follows cap k k' = (xs : List A) (q : Deque A) → Represents cap xs q → Agrees cap (k xs) (k' q)

  after_link-Agrees :
      {cap : ℕ} {k : List A → Option (Outcome A × List A)}
      {k' : Deque A → Option (Outcome A × Deque A)} (spec : Bool × List A)
      {out : Option (Bool × Deque A)}
      → Refines cap spec out
      → Follows cap k k'
      → Agrees cap (after_link k spec) (out >>= after_link k')
  after_link-Agrees {cap} {k} {k'} (true, xs) s f =
      subst (λ o. Agrees cap (some (put, xs)) (o >>= after_link k')) (sym s.returns)
        (ends put s.represents)
  after_link-Agrees {cap} {k} {k'} (false, xs) s f =
      subst (λ o. Agrees cap (k xs) (o >>= after_link k')) (sym s.returns)
        (f xs s.after s.represents)

  after_unlink-Agrees :
      {cap : ℕ} {k : List A → Option (Outcome A × List A)}
      {k' : Deque A → Option (Outcome A × Deque A)} (interrupt : Bool) (spec : Option A × List A)
      {out : Option (Option A × Deque A)}
      → Refines cap spec out
      → Follows cap k k'
      → Agrees cap (after_unlink interrupt k spec) (out >>= after_unlink interrupt k')
  after_unlink-Agrees {cap} {k} {k'} interrupt (some x, xs) s f =
      subst (λ o. Agrees cap (some (got (some x) false, xs)) (o >>= after_unlink interrupt k'))
        (sym s.returns) (ends (got (some x) false) s.represents)
  after_unlink-Agrees {cap} {k} {k'} true (none, xs) s f =
      subst (λ o. Agrees cap (some (got none true, xs)) (o >>= after_unlink true k'))
        (sym s.returns) (ends (got none true) s.represents)
  after_unlink-Agrees {cap} {k} {k'} false (none, xs) s f =
      subst (λ o. Agrees cap (k xs) (o >>= after_unlink false k')) (sym s.returns)
        (f xs s.after s.represents)

  -- A step of the code refines one of the list, wherever the deque holds the list.
  abbrev Steps {κ} :
      {B : Type κ} → ℕ → (List A → B × List A) → (Deque A → Option (B × Deque A)) → Type (ℓ ⊔ κ)
  Steps cap f f' = (xs : List A) (q : Deque A) → Represents cap xs q → Refines cap (f xs) (f' q)

module _ {ℓ} {A : Type ℓ} ⦃e : Eq A⦄ where
  others-Agrees :
      {cap : ℕ} {k : List A → Option (Outcome A × List A)}
      {k' : Deque A → Option (Outcome A × Deque A)} (cs : List (Call A))
      → Follows cap k k'
      → Follows cap (λ xs. k (leaves cap xs cs)) (λ q. others q cs >>= k')
  unfolding leaves others
  others-Agrees [] f xs q r = f xs q r
  others-Agrees {cap} {k} {k'} (c ∷ cs) f xs q r =
      let s = call-Refines cap xs q c r in
      subst
        (λ o.
          Agrees cap (k (leaves cap (answer cap xs c).1 cs))
            ((o >>= λ (_, q'). others q' cs) >>= k'))
        (sym s.returns) (others-Agrees cs f (answer cap xs c).1 s.after s.represents)

  put_loop-Agrees :
      {cap : ℕ} {f : List A → Bool × List A} {link : Deque A → Option (Bool × Deque A)}
      → Steps cap f link
      → (rs : List (Round A)) → Follows cap (put_list cap f rs) (put_loop link rs)
  unfolding put_list put_loop
  put_loop-Agrees {f} st [] xs q r = after_link-Agrees (f xs) (st xs q r) (λ ys d w. ends waiting w)
  put_loop-Agrees {f} st (t ∷ rs) xs q r =
      after_link-Agrees (f xs) (st xs q r) (others-Agrees t.meanwhile (put_loop-Agrees st rs))

  take_loop-Agrees :
      {cap : ℕ} {f : List A → Option A × List A} {unlink : Deque A → Option A × Deque A}
      → Steps cap f (λ q. some (unlink q))
      → (rs : List (Round A)) (interrupt : Bool)
      → Follows cap (take_list cap f rs interrupt) (take_loop unlink rs interrupt)
  unfolding take_list take_loop
  take_loop-Agrees {f} st [] interrupt xs q r =
      after_unlink-Agrees interrupt (f xs) (st xs q r) (λ ys d w. ends waiting w)
  take_loop-Agrees {f} st (t ∷ rs) interrupt xs q r =
      after_unlink-Agrees interrupt (f xs) (st xs q r)
        (others-Agrees t.meanwhile (take_loop-Agrees st rs t.interrupted))

  looks-Agrees :
      {cap : ℕ} {k : List A → Option (Outcome A × List A)}
      {k' : Deque A → Option (Outcome A × Deque A)} (done : Bool)
      → Follows cap k k'
      → Follows cap
          (λ xs. if done then some (got none false, xs) else k xs)
          (λ q. if done then some (got none false, q) else k' q)
  looks-Agrees true f xs q r = ends (got none false) r
  looks-Agrees false f xs q r = f xs q r

  poll_loop-Agrees :
      {cap : ℕ} {f : List A → Option A × List A} {unlink : Deque A → Option A × Deque A}
      → Steps cap f (λ q. some (unlink q))
      → (rs : List (Round A)) (interrupt : Bool)
      → Follows cap (poll_list cap f rs interrupt) (poll_loop unlink rs interrupt)
  unfolding poll_list poll_loop
  poll_loop-Agrees {f} st [] interrupt xs q r =
      after_unlink-Agrees interrupt (f xs) (st xs q r) (λ ys d w. ends waiting w)
  poll_loop-Agrees {f} st (t ∷ rs) interrupt xs q r =
      after_unlink-Agrees interrupt (f xs) (st xs q r)
        (looks-Agrees t.ctx_done (others-Agrees t.meanwhile (poll_loop-Agrees st rs t.interrupted)))

  -- A statement about a deque of known cells, for one that holds a list.
  at_cells {κ} :
      {cap : ℕ} (P : ℕ → List A → Deque A → Type κ)
      → ((q : Deque A) (cs : Cells A) → Holds q cs → P q.capacity (items cs) q)
      → (xs : List A) (q : Deque A) → Represents cap xs q
      → P cap xs q
  at_cells P h xs q r =
      subst (λ n. P n xs q) r.same_capacity
        (subst (λ ys. P q.capacity ys q) r.same_items (h q r.cells r.holds))

  firsts : {cap : ℕ} → Steps {A = A} cap pop (λ q. some (unlink_first q))
  firsts =
      at_cells (λ n ys d. Refines n (pop ys) (some (unlink_first d)))
        (λ d cs v. unlink_first-Refines d cs v)

  lasts : {cap : ℕ} → Steps {A = A} cap (at_end pop) (λ q. some (unlink_last q))
  lasts =
      at_cells (λ n ys d. Refines n (at_end pop ys) (some (unlink_last d)))
        (λ d cs v. unlink_last-Refines d cs v)

  -- Every method that waits, on every schedule of what others do while it waits, has the same
  -- outcome as the loop over the bounded list, leaves a deque that holds the list's items, and
  -- never follows a nil pointer.
  pub block-Agrees :
      (cap : ℕ) (xs : List A) (q : Deque A) (rs : List (Round A)) (m : Blocking A)
      → Represents cap xs q
      → Agrees cap (block_list cap rs xs m) (block rs q m)
  unfolding block block_list
  block-Agrees cap xs q rs (puts_first none) r = ends put r
  block-Agrees cap xs q rs (puts_first (some x)) r =
      put_loop-Agrees
        (at_cells (λ n ys d. Refines n (push n x ys) (link_first d x))
          (λ d cs v. link_first-Refines v x))
        rs xs q r
  block-Agrees cap xs q rs (puts_last none) r = ends put r
  block-Agrees cap xs q rs (puts_last (some x)) r =
      put_loop-Agrees
        (at_cells (λ n ys d. Refines n (at_end (push n x) ys) (link_last d x))
          (λ d cs v. link_last-Refines v x))
        rs xs q r
  block-Agrees cap xs q rs takes_first r = take_loop-Agrees firsts rs false xs q r
  block-Agrees cap xs q rs takes_last r = take_loop-Agrees lasts rs false xs q r
  block-Agrees cap xs q rs polls_first_with_context r = poll_loop-Agrees firsts rs false xs q r
  block-Agrees cap xs q rs polls_last_with_context r = poll_loop-Agrees lasts rs false xs q r
