-- ===== src/Collection/Waiting/Outcomes.antt =====
-- How the waiting methods of gcollection/queue.go end.
use mathlib.Core.List.{reverse-reverse}
use mathlib.Core.Logic.{Lift}
use gokits.Prelude.{
  ℕ, ◌≤◌, ◌<◌, ◌≡◌, refl, ap, ◌∙◌, subst, Bool, true, false, ◌||◌, Option, none, some, List, [],
  ◌∷◌, length, reverse, ltb, Bool-cases, inl, inr, ltb→lt, ltb_false→le, arith, if◌then◌else◌,
}
use gokits.Prelude.Eq.{Eq}
use gokits.Collection.Bounded.{at_end, push, pop}
use gokits.Collection.Api.{Call}
use gokits.Collection.Deque.{Deque, link_first, link_last}
use gokits.Collection.Deque.Link.{link_first-full, link_last-full}
use gokits.Collection.Calls.Refine.{Represents, length-reverse}
use gokits.Collection.Waiting.{
  Round, Outcome, put, got, waiting, Blocking, puts_first, puts_last, takes_first, takes_last,
  polls_first_with_context, polls_last_with_context, after_link, after_unlink, still_waiting, block,
  others, put_loop, ◌>>=◌,
}
use gokits.Collection.Waiting.Refine.{
  leaves, put_list, take_list, poll_list, block_list, block-Agrees,
}

module _ {ℓ} {A : Type ℓ} where
  -- Some wait was interrupted.
  abbrev pub any_interrupted : List (Round A) → Bool
  any_interrupted [] = false
  any_interrupted (r ∷ rs) = r.interrupted || any_interrupted rs

  -- The context was done at some look.
  abbrev pub any_done : List (Round A) → Bool
  any_done [] = false
  any_done (r ∷ rs) = r.ctx_done || any_done rs

  -- A put ends with the list for which `P` holds, and waits only where `Q` does.
  abbrev pub PutEnds : (List A → Type ℓ) → (List A → Type ℓ) → Outcome A → List A → Type ℓ
  PutEnds P Q put ys = P ys
  PutEnds P Q waiting ys = Q ys
  PutEnds P Q (got x i) ys = Lift {0, ℓ} ⊥

  -- A take returns an item, InterruptedErr if a wait was interrupted, or nil if the context was
  -- done; in the last two cases, and where it waits, the list is empty.
  abbrev pub TakeEnds : Bool → Bool → Outcome A → List A → Type ℓ
  TakeEnds interrupted done put ys = Lift {0, ℓ} ⊥
  TakeEnds interrupted done waiting ys = ys ≡ []
  TakeEnds interrupted done (got (some x) i) ys = Lift {0, ℓ} (i ≡ false)
  TakeEnds interrupted done (got none true) ys = (ys ≡ []) × (interrupted ≡ true)
  TakeEnds interrupted done (got none false) ys = (ys ≡ []) × (done ≡ true)

  -- The item has been put at the head of a list with room.
  abbrev pub Headed : ℕ → A → List A → Type ℓ
  Headed cap x ys = (zs : List A) × (ys ≡ x ∷ zs) × (length zs < cap)

  abbrev pub Full : ℕ → List A → Type ℓ
  Full cap ys = Lift {0, ℓ} (cap ≤ length ys)

  -- Every outcome of a method and the list that it leaves.
  pub Ends : ℕ → List (Round A) → Blocking A → Outcome A → List A → Type ℓ
  Ends cap rs (puts_first none) o ys = o ≡ put
  Ends cap rs (puts_first (some x)) o ys = PutEnds (Headed cap x) (Full cap) o ys
  Ends cap rs (puts_last none) o ys = o ≡ put
  Ends cap rs (puts_last (some x)) o ys = PutEnds (λ zs. Headed cap x (reverse zs)) (Full cap) o ys
  Ends cap rs takes_first o ys = TakeEnds (any_interrupted rs) false o ys
  Ends cap rs takes_last o ys = TakeEnds (any_interrupted rs) false o ys
  Ends cap rs polls_first_with_context o ys = TakeEnds (any_interrupted rs) (any_done rs) o ys
  Ends cap rs polls_last_with_context o ys = TakeEnds (any_interrupted rs) (any_done rs) o ys

  Ended : (Outcome A → List A → Type ℓ) → Option (Outcome A × List A) → Type ℓ
  Ended E none = Lift {0, ℓ} ⊥
  Ended E (some (o, ys)) = E o ys

  -- What a step of a put or a take leaves.
  PutStep : (List A → Type ℓ) → (List A → Type ℓ) → Bool × List A → Type ℓ
  PutStep P Q (true, ys) = P ys
  PutStep P Q (false, ys) = Q ys

  TakeStep : Option A × List A → Type ℓ
  TakeStep (some x, ys) = Unit {ℓ}
  TakeStep (none, ys) = ys ≡ []

  after_link-Ended :
      (P Q : List A → Type ℓ) (k : List A → Option (Outcome A × List A)) (r : Bool × List A)
      → PutStep P Q r
      → ((ys : List A) → Q ys → Ended (PutEnds P Q) (k ys))
      → Ended (PutEnds P Q) (after_link k r)
  unfolding PutStep Ended
  after_link-Ended P Q k (true, ys) s f = s
  after_link-Ended P Q k (false, ys) s f = f ys s

  after_unlink-Ended :
      (i d : Bool) (k : List A → Option (Outcome A × List A)) (interrupt : Bool)
      (r : Option A × List A)
      → TakeStep r
      → (interrupt ≡ true → i ≡ true)
      → ((ys : List A) → ys ≡ [] → Ended (TakeEnds i d) (k ys))
      → Ended (TakeEnds i d) (after_unlink interrupt k r)
  unfolding TakeStep Ended
  after_unlink-Ended i d k interrupt (some x, ys) s h f = record { lower = refl }
  after_unlink-Ended i d k true (none, ys) s h f = (s, h refl)
  after_unlink-Ended i d k false (none, ys) s h f = f ys s

module _ {ℓ} {A : Type ℓ} ⦃e : Eq A⦄ where
  put_list-Ended :
      (cap : ℕ) (P Q : List A → Type ℓ) (f : List A → Bool × List A)
      → ((xs : List A) → PutStep P Q (f xs))
      → (rs : List (Round A)) (xs : List A) → Ended (PutEnds P Q) (put_list cap f rs xs)
  unfolding put_list Ended
  put_list-Ended cap P Q f s [] xs = after_link-Ended P Q _ (f xs) (s xs) (λ ys q. q)
  put_list-Ended cap P Q f s (r ∷ rs) xs =
      after_link-Ended P Q _ (f xs) (s xs)
        (λ ys q. put_list-Ended cap P Q f s rs (leaves cap ys r.meanwhile))

  take_list-Ended :
      (cap : ℕ) (i d : Bool) (f : List A → Option A × List A)
      → ((xs : List A) → TakeStep (f xs))
      → (rs : List (Round A)) (interrupt : Bool) (xs : List A) → (interrupt ≡ true → i ≡ true)
      → (any_interrupted rs ≡ true → i ≡ true)
      → Ended (TakeEnds i d) (take_list cap f rs interrupt xs)
  unfolding take_list Ended
  take_list-Ended cap i d f s [] interrupt xs h g =
      after_unlink-Ended i d _ interrupt (f xs) (s xs) h (λ ys q. q)
  take_list-Ended cap i d f s (r ∷ rs) interrupt xs h g =
      after_unlink-Ended i d _ interrupt (f xs) (s xs) h (λ ys q.
        take_list-Ended cap i d f s rs r.interrupted (leaves cap ys r.meanwhile)
          (λ t. g (ground (arith, t))) (λ t. g (ground (arith, t))))

  looked :
      (i d : Bool) (o : Option (Outcome A × List A)) (done : Bool) (ys : List A)
      → ys ≡ []
      → (done ≡ true → d ≡ true)
      → Ended (TakeEnds i d) o
      → Ended (TakeEnds i d) (if done then some (got none false, ys) else o)
  unfolding Ended
  looked i d o true ys q h f = (q, h refl)
  looked i d o false ys q h f = f

  poll_list-Ended :
      (cap : ℕ) (i d : Bool) (f : List A → Option A × List A)
      → ((xs : List A) → TakeStep (f xs))
      → (rs : List (Round A)) (interrupt : Bool) (xs : List A) → (interrupt ≡ true → i ≡ true)
      → (any_interrupted rs ≡ true → i ≡ true)
      → (any_done rs ≡ true → d ≡ true)
      → Ended (TakeEnds i d) (poll_list cap f rs interrupt xs)
  unfolding poll_list Ended
  poll_list-Ended cap i d f s [] interrupt xs h g k =
      after_unlink-Ended i d _ interrupt (f xs) (s xs) h (λ ys q. q)
  poll_list-Ended cap i d f s (r ∷ rs) interrupt xs h g k =
      after_unlink-Ended i d _ interrupt (f xs) (s xs) h (λ ys q.
        looked i d _ r.ctx_done ys q (λ t. k (ground (arith, t)))
          (poll_list-Ended cap i d f s rs r.interrupted (leaves cap ys r.meanwhile)
            (λ t. g (ground (arith, t))) (λ t. g (ground (arith, t))) (λ t. k (ground (arith, t)))))

  push_step : (cap : ℕ) (x : A) (xs : List A) → PutStep (Headed cap x) (Full cap) (push cap x xs)
  unfolding PutStep
  push_step cap x xs = elim (Bool-cases (ltb (length xs) cap)) [
    | inl t ↦ rw t (xs, refl, ltb→lt (length xs) cap t)
    | inr n ↦ rw n (record { lower = ltb_false→le (length xs) cap n })
  ]

  push_last_step :
      (cap : ℕ) (x : A) (xs : List A)
      → PutStep (λ zs. Headed cap x (reverse zs)) (Full cap) (at_end (push cap x) xs)
  unfolding PutStep
  push_last_step cap x xs = elim (Bool-cases (ltb (length (reverse xs)) cap)) [
    | inl t ↦
        rw t (reverse xs, reverse-reverse (x ∷ reverse xs), ltb→lt (length (reverse xs)) cap t)
    | inr n ↦
        let full = ltb_false→le (length (reverse xs)) cap n in
        rw n (record { lower = omega (arith, length-reverse (reverse xs)) })
  ]

  pop_step : (xs : List A) → TakeStep (pop xs)
  unfolding TakeStep
  pop_step [] = refl
  pop_step (x ∷ xs) = tt

  taken_back :
      (rs : List A) (xs : List A)
      → reverse xs ≡ rs
      → TakeStep (let (b, ys) = pop rs in (b, reverse ys))
  unfolding TakeStep
  taken_back [] xs h = refl
  taken_back (x ∷ rs) xs h = tt

  pop_last_step : (xs : List A) → TakeStep (at_end pop xs)
  pop_last_step xs = taken_back (reverse xs) xs refl

  block_list-Ended :
      (cap : ℕ) (rs : List (Round A)) (xs : List A) (m : Blocking A)
      → Ended (Ends cap rs m) (block_list cap rs xs m)
  unfolding block_list Ends Ended
  block_list-Ended cap rs xs (puts_first none) = refl
  block_list-Ended cap rs xs (puts_first (some x)) =
      put_list-Ended cap (Headed cap x) (Full cap) (push cap x) (push_step cap x) rs xs
  block_list-Ended cap rs xs (puts_last none) = refl
  block_list-Ended cap rs xs (puts_last (some x)) =
      put_list-Ended cap _ (Full cap) (at_end (push cap x)) (push_last_step cap x) rs xs
  block_list-Ended cap rs xs takes_first =
      take_list-Ended cap _ false pop pop_step rs false xs (λ h. cc) (λ h. h)
  block_list-Ended cap rs xs takes_last =
      take_list-Ended cap _ false (at_end pop) pop_last_step rs false xs (λ h. cc) (λ h. h)
  block_list-Ended cap rs xs polls_first_with_context =
      poll_list-Ended cap _ _ pop pop_step rs false xs (λ h. cc) (λ h. h) (λ h. h)
  block_list-Ended cap rs xs polls_last_with_context =
      poll_list-Ended cap _ _ (at_end pop) pop_last_step rs false xs (λ h. cc) (λ h. h) (λ h. h)

  -- Every outcome of a method that waits, on every schedule: a put ends only by its item going in at
  -- its end of a list with room, and waits only while the list is full; a take or poll returns an
  -- item with no error, InterruptedErr only if a wait was interrupted, and nil without error only if
  -- it is a poll and its context was done, both only when the list is empty; it waits only while the
  -- list is empty.
  pub block-Ends :
      (cap : ℕ) (xs : List A) (q : Deque A) (rs : List (Round A)) (m : Blocking A)
      → Represents cap xs q
      → (o : Outcome A) × (ys : List A) × (q' : Deque A) × (block rs q m ≡ some (o, q'))
        × Represents cap ys q'
        × Ends cap rs m o ys
  unfolding Ended
  block-Ends cap xs q rs m r =
      let a = block-Agrees cap xs q rs m r in
      (
        a.outcome,
        a.left,
        a.deque,
        a.returns,
        a.represents,
        subst (Ended (Ends cap rs m)) a.answers (block_list-Ended cap rs xs m),
      )

  -- The schedule on which nobody else makes a call.
  abbrev pub Alone : List (Round A) → Type ℓ
  Alone [] = Unit
  Alone (r ∷ rs) = (r.meanwhile ≡ []) × Alone rs

module _ {ℓ} {A : Type ℓ} ⦃e : Eq A⦄ where
  others_none : (q : Deque A) (cs : List (Call A)) → cs ≡ [] → others q cs ≡ some q
  unfolding others
  others_none q cs h = rw h refl

  stays :
      (q : Deque A) (link : Deque A → Option (Bool × Deque A))
      → link q ≡ some (false, q)
      → (rs : List (Round A)) → Alone rs
      → put_loop link rs q ≡ some (waiting, q)
  unfolding put_loop
  stays q link h [] a = ap (λ o. o >>= after_link still_waiting) h
  stays q link h (r ∷ rs) (a, b) =
      ap (λ o. o >>= after_link (λ q'. others q' r.meanwhile >>= put_loop link rs)) h
      ∙ ap (λ o. o >>= put_loop link rs) (others_none q r.meanwhile a)
      ∙ stays q link h rs b

  -- A put on a full deque that nobody else calls waits for ever, through every wake-up, also when its
  -- context is done.
  pub put_ignores_context :
      (q : Deque A) (x : A) (rs : List (Round A))
      → q.capacity ≤ q.count
      → Alone rs
      → (block rs q (puts_first (some x)) ≡ some (waiting, q))
        × (block rs q (puts_last (some x)) ≡ some (waiting, q))
  unfolding block
  put_ignores_context q x rs full a = (
    stays q (λ d. link_first d x) (link_first-full q x full) rs a,
    stays q (λ d. link_last d x) (link_last-full q x full) rs a,
  )
