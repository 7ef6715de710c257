-- ===== src/Collection/Waiting.antt =====
-- gcollection/queue.go: the methods of LinkedBlockingDeque that wait. A wait gives the lock up, so
-- others make calls until it has the lock again; how long it waits, and why it ends, is a round. A
-- list of rounds is one schedule, and `waiting` says that the method still waits at its end.
pub mod Refine
pub mod Outcomes
mod Tests
use gokits.Prelude.{ℕ, Bool, true, false, Option, none, some, List, [], ◌∷◌, if◌then◌else◌}
use gokits.Prelude.Eq.{Eq}
use gokits.Collection.Api.{Call}
use gokits.Collection.Deque.{Deque, link_first, link_last, unlink_first, unlink_last}
use gokits.Collection.Calls.{call}

-- One wait: whether the context is done before it, the calls of others while it lasts, and its
-- result, true if `Interrupt` ended it.
pub record Round {ℓ} (A : Type ℓ) : Type ℓ where
  pub ctx_done : Bool
  pub meanwhile : List (Call A)
  pub interrupted : Bool

-- `put` ends a put; `got` a take or poll, with the item and whether the error is InterruptedErr.
pub data Outcome {ℓ} (A : Type ℓ) : Type ℓ where
  put : Outcome A
  got : Option A → Bool → Outcome A
  waiting : Outcome A

-- The methods and their arguments, but for the context.
pub data Blocking {ℓ} (A : Type ℓ) : Type ℓ where
  puts_first puts_last : Option A → Blocking A
  takes_first takes_last polls_first_with_context polls_last_with_context : Blocking A

-- `none` is a panic.
infixl 5 ◌>>=◌
abbrev pub ◌>>=◌ {ℓ κ} : {A : Type ℓ} {B : Type κ} → Option A → (A → Option B) → Option B
none >>= f = none
some a >>= f = f a

module _ {ℓ} {A : Type ℓ} where
  -- A loop whose test has returned: `k` is what follows where it goes on.
  abbrev pub after_link {κ} :
      {D : Type κ} → (D → Option (Outcome A × D)) → Bool × D → Option (Outcome A × D)
  after_link k (true, q) = some (put, q)
  after_link k (false, q) = k q

  abbrev pub after_unlink {κ} :
      {D : Type κ} → Bool → (D → Option (Outcome A × D)) → Option A × D → Option (Outcome A × D)
  after_unlink interrupt k (some x, q) = some (got (some x) false, q)
  after_unlink true k (none, q) = some (got none true, q)
  after_unlink false k (none, q) = k q

  abbrev pub still_waiting {κ} : {D : Type κ} → D → Option (Outcome A × D)
  still_waiting q = some (waiting, q)

module _ {ℓ} {A : Type ℓ} ⦃e : Eq A⦄ where
  -- The calls that others make.
  pub others : Deque A → List (Call A) → Option (Deque A)
  others q [] = some q
  others q (c ∷ cs) = do (_, q') ← call q c; others q' cs

  -- The loop of `PutFirst` and `PutLast`; `link` is `linkFirst` or `linkLast` of the item.
  pub put_loop :
      (Deque A → Option (Bool × Deque A)) → List (Round A) → Deque A → Option (Outcome A × Deque A)
  put_loop link [] q = link q >>= after_link still_waiting
  put_loop link (r ∷ rs) q =
      link q >>= after_link (λ q'. others q' r.meanwhile >>= put_loop link rs)

  -- The loop of `TakeFirst` and `TakeLast`; `unlink` is `unlinkFirst` or `unlinkLast`.
  pub take_loop :
      (Deque A → Option A × Deque A)
      → List (Round A)
      → Bool
      → Deque A
      → Option (Outcome A × Deque A)
  take_loop unlink [] interrupt q = after_unlink interrupt still_waiting (unlink q)
  take_loop unlink (r ∷ rs) interrupt q =
      after_unlink interrupt (λ q'. others q' r.meanwhile >>= take_loop unlink rs r.interrupted)
        (unlink q)

  -- The loop of `PollFirstWithContext` and `PollLastWithContext`.
  pub poll_loop :
      (Deque A → Option A × Deque A)
      → List (Round A)
      → Bool
      → Deque A
      → Option (Outcome A × Deque A)
  poll_loop unlink [] interrupt q = after_unlink interrupt still_waiting (unlink q)
  poll_loop unlink (r ∷ rs) interrupt q =
      let waits = λ (q' : Deque A). others q' r.meanwhile >>= poll_loop unlink rs r.interrupted in
      let looks = λ (q' : Deque A). if r.ctx_done then some (got none false, q') else waits q' in
      after_unlink interrupt looks (unlink q)

  pub block : List (Round A) → Deque A → Blocking A → Option (Outcome A × Deque A)
  block rs q (puts_first none) = some (put, q)
  block rs q (puts_first (some x)) = put_loop (λ d. link_first d x) rs q
  block rs q (puts_last none) = some (put, q)
  block rs q (puts_last (some x)) = put_loop (λ d. link_last d x) rs q
  block rs q takes_first = take_loop unlink_first rs false q
  block rs q takes_last = take_loop unlink_last rs false q
  block rs q polls_first_with_context = poll_loop unlink_first rs false q
  block rs q polls_last_with_context = poll_loop unlink_last rs false q
