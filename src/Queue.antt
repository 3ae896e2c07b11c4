-- ===== src/Queue.antt =====
-- network_ts_queue.hpp: a deque under a lock. Every operation takes the lock for its whole body, so
-- an operation is one step of the thread that calls it, and what is left to model is the deque.
-- `front` and `pop_front` of an empty deque are undefined: `none`.
use ab_prototype.Prelude.{
  ℕ, ◌≡◌, Bool, true, false, Option, none, some, List, [], ◌∷◌, ◌++◌, length, arith,
}

pub record AsyncQueue {ℓ} (A : Type ℓ) : Type ℓ where
  pub deq_queue : List A

module _ {ℓ} {A : Type ℓ} where
  unfoldable pub front : AsyncQueue A → Option A
  front q = elim q.deq_queue [ [] ↦ none | x ∷ xs ↦ some x ]

  unfoldable pub push_back : A → AsyncQueue A → AsyncQueue A
  push_back x q = record { deq_queue = q.deq_queue ++ (x ∷ []) }

  unfoldable pub is_empty : AsyncQueue A → Bool
  is_empty q = elim q.deq_queue [ [] ↦ true | x ∷ xs ↦ false ]

  unfoldable pub count : AsyncQueue A → ℕ
  count q = length q.deq_queue

  unfoldable pub clear : AsyncQueue A → AsyncQueue A
  clear q = record { deq_queue = [] }

  unfoldable pub pop_front : AsyncQueue A → Option (A × AsyncQueue A)
  pop_front q = elim q.deq_queue [ [] ↦ none | x ∷ xs ↦ some (x, record { deq_queue = xs }) ]

  -- The queue after `pop_front` is the tail of the queue before it.
  pub pop_front-inv :
      (q q' : AsyncQueue A) (x : A) → pop_front q ≡ some (x, q') → q.deq_queue ≡ x ∷ q'.deq_queue
  unfolding pop_front
  pop_front-inv q q' x e = ground arith

  pub front-inv :
      (xs : List A) (x : A)
      → front (record { deq_queue = xs }) ≡ some x
      → (others : List A) × (xs ≡ x ∷ others)
  unfolding front
  front-inv [] x e = cc
  front-inv (y ∷ xs) x e = (xs, cc)
