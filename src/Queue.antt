-- ===== src/Queue.antt =====
-- src/shared/queue.c: a queue of bounded capacity, which drops its oldest element when it is full.
-- The chain of nodes from `first` is a list, and `last` is its last node. The pointers that a caller
-- passes are not NULL, and the second `malloc` of `enqueue`, which the source does not test,
-- succeeds.
mod Tests
pub mod Window
use socks5proxy.Prelude.{
  ℕ, zero, suc, ◌+◌, ◌-◌, Bool, true, false, ◌&&◌, not, Option, none, some, List, [], ◌∷◌, ◌++◌,
  leb, ◌==◌, if◌then◌else◌, ◌>>=◌,
}

-- `QueueCDT`; a `max_capacity` of 0 is no bound.
pub record Queue (A : Type 0) : Type 0 where
  pub nodes : List A
  pub max_capacity : ℕ
  pub size : ℕ

module _ {A : Type 0} where
  pub create_queue : ℕ → Bool → Option (Queue A)
  create_queue max_capacity true =
      some (record { nodes = []; max_capacity = max_capacity; size = 0 })
  create_queue max_capacity false = none

  -- What is copied to the caller's buffer, and the queue; `none` for NULL.
  unfoldable pub dequeue : Queue A → Option (A × Queue A)
  dequeue q = if q.size == 0 then none else elim q.nodes [
    | [] ↦ none
    | x ∷ xs ↦ some (x, record q { nodes = xs; size = q.size - 1 })
  ]

  -- `queue->max_capacity != 0 && queue->size >= queue->max_capacity`
  unfoldable pub is_full : Queue A → Bool
  is_full q = not (q.max_capacity == 0) && leb q.max_capacity q.size

  -- The elements that `free_fn` was called on, and the queue; `none` if the node's `malloc` fails.
  pub enqueue : Queue A → A → Bool → Option (List A × Queue A)
  enqueue q x false = none
  enqueue q x true =
      let room : List A × Queue A =
        if is_full q
        then elim (dequeue q) [ none ↦ ([], q) | some (y, p) ↦ (y ∷ [], p) ]
        else ([], q) in
      let (freed, q') = room in
      some (freed, record q' { nodes = q'.nodes ++ (x ∷ []); size = q'.size + 1 })

  unfoldable pub queue_peek : Queue A → Option A
  queue_peek q = if q.size == 0 then none else elim q.nodes [ [] ↦ none | x ∷ xs ↦ some x ]

  unfoldable pub queue_size : Queue A → ℕ
  queue_size q = q.size
