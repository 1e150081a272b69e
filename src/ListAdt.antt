-- ===== src/ListAdt.antt =====
-- src/shared/list.c: a sorted singly linked list without duplicates, with one iterator.
-- The chain of nodes from `head` is a list. A pointer to a node, and the iterator, is the number of
-- nodes before it; the end of the chain is NULL. `malloc` answers by a Boolean argument.
pub mod Order
pub mod Iterator
use Prim.Native.Nat.{Ordering}
use socks5proxy.Prelude.{
  ℕ, ◌+◌, ◌-◌, Bool, true, false, Option, none, some, List, [], ◌∷◌, ltb, if◌then◌else◌, length,
  get_elem?, ◌>>=◌,
}

-- `struct ListCDT`; `cmp` gives the sign of the source's `int`.
pub record ListCdt (A : Type 0) : Type 0 where
  pub head : List A
  pub iter : ℕ
  pub size : ℕ
  pub cmp : A → A → Ordering

-- `iter` is not set by `list_create`: it is whatever `malloc` left there.
pub list_create : {A : Type 0} → ℕ → (A → A → Ordering) → Bool → Option (ListCdt A)
list_create garbage cmp true = some (record { head = []; iter = garbage; size = 0; cmp = cmp })
list_create garbage cmp false = none

module _ {A : Type 0} where
  -- The walk of `list_add`: past the smaller elements; `none` if an equal one stands there.
  unfoldable pub add_node : (A → A → Ordering) → A → List A → Option (List A)
  add_node cmp x [] = some (x ∷ [])
  add_node cmp x (y ∷ ys) = elim (cmp y x) [
    | Ordering.lt ↦ do ys' ← add_node cmp x ys; some (y ∷ ys')
    | Ordering.eq ↦ none
    | Ordering.gt ↦ some (x ∷ y ∷ ys)
  ]

  -- What is returned (`false` for NULL), and the list. Both calls of `malloc` succeed if `alloc`.
  unfoldable pub list_add : ListCdt A → A → Bool → Bool × ListCdt A
  list_add l x alloc = elim (add_node l.cmp x l.head) [
    | none ↦ (true, l)
    | some nodes ↦
        if alloc then (true, record l { head = nodes; size = l.size + 1 }) else (false, l)
  ]

  -- The walk of `list_remove`: the first equal node is unlinked.
  unfoldable pub remove_node : (A → A → Ordering) → A → List A → Option (List A)
  remove_node cmp x [] = none
  remove_node cmp x (y ∷ ys) = elim (cmp y x) [
    | Ordering.eq ↦ some ys
    | _ ↦ do ys' ← remove_node cmp x ys; some (y ∷ ys')
  ]

  is_null : List A → Bool
  is_null [] = true
  is_null (x ∷ xs) = false

  unfoldable pub list_remove : ListCdt A → A → Bool × ListCdt A
  unfolding is_null
  list_remove l x = if is_null l.head then (false, l) else elim (remove_node l.cmp x l.head) [
    | none ↦ (true, l)
    | some nodes ↦ (true, record l { head = nodes; size = l.size - 1 })
  ]

  unfoldable pub list_begin_iter : ListCdt A → ListCdt A
  list_begin_iter l = record l { iter = 0 }

  unfoldable pub list_has_next : ListCdt A → Bool
  list_has_next l = ltb l.iter (length l.head)

  -- The pointer to the element and the element, and the iterator moved on; `none` for NULL.
  unfoldable pub list_get_next : ListCdt A → Option (ℕ × A) × ListCdt A
  list_get_next l = elim (get_elem? l.head l.iter) [
    | none ↦ (none, l)
    | some x ↦ (some (l.iter, x), record l { iter = l.iter + 1 })
  ]

  pub list_get_size : ListCdt A → ℕ
  list_get_size l = l.size
