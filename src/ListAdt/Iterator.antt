-- ===== src/ListAdt/Iterator.antt =====
-- The iterator walks the nodes in order: what is still ahead of it is `drop l.iter l.head`.
use socks5proxy.Prelude.{
  ℕ, zero, suc, ◌+◌, ◌<◌, ◌≤◌, ◌≡◌, true, false, some, List, [], ◌∷◌, arith, lt→ltb, le→ltb, length,
  get_elem?, drop,
}
use socks5proxy.ListAdt.{ListCdt, list_has_next, list_get_next}

module _ {A : Type 0} where
  drop-cons :
      (k : ℕ) (xs : List A) {y : A} {ys : List A}
      → drop k xs ≡ y ∷ ys
      → (get_elem? xs k ≡ some y) × (drop (k + 1) xs ≡ ys) × (k < length xs)
  drop-cons zero [] e = absurd (ground arith)
  drop-cons zero (x ∷ xs) e = (ground arith, ground arith, omega arith)
  drop-cons (suc k) [] e = absurd (ground arith)
  drop-cons (suc k) (x ∷ xs) e =
      let (a, b, c) = drop-cons k xs e in
      let n : suc k + 1 ≡ suc (k + 1) = omega arith in (a, rw n b, omega (arith, c))

  drop-nil : (k : ℕ) (xs : List A) → drop k xs ≡ [] → length xs ≤ k
  drop-nil k [] e = omega arith
  drop-nil zero (x ∷ xs) e = absurd (ground arith)
  drop-nil (suc k) (x ∷ xs) e = omega (arith, drop-nil k xs e)

  pub iterator_next :
      (l : ListCdt A) {x : A} {xs : List A}
      → drop l.iter l.head ≡ x ∷ xs
      → (list_has_next l ≡ true)
        × (list_get_next l ≡ (some (l.iter, x), record l { iter = l.iter + 1 }))
        × (drop (l.iter + 1) l.head ≡ xs)
  unfolding list_has_next list_get_next
  iterator_next l e =
      let (a, b, c) = drop-cons l.iter l.head e in
      (lt→ltb l.iter (length l.head) c, ground (arith, a), b)

  pub iterator_end : (l : ListCdt A) → drop l.iter l.head ≡ [] → list_has_next l ≡ false
  unfolding list_has_next
  iterator_end l e = le→ltb l.iter (length l.head) (drop-nil l.iter l.head e)
