-- ===== src/ListAdt/Order.antt =====
-- The list stays sorted, without duplicates, and its `size` is the number of its nodes.
use Prim.Native.Nat.{Ordering}
use socks5proxy.Prelude.{
  ◌+◌, ◌-◌, ◌≡◌, refl, Bool, true, false, none, some, List, [], ◌∷◌, arith, length, ◌⊎◌, inl, inr,
  Option-cases, Bool-cases, Ordering-cases,
}
use socks5proxy.ListAdt.{ListCdt, add_node, list_add, remove_node, list_remove, is_null}

-- What `list.c` needs of `cmp`: it compares as a linear order does.
pub record IsLinear {A : Type 0} (cmp : A → A → Ordering) : Type 0 where
  pub cmp_refl : (x : A) → cmp x x ≡ Ordering.eq
  pub cmp_trans :
      (x y z : A) → cmp x y ≡ Ordering.lt → cmp y z ≡ Ordering.lt → cmp x z ≡ Ordering.lt
  pub cmp_eq_left : (x y z : A) → cmp x y ≡ Ordering.eq → cmp x z ≡ cmp y z
  pub cmp_eq_right : (x y z : A) → cmp x y ≡ Ordering.eq → cmp z x ≡ cmp z y
  pub cmp_flip : (x y : A) → cmp x y ≡ Ordering.gt → cmp y x ≡ Ordering.lt

module _ {A : Type 0} (cmp : A → A → Ordering) where
  -- `x` is smaller than each element.
  abbrev pub Below : A → List A → Type 0
  Below x [] = Unit {0}
  Below x (y ∷ ys) = (cmp x y ≡ Ordering.lt) × Below x ys

  -- Strictly ascending, so no two elements are equal for `cmp`.
  abbrev pub Ascending : List A → Type 0
  Ascending [] = Unit {0}
  Ascending (x ∷ xs) = Below x xs × Ascending xs

module _ {A : Type 0} {cmp : A → A → Ordering} (lin : IsLinear cmp) where
  Below-trans : (x y : A) (ys : List A) → cmp x y ≡ Ordering.lt → Below cmp y ys → Below cmp x ys
  Below-trans x y [] h b = tt
  Below-trans x y (z ∷ zs) h b = (lin.cmp_trans x y z h b.0, Below-trans x y zs h b.1)

  -- Where `add_node` puts the element.
  add_node-cons :
      (x y : A) (ys : List A) {zs : List A}
      → add_node cmp x (y ∷ ys) ≡ some zs
      → ((ys' : List A) × (cmp y x ≡ Ordering.lt) × (add_node cmp x ys ≡ some ys') × (zs ≡ y ∷ ys'))
        ⊎ ((cmp y x ≡ Ordering.gt) × (zs ≡ x ∷ y ∷ ys))
  unfolding add_node
  add_node-cons x y ys e = elim (Ordering-cases (cmp y x)) [
    | inl lt ↦ elim (Option-cases (add_node cmp x ys)) [
      | inl n ↦ absurd (ground arith)
      | inr (ys', s) ↦ inl (ys', lt, s, ground arith)
    ]
    | inr (inl eq) ↦ absurd (ground arith)
    | inr (inr gt) ↦ inr (gt, ground arith)
  ]

  add_node-nil : (x : A) {zs : List A} → add_node cmp x [] ≡ some zs → zs ≡ x ∷ []
  unfolding add_node
  add_node-nil x e = ground arith

  add_node-Below :
      (a x : A) (xs : List A) {zs : List A}
      → cmp a x ≡ Ordering.lt
      → Below cmp a xs
      → add_node cmp x xs ≡ some zs
      → Below cmp a zs
  add_node-Below a x [] h b e = rw (add_node-nil x e) (h, tt)
  add_node-Below a x (y ∷ ys) h b e = elim (add_node-cons x y ys e) [
    | inl (ys', lt, s, z) ↦ rw z (b.0, add_node-Below a x ys h b.1 s)
    | inr (gt, z) ↦ rw z (h, b)
  ]

  -- Adding keeps the order, and adds one node.
  pub add_node-Ascending :
      (x : A) (xs : List A) {zs : List A}
      → Ascending cmp xs
      → add_node cmp x xs ≡ some zs
      → Ascending cmp zs × (length zs ≡ length xs + 1)
  add_node-Ascending x [] s e = rw (add_node-nil x e) ((tt, tt), omega arith)
  add_node-Ascending x (y ∷ ys) s e = elim (add_node-cons x y ys e) [
    | inl (ys', lt, r, z) ↦
        let (asc, len) = add_node-Ascending x ys s.1 r in
        rw z ((add_node-Below y x ys lt s.0 r, asc), omega (arith, len))
    | inr (gt, z) ↦
        let xy = lin.cmp_flip y x gt in rw z (((xy, Below-trans x y ys xy s.0), s), omega arith)
  ]

  remove_node-cons :
      (x y : A) (ys : List A) {zs : List A}
      → remove_node cmp x (y ∷ ys) ≡ some zs
      → ((ys' : List A) × (remove_node cmp x ys ≡ some ys') × (zs ≡ y ∷ ys'))
        ⊎ ((cmp y x ≡ Ordering.eq) × (zs ≡ ys))
  unfolding remove_node
  remove_node-cons x y ys e = elim (Ordering-cases (cmp y x)) [
    | inr (inl eq) ↦ inr (eq, ground arith)
    | inl lt ↦ elim (Option-cases (remove_node cmp x ys)) [
      | inl n ↦ absurd (ground arith)
      | inr (ys', s) ↦ inl (ys', s, ground arith)
    ]
    | inr (inr gt) ↦ elim (Option-cases (remove_node cmp x ys)) [
      | inl n ↦ absurd (ground arith)
      | inr (ys', s) ↦ inl (ys', s, ground arith)
    ]
  ]

  remove_node-Below :
      (a x : A) (xs : List A) {zs : List A}
      → Below cmp a xs
      → remove_node cmp x xs ≡ some zs
      → Below cmp a zs
  unfolding remove_node
  remove_node-Below a x [] b e = absurd (ground arith)
  remove_node-Below a x (y ∷ ys) b e = elim (remove_node-cons x y ys e) [
    | inl (ys', s, z) ↦ rw z (b.0, remove_node-Below a x ys b.1 s)
    | inr (eq, z) ↦ rw z b.1
  ]

  -- Removing keeps the order, and takes one node away.
  pub remove_node-Ascending :
      (x : A) (xs : List A) {zs : List A}
      → Ascending cmp xs
      → remove_node cmp x xs ≡ some zs
      → Ascending cmp zs × (length xs ≡ length zs + 1)
  unfolding remove_node
  remove_node-Ascending x [] s e = absurd (ground arith)
  remove_node-Ascending x (y ∷ ys) s e = elim (remove_node-cons x y ys e) [
    | inl (ys', r, z) ↦
        let (asc, len) = remove_node-Ascending x ys s.1 r in
        rw z ((remove_node-Below y x ys s.0 r, asc), omega (arith, len))
    | inr (eq, z) ↦ rw z (s.1, omega arith)
  ]

-- The invariant of a list.
pub record IsSorted {A : Type 0} (l : ListCdt A) : Type 0 where
  pub ascending : Ascending l.cmp l.head
  pub counted : l.size ≡ length l.head

-- If `cmp` is a linear order, `list_add` keeps the list ascending and its size counted, also on a
-- duplicate and on a failed `malloc`.
pub list_add-IsSorted :
    {A : Type 0} {l : ListCdt A} (x : A) (alloc : Bool)
    → IsLinear l.cmp
    → IsSorted l
    → IsSorted (list_add l x alloc).1
unfolding list_add
list_add-IsSorted {A} {l} x alloc lin s = elim (Option-cases (add_node l.cmp x l.head)) [
  | inl n ↦ rw (n, list_add) s
  | inr (nodes, e) ↦ elim (Bool-cases alloc) [
    | inl t ↦
        let (asc, len) = add_node-Ascending lin x l.head s.ascending e in
        rw (e, t, list_add) (record { ascending = asc; counted = omega (arith, len, s.counted) })
    | inr f ↦ rw (e, f, list_add) s
  ]
]

is_null-false :
    {A : Type 0} (cmp : A → A → Ordering) (x : A) (xs : List A) {zs : List A}
    → remove_node cmp x xs ≡ some zs
    → is_null xs ≡ false
unfolding is_null remove_node
is_null-false cmp x [] e = ground arith
is_null-false cmp x (y ∷ ys) e = refl

pub list_remove_missing :
    {A : Type 0} (l : ListCdt A) (x : A)
    → remove_node l.cmp x l.head ≡ none
    → (list_remove l x).1 ≡ l
unfolding list_remove
list_remove_missing l x e = ground arith

pub list_remove_found :
    {A : Type 0} (l : ListCdt A) (x : A) {nodes : List A}
    → remove_node l.cmp x l.head ≡ some nodes
    → list_remove l x ≡ (true, record l { head = nodes; size = l.size - 1 })
unfolding list_remove
list_remove_found l x e = ground (arith, is_null-false l.cmp x l.head e)

-- If `cmp` is a linear order, `list_remove` keeps the list ascending and its size counted, whether
-- it removes an element or finds none.
pub list_remove-IsSorted :
    {A : Type 0} {l : ListCdt A} (x : A)
    → IsLinear l.cmp
    → IsSorted l
    → IsSorted (list_remove l x).1
list_remove-IsSorted {A} {l} x lin s = elim (Option-cases (remove_node l.cmp x l.head)) [
  | inl n ↦ rw (list_remove_missing l x n) s
  | inr (nodes, e) ↦
      let (asc, len) = remove_node-Ascending lin x l.head s.ascending e in
      rw (list_remove_found l x e)
        (record { ascending = asc; counted = omega (arith, len, s.counted) })
]
