-- ===== src/Selector/Table/Calls.antt =====
-- The calls of src/shared/selector.c that change the table, on a table that keeps the invariant.
use socks5proxy.Prelude.{
  ℕ, ◌-◌, ◌≤◌, ◌<◌, ◌≡◌, refl, ap, subst, ◌∙◌, Bool, false, Option, none, some, List, ◌++◌, ltb,
  leb, ◌==◌, length, set, replicate, arith, Bool-cases, Option-cases, inl, inr, ◌⊎◌, length-append,
  ltb→lt, le→ltb,
}
use socks5proxy.Selector.{
  items_max_size, SelectorStatus, selector_success, selector_iargs, selector_fdinuse,
  selector_enomem, Item, FdSelector, ensure_capacity,
}
use socks5proxy.Selector.Capacity.{next_capacity_lem, length-replicate}
use socks5proxy.Selector.Table.{
  items_update_fdset_for_fd, register_item, selector_register, succeeded, item_of, remove_item,
  selector_unregister_fd_without_closing, selector_set_interest,
}
use socks5proxy.Selector.Table.Slots.{item_at, get_elem?-item_at, item_at-lt}
use socks5proxy.Selector.Table.Invariant.{
  Tabled, IsValid, placed-Tabled, grown-Tabled, removed-Tabled,
}

-- A call returned, with a status, and left a selector that keeps the invariant.
abbrev pub Returns : {A : Type 0} → Option (SelectorStatus × FdSelector A) → Type 0
Returns {A} r = (st : SelectorStatus) × (s : FdSelector A) × (r ≡ some (st, s)) × IsValid s

module _ {A : Type 0} where
  -- The table is enough for `n` if the status is SELECTOR_SUCCESS.
  ensure_capacity-IsValid :
      (s : FdSelector A) (items : List (Option (Item A))) (n : ℕ) (alloc : Bool)
      → Tabled s items
      → n ≤ items_max_size
      → (st : SelectorStatus) × (s' : FdSelector A) × (items' : List (Option (Item A)))
        × (ensure_capacity s n alloc ≡ some (st, s'))
        × Tabled s' items'
        × ((succeeded st ≡ false) ⊎ (n < length items'))
  unfolding ensure_capacity succeeded
  ensure_capacity-IsValid s items n alloc t h = elim (Bool-cases (ltb n s.fd_size)) [
    | inl l ↦ (
      selector_success,
      s,
      items,
      rw l refl,
      t,
      inr (omega (arith, ltb→lt n s.fd_size l, t.counted)),
    )
    | inr l ↦
        let (m, e, lt, le) = next_capacity_lem n h in
        let big : ltb items_max_size n ≡ false = le→ltb items_max_size n h in
        elim (Bool-cases alloc) [
          | inr no_memory ↦ (selector_enomem, s, items, rw (l, big, e, no_memory), t, inl refl)
          | inl memory ↦
              let at : s.fd_size ≤ n = ground arith in
              let free : List (Option (Item A)) = replicate (m - s.fd_size) none in
              let size : m ≡ length (items ++ free) = omega (
                arith,
                length-append items free,
                length-replicate {A = Option (Item A)} (m - s.fd_size) none,
                t.counted,
                lt,
                at,
              ) in
              (
                selector_success,
                record s { fds = some (items ++ free); fd_size = m },
                items ++ free,
                rw (l, big, e, memory, t.table),
                grown-Tabled s items (m - s.fd_size) m t size,
                inr (omega (arith, size, lt)),
              )
        ]
  ]

  -- An item enters the table at a free place.
  pub register_item-Tabled :
      (s : FdSelector A) (items : List (Option (Item A))) (x : Item A)
      → Tabled s items
      → x.fd < length items
      → item_at items x.fd ≡ none
      → (s' : FdSelector A) × (register_item s x ≡ some (selector_success, s'))
        × Tabled s' (set items x.fd (some x))
  unfolding register_item
  register_item-Tabled s items x t h n =
      let g = get_elem?-item_at items x.fd h in
      (_, ground (arith, t.table, g, n), placed-Tabled s items x t h)

  register_item-Returns :
      (s : FdSelector A) (items : List (Option (Item A))) (x : Item A)
      → Tabled s items
      → x.fd < length items
      → Returns (register_item s x)
  unfolding register_item
  register_item-Returns s items x t h = elim (Option-cases (item_at items x.fd)) [
    | inl n ↦
        let (s', e, t') = register_item-Tabled s items x t h n in
        (selector_success, s', e, (set items x.fd (some x), t'))
    | inr (y, q) ↦ (
      selector_fdinuse,
      s,
      ground (arith, t.table, get_elem?-item_at items x.fd h, q),
      (items, t),
    )
  ]

  -- A descriptor is registered, or the status says why not, unless it is the size of the table.
  pub selector_register-Returns :
      (s : FdSelector A) (fd interest : ℕ) (a : A) (alloc : Bool)
      → IsValid s
      → (fd == s.fd_size) ≡ false
      → Returns (selector_register s fd interest a alloc)
  unfolding selector_register
  selector_register-Returns s fd interest a alloc (items, t) n =
      let item : Item A = record { fd = fd; interest = interest; attachment = a } in
      elim (Bool-cases (leb items_max_size fd)) [
        | inl l ↦ (selector_iargs, s, rw l refl, (items, t))
        | inr l ↦ elim (Bool-cases (ltb s.fd_size fd)) [
          | inr k ↦
              let (st, s', e, v) =
                register_item-Returns s items item t (ground (arith, t.counted)) in
              (st, s', rw (l, k) e, v)
          | inl k ↦
              let (st, s', items', e, t', room) =
                ensure_capacity-IsValid s items fd alloc t (ground arith) in
              elim room [
                | inl f ↦ (st, s', rw (l, k, e, f) refl, (items', t'))
                | inr lt ↦ elim (Bool-cases (succeeded st)) [
                  | inr f ↦ (st, s', rw (l, k, e, f) refl, (items', t'))
                  | inl f ↦
                      let (st₂, s₂, e₂, v₂) = register_item-Returns s' items' item t' lt in
                      (st₂, s₂, rw (l, k, e, f) e₂, v₂)
                ]
              ]
        ]
      ]

  removed :
      (s : FdSelector A) (items : List (Option (Item A))) (x : Item A)
      → Tabled s items
      → item_at items x.fd ≡ some x
      → (s' : FdSelector A) × (remove_item s x.fd x ≡ some (selector_success, s'))
        × Tabled s' (set items x.fd none)
  unfolding remove_item
  removed s items x t e =
      let (max, m, t') = removed-Tabled s items x t e in (_, ground (arith, t.table, m), t')

  -- An item in use is removed, and nothing else.
  pub remove_item-Tabled :
      (s : FdSelector A) (items : List (Option (Item A))) (fd : ℕ) (x : Item A)
      → Tabled s items
      → item_at items fd ≡ some x
      → (s' : FdSelector A) × (remove_item s fd x ≡ some (selector_success, s'))
        × Tabled s' (set items fd none)
  remove_item-Tabled s items fd x t e =
      let o = t.own fd x e in
      subst
        (λ k.
          (s' : FdSelector A) × (remove_item s k x ≡ some (selector_success, s'))
          × Tabled s' (set items k none))
        o (removed s items x t (ap (item_at items) o ∙ e))

  pub remove_item-Returns :
      (s : FdSelector A) (items : List (Option (Item A))) (fd : ℕ) (x : Item A)
      → Tabled s items
      → item_at items fd ≡ some x
      → Returns (remove_item s fd x)
  remove_item-Returns s items fd x t e =
      let (s', q, t') = remove_item-Tabled s items fd x t e in
      (selector_success, s', q, (set items fd none, t'))

  -- An item in use is replaced by one of the same descriptor.
  replaced-Returns :
      (s : FdSelector A) (items : List (Option (Item A))) (fd : ℕ) (x y : Item A)
      → Tabled s items
      → item_at items fd ≡ some x
      → y.fd ≡ x.fd
      → Returns (
          some (
            selector_success,
            items_update_fdset_for_fd (record s { fds = some (set items fd (some y)) }) y,
          ))
  replaced-Returns s items fd x y t e same =
      let o : y.fd ≡ fd = same ∙ t.own fd x e in
      let u = le→ltb s.max_fd y.fd (rw o (t.upper fd x e)) in
      let h = item_at-lt items fd e in
      subst
        (λ k. Returns (
          some (
            selector_success,
            items_update_fdset_for_fd (record s { fds = some (set items k (some y)) }) y,
          )))
        o
        (
          selector_success,
          _,
          refl,
          (set items y.fd (some y), rw u at (placed-Tabled s items y t (omega (arith, o, h)))),
        )

  pub item_of_lem :
      (s : FdSelector A) (items : List (Option (Item A))) (fd : ℕ)
      → Tabled s items
      → fd < length items
      → item_of s fd ≡ some (item_at items fd)
  unfolding item_of
  item_of_lem s items fd t h = rw t.table (get_elem?-item_at items fd h)

  pub selector_unregister_fd_without_closing-Returns :
      (s : FdSelector A) (fd : ℕ)
      → IsValid s
      → fd < s.fd_size
      → Returns (selector_unregister_fd_without_closing s fd)
  unfolding selector_unregister_fd_without_closing
  selector_unregister_fd_without_closing-Returns s fd (items, t) h =
      let g = item_of_lem s items fd t (omega (arith, t.counted)) in
      elim (Bool-cases (leb items_max_size fd)) [
        | inl l ↦ (selector_iargs, s, rw l refl, (items, t))
        | inr l ↦ elim (Option-cases (item_at items fd)) [
          | inl n ↦ (selector_iargs, s, rw (l, g, n) refl, (items, t))
          | inr (x, q) ↦
              let (st, s', e, v) = remove_item-Returns s items fd x t q in
              (st, s', rw (l, g, q) e, v)
        ]
      ]

  pub selector_set_interest-Returns :
      (s : FdSelector A) (fd i : ℕ)
      → IsValid s
      → fd < s.fd_size
      → Returns (selector_set_interest s fd i)
  unfolding selector_set_interest
  selector_set_interest-Returns s fd i (items, t) h =
      let g = get_elem?-item_at items fd (omega (arith, t.counted)) in
      elim (Bool-cases (leb items_max_size fd)) [
        | inl l ↦ (selector_iargs, s, rw l refl, (items, t))
        | inr l ↦ elim (Option-cases (item_at items fd)) [
          | inl n ↦ (selector_iargs, s, ground (arith, l, t.table, g, n), (items, t))
          | inr (x, q) ↦
              let (st, s', e, v) =
                replaced-Returns s items fd x (record x { interest = i }) t q refl in
              (st, s', ground (arith, l, t.table, g, q, e), v)
        ]
      ]
