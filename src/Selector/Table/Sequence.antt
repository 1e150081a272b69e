-- ===== src/Selector/Table/Sequence.antt =====
-- Any call on the table of src/shared/selector.c, and a descriptor that is registered and taken out.
use socks5proxy.Prelude.{
  ℕ, zero, suc, ◌≤◌, ◌<◌, ◌≡◌, refl, sym, ap, ◌∙◌, fun_ext, Bool, true, false, not, Option, none,
  some, List, [], ◌∷◌, ltb, leb, ◌==◌, get_elem?, set, replicate, arith, Bool-cases, Option-cases,
  inl, inr, length-set, le→ltb, gt→leb, ltb→lt,
}
use socks5proxy.Selector.{
  items_max_size, SelectorStatus, selector_success, selector_iargs, Item, FdSelector,
  ensure_capacity,
}
use socks5proxy.Selector.Capacity.{next_capacity_lem, length-replicate}
use socks5proxy.Selector.Table.{
  selector_new, selector_register, item_of, selector_unregister_fd_without_closing,
  selector_unregister_fd, selector_set_interest,
}
use socks5proxy.Selector.Table.Slots.{item_at, item_at-none, item_at-set, get_elem?-lt}
use socks5proxy.Selector.Table.Invariant.{Tabled, IsValid}
use socks5proxy.Selector.Table.Calls.{
  Returns, selector_register-Returns, remove_item-Returns, remove_item-Tabled, register_item-Tabled,
  item_of_lem, selector_unregister_fd_without_closing-Returns, selector_set_interest-Returns,
}

-- A call with its arguments. `alloc` says that `realloc` gets its memory.
pub data SelectorCall (A : Type 0) : Type 0 where
  register : (fd : ℕ) (interest : ℕ) (attachment : A) (alloc : Bool) → SelectorCall A
  unregister : ℕ → SelectorCall A
  unregister_without_closing : ℕ → SelectorCall A
  set_interest : ℕ → ℕ → SelectorCall A

-- What handlers do on close to a selector, `none` if the pointer is null.
abbrev pub Hook : Type 0 → Type 0
Hook A = Item A → Option (FdSelector A → FdSelector A)

-- A handler that is closed may use the selector, but leaves its own item where it is.
abbrev pub Keeps : {A : Type 0} → Hook A → Type 0
Keeps {A} hook =
    (x : Item A) (close : FdSelector A → FdSelector A) (s : FdSelector A)
    → hook x ≡ some close
    → IsValid s
    → IsValid (close s)
      × (s.fd_size ≤ (close s).fd_size)
      × (item_of (close s) x.fd ≡ item_of s x.fd)

module _ {A : Type 0} where
  unfoldable pub perform :
      Hook A → FdSelector A → SelectorCall A → Option (SelectorStatus × FdSelector A)
  perform hook s (register fd interest a alloc) = selector_register s fd interest a alloc
  perform hook s (unregister fd) = selector_unregister_fd hook s fd
  perform hook s (unregister_without_closing fd) = selector_unregister_fd_without_closing s fd
  perform hook s (set_interest fd i) = selector_set_interest s fd i

  -- The descriptor is one that the call looks up inside the table: `selector_register` makes room
  -- for any but the one that is the size of the table.
  unfoldable pub covers : FdSelector A → SelectorCall A → Bool
  covers s (register fd interest a alloc) = not (fd == s.fd_size)
  covers s (unregister fd) = ltb fd s.fd_size
  covers s (unregister_without_closing fd) = ltb fd s.fd_size
  covers s (set_interest fd i) = ltb fd s.fd_size

  selector_unregister_fd-Returns :
      (hook : Hook A) (s : FdSelector A) (fd : ℕ)
      → Keeps hook
      → IsValid s
      → fd < s.fd_size
      → Returns (selector_unregister_fd hook s fd)
  unfolding selector_unregister_fd
  selector_unregister_fd-Returns hook s fd keeps (items, t) h =
      let g = item_of_lem s items fd t (omega (arith, t.counted)) in
      elim (Bool-cases (leb items_max_size fd)) [
        | inl l ↦ (selector_iargs, s, rw l refl, (items, t))
        | inr l ↦ elim (Option-cases (item_at items fd)) [
          | inl n ↦ (selector_iargs, s, rw (l, g, n) refl, (items, t))
          | inr (x, q) ↦ elim (Option-cases (hook x)) [
            | inl n ↦
                let (st, s', e, v) = remove_item-Returns s items fd x t q in
                (st, s', ground (arith, l, g, q, n, e), v)
            | inr (close, c) ↦
                let ((items', t'), size, same) = keeps x close s c (items, t) in
                let o = t.own fd x q in
                let g' =
                  item_of_lem (close s) items' fd t' (omega (arith, t'.counted, size, t.counted)) in
                let q' : item_at items' fd ≡ some x = ground (arith, g', same, g, q, o) in
                let (st, s', e, v) = remove_item-Returns (close s) items' fd x t' q' in
                (st, s', ground (arith, l, g, q, c, g', q', e), v)
          ]
        ]
      ]

  -- On a selector that keeps the invariant, with handlers that keep it when they are closed, a call
  -- that finds its descriptor inside the table returns a status, and a selector that keeps the
  -- invariant: the items at their descriptors, `max_fd` the largest in use, and the two sets exact.
  pub perform-Returns :
      (hook : Hook A) (s : FdSelector A) (call : SelectorCall A)
      → Keeps hook
      → IsValid s
      → covers s call ≡ true
      → Returns (perform hook s call)
  unfolding perform covers
  perform-Returns hook s (register fd interest a alloc) k v c =
      selector_register-Returns s fd interest a alloc v (ground arith)
  perform-Returns hook s (unregister fd) k v c =
      selector_unregister_fd-Returns hook s fd k v (ltb→lt fd s.fd_size c)
  perform-Returns hook s (unregister_without_closing fd) k v c =
      selector_unregister_fd_without_closing-Returns s fd v (ltb→lt fd s.fd_size c)
  perform-Returns hook s (set_interest fd i) k v c =
      selector_set_interest-Returns s fd i v (ltb→lt fd s.fd_size c)

  -- For a number of descriptors up to the limit of the platform, `selector_new` gives a selector that
  -- keeps the invariant, when there is memory.
  pub selector_new-IsValid :
      (n : ℕ)
      → n ≤ items_max_size
      → (s : FdSelector A) × (selector_new n true ≡ some (selector_success, s))
        × IsValid s
        × (n < s.fd_size)
  unfolding selector_new ensure_capacity
  selector_new-IsValid n h =
      let (m, e, lt, le) = next_capacity_lem n h in
      let free : List (Option (Item A)) = replicate m none in
      let big : ltb items_max_size n ≡ false = le→ltb items_max_size n h in
      let small : ltb n 0 ≡ false = le→ltb n 0 (omega arith) in
      let size = length-replicate {A = Option (Item A)} m none in
      (
        record {
          fds = some free;
          fd_size = m;
          max_fd = 0;
          master_r = λ i. false;
          master_w = λ i. false;
        },
        rw (small, big, e) refl,
        (
          free,
          record {
            table = refl;
            counted = sym size;
            inside = omega (arith, size, lt);
            own = λ i x q. absurd (ground (arith, item_at-none {A = A} m i));
            upper = λ i x q. absurd (ground (arith, item_at-none {A = A} m i));
            used = inl refl;
            reads = λ i. ground (arith, item_at-none {A = A} m i);
            writes = λ i. ground (arith, item_at-none {A = A} m i);
          },
        ),
        lt,
      )

  -- A handler that does nothing when it is closed is as good as none.
  pub unregister_inert :
      (s : FdSelector A) (fd : ℕ)
      → selector_unregister_fd (λ item. some (λ t. t)) s fd
        ≡ selector_unregister_fd_without_closing s fd
  unfolding selector_unregister_fd selector_unregister_fd_without_closing
  unregister_inert s fd = elim (Option-cases (item_of s fd)) [
    | inl n ↦ rw n refl
    | inr (none, e) ↦ rw e refl
    | inr (some item, e) ↦ rw e (rw e refl)
  ]

  -- A table determines the selector that keeps the invariant with it.
  Tabled-unique :
      (s s' : FdSelector A) (items : List (Option (Item A)))
      → Tabled s items
      → Tabled s' items
      → s ≡ s'
  Tabled-unique s s' items t t' =
      let a : s.fds ≡ s'.fds = t.table ∙ sym t'.table in
      let b : s.fd_size ≡ s'.fd_size = t.counted ∙ sym t'.counted in
      let r : s.master_r ≡ s'.master_r = fun_ext (λ i. t.reads i ∙ sym (t'.reads i)) in
      let w : s.master_w ≡ s'.master_w = fun_ext (λ i. t.writes i ∙ sym (t'.writes i)) in
      let le : s.max_fd ≤ s'.max_fd = elim t.used [
        | inl z ↦ omega (arith, z)
        | inr (x, e) ↦ t'.upper s.max_fd x e
      ] in
      let ge : s'.max_fd ≤ s.max_fd = elim t'.used [
        | inl z ↦ omega (arith, z)
        | inr (x, e) ↦ t.upper s'.max_fd x e
      ] in
      let m : s.max_fd ≡ s'.max_fd = omega (arith, le, ge) in cc (a, b, r, w, m)

  set-set :
      (xs : List (Option (Item A))) (i : ℕ) (x y : Option (Item A))
      → set (set xs i x) i y ≡ set xs i y
  set-set [] i x y = refl
  set-set (z ∷ xs) zero x y = refl
  set-set (z ∷ xs) (suc i) x y = ap (λ t. z ∷ t) (set-set xs i x y)

  set_same :
      (xs : List (Option (Item A))) (i : ℕ) {x : Option (Item A)}
      → get_elem? xs i ≡ some x
      → set xs i x ≡ xs
  set_same [] i e = refl
  set_same (z ∷ xs) zero e = ground arith
  set_same (z ∷ xs) (suc i) e = ap (λ t. z ∷ t) (set_same xs i e)

  -- A descriptor of the table that is not in use is registered; when it is taken out again without
  -- closing, the selector is exactly what it was, `max_fd` and the two sets included.
  pub register-unregister :
      (s : FdSelector A) (fd interest : ℕ) (a : A) (alloc : Bool)
      → IsValid s
      → item_of s fd ≡ some none
      → fd < items_max_size
      → (s' : FdSelector A) × (selector_register s fd interest a alloc
          ≡ some (selector_success, s'))
        × (selector_unregister_fd_without_closing s' fd ≡ some (selector_success, s))
  unfolding selector_register selector_unregister_fd_without_closing item_of
  register-unregister s fd interest a alloc (items, t) free h =
      let item : Item A = record { fd = fd; interest = interest; attachment = a } in
      let g : get_elem? items fd ≡ some none = rw t.table at free in
      let (lt, n) = get_elem?-lt items fd g in
      let l : leb items_max_size fd ≡ false = gt→leb items_max_size fd h in
      let k : ltb s.fd_size fd ≡ false = le→ltb s.fd_size fd (omega (arith, t.counted, lt)) in
      let (s', e, t') = register_item-Tabled s items item t lt n in
      let used = set items fd (some item) in
      let q : item_at used fd ≡ some item =
        ground (arith, item_at-set items fd fd (some item) lt) in
      let g' = item_of_lem s' used fd t' (omega (arith, length-set items fd (some item), lt)) in
      let (s₂, e₂, t₂) = remove_item-Tabled s' used fd item t' q in
      let back : set used fd none ≡ items =
        set-set items fd (some item) none ∙ set_same items fd g in
      let same : s₂ ≡ s = Tabled-unique s₂ s items (rw back at t₂) t in
      (s', rw (l, k) e, rw (l, g', q) (rw same at e₂))
