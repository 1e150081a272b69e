-- ===== src/Selector/Table/Invariant.antt =====
-- The invariant of the table of descriptors, which every operation of src/shared/selector.c keeps.
use socks5proxy.Prelude.{
  ℕ, ◌+◌, ◌≤◌, ◌<◌, ◌≡◌, refl, sym, ap, ◌∙◌, Bool, false, Option, none, some, List, ◌++◌, ltb, ◌==◌,
  if◌then◌else◌, length, set, take, replicate, arith, Bool-cases, inl, inr, ◌⊎◌, length-set,
  length-append,
}
use socks5proxy.Selector.{op_noop, op_read, op_write, Item, FdSelector}
use socks5proxy.Selector.Table.{
  fd_clr, fd_set, wants, items_update_fdset_for_fd, max_used, items_max_fd,
}
use socks5proxy.Selector.Table.Slots.{
  item_at, item_at-lt, item_at-set, item_at-append, item_at-take, item_at-some_of_take,
  max_used-upper, max_used-Attained,
}

-- Whether an item, if there is one, is interested.
abbrev pub wanted : {A : Type 0} → ℕ → Option (Item A) → Bool
wanted flag none = false
wanted flag (some item) = wants flag item.interest

-- The table `items` of a selector: its size is counted, an item stands at the index of its
-- descriptor, no descriptor in use is above `max_fd`, which is in use itself or 0, and the two sets
-- hold exactly the descriptors with that interest.
pub record Tabled {A : Type 0} (s : FdSelector A) (items : List (Option (Item A))) : Type 0 where
  pub table : s.fds ≡ some items
  pub counted : s.fd_size ≡ length items
  pub inside : s.max_fd < length items
  pub own : (i : ℕ) (x : Item A) → item_at items i ≡ some x → x.fd ≡ i
  pub upper : (i : ℕ) (x : Item A) → item_at items i ≡ some x → i ≤ s.max_fd
  pub used : (s.max_fd ≡ 0) ⊎ ((x : Item A) × (item_at items s.max_fd ≡ some x))
  pub reads : (i : ℕ) → s.master_r i ≡ wanted op_read (item_at items i)
  pub writes : (i : ℕ) → s.master_w i ≡ wanted op_write (item_at items i)

abbrev pub IsValid : {A : Type 0} → FdSelector A → Type 0
IsValid {A} s = (items : List (Option (Item A))) × Tabled s items

module _ {A : Type 0} where
  -- Setting an item's bits makes the sets right for the table with the item at its place.
  pub update-reads :
      (s : FdSelector A) (items : List (Option (Item A))) (x : Item A) (i : ℕ)
      → s.master_r i ≡ wanted op_read (item_at items i)
      → x.fd < length items
      → (items_update_fdset_for_fd s x).master_r i
        ≡ wanted op_read (item_at (set items x.fd (some x)) i)
  unfolding items_update_fdset_for_fd fd_clr fd_set
  update-reads s items x i e h =
      let q = item_at-set items x.fd i (some x) h in
      elim (Bool-cases (wants op_read x.interest)) [
        | inl t ↦ ground (arith, q)
        | inr f ↦ ground (arith, q)
      ]

  pub update-writes :
      (s : FdSelector A) (items : List (Option (Item A))) (x : Item A) (i : ℕ)
      → s.master_w i ≡ wanted op_write (item_at items i)
      → x.fd < length items
      → (items_update_fdset_for_fd s x).master_w i
        ≡ wanted op_write (item_at (set items x.fd (some x)) i)
  unfolding items_update_fdset_for_fd fd_clr fd_set
  update-writes s items x i e h =
      let q = item_at-set items x.fd i (some x) h in
      elim (Bool-cases (wants op_write x.interest)) [
        | inl t ↦ ground (arith, q)
        | inr f ↦ ground (arith, q)
      ]

  -- What `items_update_fdset_for_fd` leaves alone.
  update-fds : (s : FdSelector A) (x : Item A) → (items_update_fdset_for_fd s x).fds ≡ s.fds
  unfolding items_update_fdset_for_fd
  update-fds s x = refl

  -- An item goes to the place of its descriptor, and `max_fd` with it.
  pub placed-Tabled :
      (s : FdSelector A) (items : List (Option (Item A))) (x : Item A)
      → Tabled s items
      → x.fd < length items
      → Tabled
          (items_update_fdset_for_fd
            (record s {
              fds = some (set items x.fd (some x));
              max_fd = if ltb s.max_fd x.fd then x.fd else s.max_fd;
            })
            x)
          (set items x.fd (some x))
  unfolding items_update_fdset_for_fd
  placed-Tabled s items x t h =
      let s' : FdSelector A = record s {
        fds = some (set items x.fd (some x));
        max_fd = if ltb s.max_fd x.fd then x.fd else s.max_fd;
      } in
      record {
        table = refl;
        counted = t.counted ∙ sym (length-set items x.fd (some x));
        inside = ground (arith, length-set items x.fd (some x), t.inside);
        own = λ i y e.
            let q = item_at-set items x.fd i (some x) h in
            elim (Bool-cases (i == x.fd)) [
              | inl z ↦ ground (arith, q)
              | inr z ↦ t.own i y (ground (arith, q))
            ];
        upper = λ i y e.
            let q = item_at-set items x.fd i (some x) h in
            elim (Bool-cases (i == x.fd)) [
              | inl z ↦ ground arith
              | inr z ↦ let u = t.upper i y (ground (arith, q)) in ground arith
            ];
        used =
            (let here : item_at (set items x.fd (some x)) x.fd ≡ some x =
                ground (arith, item_at-set items x.fd x.fd (some x) h) in
              elim (Bool-cases (ltb s.max_fd x.fd)) [
                | inl l ↦ rw l (inr (x, here))
                | inr l ↦ rw l (elim t.used [
                  | inl z ↦ inl z
                  | inr (y, e) ↦
                      let q = item_at-set items x.fd s.max_fd (some x) h in
                      elim (Bool-cases (s.max_fd == x.fd)) [
                        | inl z ↦ inr (x, ground (arith, q))
                        | inr z ↦ inr (y, ground (arith, q))
                      ]
                ])
              ]);
        reads = λ i. update-reads s' items x i (t.reads i) h;
        writes = λ i. update-writes s' items x i (t.writes i) h;
      }

  -- Free items behind the table change nothing.
  pub grown-Tabled :
      (s : FdSelector A) (items : List (Option (Item A))) (k n : ℕ)
      → Tabled s items
      → n ≡ length (items ++ replicate k none)
      → Tabled
          (record s { fds = some (items ++ replicate k none); fd_size = n })
          (items ++ replicate k none)
  grown-Tabled s items k n t e =
      let a : (i : ℕ) → item_at (items ++ replicate k none) i ≡ item_at items i =
        item_at-append items k in
      record {
        table = refl;
        counted = e;
        inside =
            omega (arith, t.inside, length-append items (replicate {A = Option (Item A)} k none));
        own = λ i y h. t.own i y (sym (a i) ∙ h);
        upper = λ i y h. t.upper i y (sym (a i) ∙ h);
        used = elim t.used [ inl z ↦ inl z | inr (y, h) ↦ inr (y, a s.max_fd ∙ h) ];
        reads = λ i. t.reads i ∙ ap (wanted op_read) (sym (a i));
        writes = λ i. t.writes i ∙ ap (wanted op_write) (sym (a i));
      }

  -- An item is taken out and `max_fd` computed again.
  pub removed-Tabled :
      (s : FdSelector A) (items : List (Option (Item A))) (x : Item A)
      → Tabled s items
      → item_at items x.fd ≡ some x
      → (max : ℕ) × (items_max_fd
            (record (items_update_fdset_for_fd s (record x { interest = op_noop })) {
              fds = some (set items x.fd none);
            })
          ≡ some max)
        × Tabled
            (record (items_update_fdset_for_fd s (record x { interest = op_noop })) {
              fds = some (set items x.fd none);
              max_fd = max;
            })
            (set items x.fd none)
  unfolding items_max_fd items_update_fdset_for_fd fd_clr fd_set wants
  removed-Tabled s items x t e =
      let h : x.fd < length items = item_at-lt items x.fd e in
      let free = set items x.fd none in
      let at : (i : ℕ) → item_at free i ≡ (if i == x.fd then none else item_at items i) =
        (λ i. item_at-set items x.fd i none h) in
      let max = max_used 0 (take (s.max_fd + 1) free) in
      let size = length-set items x.fd none in
      let low : (i : ℕ) (y : Item A) → item_at free i ≡ some y → item_at items i ≡ some y =
        (λ i y q. elim (Bool-cases (i == x.fd)) [
          | inl z ↦ absurd (ground (arith, at i))
          | inr z ↦ ground (arith, at i)
        ]) in
      let found : (max ≡ 0) ⊎ ((y : Item A) × (item_at free max ≡ some y)) =
        elim (max_used-Attained 0 (take (s.max_fd + 1) free)) [
          | inl z ↦ inl z
          | inr (i, y, q, z) ↦
              let q' = item_at-some_of_take (s.max_fd + 1) free i q in
              let z' : max ≡ i = z ∙ t.own i y (low i y q') in inr (y, ap (item_at free) z' ∙ q')
        ] in
      (
        max,
        ground (arith, t.inside, length-set items x.fd none),
        record {
          table = refl;
          counted = t.counted ∙ sym (length-set items x.fd none);
          inside = elim found [
            | inl z ↦ omega (arith, size, h, z)
            | inr (y, q) ↦ item_at-lt free max q
          ];
          own = λ i y q. t.own i y (low i y q);
          upper = λ i y q.
              let l = t.upper i y (low i y q) in
              let o = t.own i y (low i y q) in
              let b = item_at-take (s.max_fd + 1) free i (omega (arith, l)) in
              let u = max_used-upper (take (s.max_fd + 1) free) 0 i (b ∙ q) in omega (arith, o, u);
          used = found;
          reads = λ i. elim (Bool-cases (i == x.fd)) [
            | inl z ↦ ground (arith, at i, t.reads i)
            | inr z ↦ ground (arith, at i, t.reads i)
          ];
          writes = λ i. elim (Bool-cases (i == x.fd)) [
            | inl z ↦ ground (arith, at i, t.writes i)
            | inr z ↦ ground (arith, at i, t.writes i)
          ];
        },
      )
