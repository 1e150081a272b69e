-- ===== src/Selector/Table.antt =====
-- src/shared/selector.c: how descriptors enter the table, leave it, and change their interest. A read
-- or write behind the table is `none`; the arguments `s` and `handler` are not NULL.
pub mod Slots
pub mod Invariant
pub mod Calls
pub mod Sequence
use Prim.Native.Nat.{bit_and}
use socks5proxy.Prelude.{
  ℕ, zero, suc, ◌+◌, Bool, true, false, not, Option, none, some, List, [], ◌∷◌, ltb, leb, ◌==◌,
  if◌then◌else◌, length, get_elem?, set, take, ◌>>=◌, ◌>>◌, assert,
}
use socks5proxy.Selector.{
  op_noop, op_read, op_write, items_max_size, SelectorStatus, selector_success, selector_iargs,
  selector_fdinuse, Item, FdSelector, ensure_capacity,
}

-- `FD_CLR` and `FD_SET`
unfoldable pub fd_clr : ℕ → (ℕ → Bool) → ℕ → Bool
fd_clr fd m = λ i. if i == fd then false else m i

unfoldable pub fd_set : ℕ → (ℕ → Bool) → ℕ → Bool
fd_set fd m = λ i. if i == fd then true else m i

-- `interest & flag`
unfoldable pub wants : ℕ → ℕ → Bool
wants flag interest = not (bit_and interest flag == 0)

-- `SELECTOR_SUCCESS == ret`
unfoldable pub succeeded : SelectorStatus → Bool
succeeded selector_success = true
succeeded _ = false

module _ {A : Type 0} where
  unfoldable pub items_update_fdset_for_fd : FdSelector A → Item A → FdSelector A
  items_update_fdset_for_fd s item =
      let r = fd_clr item.fd s.master_r in
      let w = fd_clr item.fd s.master_w in
      record s {
        master_r = if wants op_read item.interest then fd_set item.fd r else r;
        master_w = if wants op_write item.interest then fd_set item.fd w else w;
      }

  -- The loop of `items_max_fd` over the items up to `max_fd`.
  unfoldable pub max_used : ℕ → List (Option (Item A)) → ℕ
  max_used max [] = max
  max_used max (none ∷ items) = max_used max items
  max_used max (some item ∷ items) = max_used (if ltb max item.fd then item.fd else max) items

  unfoldable pub items_max_fd : FdSelector A → Option ℕ
  items_max_fd s = do
    items ← s.fds
    _ ← assert (ltb s.max_fd (length items))
    some (max_used 0 (take (s.max_fd + 1) items))

  pub selector_new : ℕ → Bool → Option (SelectorStatus × FdSelector A)
  selector_new initial_elements alloc =
      ensure_capacity
        (record {
          fds = none;
          fd_size = 0;
          max_fd = 0;
          master_r = λ i. false;
          master_w = λ i. false;
        })
        initial_elements alloc

  -- The part of `selector_register` behind the test for space.
  unfoldable pub register_item : FdSelector A → Item A → Option (SelectorStatus × FdSelector A)
  register_item s item = do
    items ← s.fds
    slot ← get_elem? items item.fd
    elim slot [
      | some _ ↦ some (selector_fdinuse, s)
      | none ↦
          let s' = record s {
            fds = some (set items item.fd (some item));
            max_fd = if ltb s.max_fd item.fd then item.fd else s.max_fd;
          } in
          some (selector_success, items_update_fdset_for_fd s' item)
    ]

  pub selector_register : FdSelector A → ℕ → ℕ → A → Bool → Option (SelectorStatus × FdSelector A)
  selector_register s fd interest attachment alloc =
      let item : Item A = record { fd = fd; interest = interest; attachment = attachment } in
      if leb items_max_size fd
      then some (selector_iargs, s)
      else if ltb s.fd_size fd
      then (do
        (ret, s') ← ensure_capacity s fd alloc
        if succeeded ret then register_item s' item else some (ret, s'))
      else register_item s item

  -- The item of a descriptor: `none` within if it is not in use.
  unfoldable pub item_of : FdSelector A → ℕ → Option (Option (Item A))
  item_of s fd = do items ← s.fds; get_elem? items fd

  -- What both ways to unregister do at the end.
  unfoldable pub remove_item : FdSelector A → ℕ → Item A → Option (SelectorStatus × FdSelector A)
  remove_item s fd item = do
    items ← s.fds
    let s' = items_update_fdset_for_fd s (record item { interest = op_noop })
    let s'' = record s' { fds = some (set items fd none) }
    max ← items_max_fd s''
    some (selector_success, record s'' { max_fd = max })

  pub selector_unregister_fd_without_closing :
      FdSelector A → ℕ → Option (SelectorStatus × FdSelector A)
  selector_unregister_fd_without_closing s fd =
      if leb items_max_size fd then some (selector_iargs, s) else (do
        slot ← item_of s fd
        elim slot [ none ↦ some (selector_iargs, s) | some item ↦ remove_item s fd item ])

  -- `handle_close` is what the handler of an item does to the selector, none if the pointer is null.
  -- A handler that unregisters the same descriptor makes the function clear the bit of fd -1.
  pub selector_unregister_fd :
      (Item A → Option (FdSelector A → FdSelector A))
      → FdSelector A
      → ℕ
      → Option (SelectorStatus × FdSelector A)
  selector_unregister_fd handle_close s fd =
      if leb items_max_size fd then some (selector_iargs, s) else (do
        slot ← item_of s fd
        elim slot [
          | none ↦ some (selector_iargs, s)
          | some item ↦ elim (handle_close item) [
            | none ↦ remove_item s fd item
            | some close ↦ do
              slot' ← item_of (close s) fd
              item' ← slot'
              remove_item (close s) fd item'
          ]
        ])

  pub selector_set_interest : FdSelector A → ℕ → ℕ → Option (SelectorStatus × FdSelector A)
  selector_set_interest s fd i = if leb items_max_size fd then some (selector_iargs, s) else (do
    items ← s.fds
    slot ← get_elem? items fd
    elim slot [
      | none ↦ some (selector_iargs, s)
      | some item ↦
          let item' = record item { interest = i } in
          some (
            selector_success,
            items_update_fdset_for_fd (record s { fds = some (set items fd (some item')) }) item',
          )
    ])
