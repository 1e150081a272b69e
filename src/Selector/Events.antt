-- ===== src/Selector/Events.antt =====
-- src/shared/selector.c: one call of `selector_select`, with the handlers that it calls and the
-- blocking jobs that it notifies.
pub mod Calls
use socks5proxy.Prelude.{
  ℕ, zero, suc, ◌+◌, Bool, true, false, ◌&&◌, not, Option, none, some, List, [], ◌∷◌, ◌==◌,
  if◌then◌else◌, ◌>>=◌, ◌>>◌, assert,
}
use socks5proxy.Selector.{
  op_read, op_write, SelectorStatus, selector_success, selector_enomem, selector_io, Item,
  FdSelector,
}
use socks5proxy.Selector.Table.{wants, item_of}

-- The part of `struct selector_key` that differs from call to call.
pub record SelectorKey (A : Type 0) : Type 0 where
  pub fd : ℕ
  pub attachment : A

-- The selector, its list of finished jobs by their descriptors, and what its handlers reach.
pub record Served (A W : Type 0) : Type 0 where
  pub selector : FdSelector A
  pub resolution_jobs : List ℕ
  pub world : W

abbrev pub Callback : Type 0 → Type 0 → Type 0
Callback A W = SelectorKey A → Served A W → Option (Served A W)

-- `struct fd_handler`, found by the attachment of an item; a null pointer is `none`.
pub record FdHandler (A W : Type 0) : Type 0 where
  pub handle_read : A → Option (Callback A W)
  pub handle_write : A → Option (Callback A W)
  pub handle_block : A → Option (Callback A W)

-- What `pselect` did: the two sets of ready descriptors, or -1 with an `errno`.
pub data Pselect : Type 0 where
  ready : (ℕ → Bool) → (ℕ → Bool) → Pselect
  interrupted bad_descriptor other_failure : Pselect

-- A step through a null pointer, which for the two interests is the assert that says so.
unfoldable pub callback : {A W : Type 0} → Option (Callback A W) → Callback A W
callback none key s = none
callback (some f) key s = f key s

module _ {A W : Type 0} (h : FdHandler A W) where
  -- The second half of the body of the loop. The pointer to the item, read if the descriptor is in
  -- the set, is stale if the table has been moved; an item that has been taken out has no interest.
  unfoldable pub handle_write_item :
      (ℕ → Bool) → ℕ → ℕ → SelectorKey A → Served A W → Option (Served A W)
  handle_write_item slave_w i size key s = if not (slave_w i) then some s else (do
    _ ← assert (s.selector.fd_size == size)
    slot ← item_of s.selector i
    elim slot [
      | none ↦ some s
      | some item ↦
          if wants op_write item.interest
          then callback (h.handle_write item.attachment) key s
          else some s
    ])

  -- The body of the loop of `handle_iteration` for the item `i`.
  unfoldable pub handle_item : (ℕ → Bool) → (ℕ → Bool) → ℕ → Served A W → Option (Served A W)
  handle_item slave_r slave_w i s = do
    slot ← item_of s.selector i
    elim slot [
      | none ↦ some s
      | some item ↦
          let key : SelectorKey A = record { fd = item.fd; attachment = item.attachment } in
          do
            s' ←
                (if slave_r item.fd && wants op_read item.interest
                  then callback (h.handle_read item.attachment) key s
                  else some s)
            handle_write_item slave_w i s.selector.fd_size key s'
    ]

  -- The loop over `n` items from `i` on.
  unfoldable pub handle_items : (ℕ → Bool) → (ℕ → Bool) → ℕ → ℕ → Served A W → Option (Served A W)
  handle_items slave_r slave_w zero i s = some s
  handle_items slave_r slave_w (suc n) i s = do
    s' ← handle_item slave_r slave_w i s
    handle_items slave_r slave_w n (i + 1) s'

  unfoldable pub handle_iteration : (ℕ → Bool) → (ℕ → Bool) → Served A W → Option (Served A W)
  handle_iteration slave_r slave_w s = handle_items slave_r slave_w (s.selector.max_fd + 1) 0 s

  -- The loop over the jobs.
  unfoldable pub handle_jobs : List ℕ → Served A W → Option (Served A W)
  handle_jobs [] s = some s
  handle_jobs (fd ∷ jobs) s = do
    slot ← item_of s.selector fd
    s' ← elim slot [
      | none ↦ some s
      | some item ↦
          callback (h.handle_block item.attachment)
            (record { fd = item.fd; attachment = item.attachment }) s
    ]
    handle_jobs jobs s'

  unfoldable pub handle_block_notifications : Served A W → Option (Served A W)
  handle_block_notifications s = do
    s' ← handle_jobs s.resolution_jobs s
    some (record s' { resolution_jobs = [] })

  unfoldable pub selector_select : Served A W → Pselect → Option (SelectorStatus × Served A W)
  selector_select s (ready slave_r slave_w) = do
    s' ← handle_iteration slave_r slave_w s
    s'' ← handle_block_notifications s'
    some (selector_success, s'')
  selector_select s interrupted = do s' ← handle_block_notifications s; some (selector_success, s')
  selector_select s bad_descriptor = some (selector_io, s)
  selector_select s other_failure = some (selector_io, s)

-- `malloc` answers by `alloc`.
unfoldable pub selector_notify_block :
    {A W : Type 0} → Served A W → ℕ → Bool → SelectorStatus × Served A W
selector_notify_block s fd alloc =
    if not alloc
    then (selector_enomem, s)
    else (selector_success, record s { resolution_jobs = fd ∷ s.resolution_jobs })
