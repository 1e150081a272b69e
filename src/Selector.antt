-- ===== src/Selector.antt =====
-- src/shared/selector.c and its header: the interests, and the table of descriptors with the two sets
-- that `select` is called with. Descriptors are natural numbers, as the kernel gives them.
mod Tests
pub mod Capacity
pub mod Table
pub mod Events
use socks5proxy.Prelude.{
  ℕ, zero, suc, ◌+◌, ◌-◌, ◌/◌, ◌^◌, Bool, true, false, ◌||◌, not, Option, none, some, List, [],
  ◌++◌, ltb, leb, ◌==◌, if◌then◌else◌, length, get_elem?, set, replicate, ◌>>=◌, ◌>>◌, assert,
}

-- `FdInterest`
abbrev pub op_noop : ℕ
op_noop = 0

abbrev pub op_read : ℕ
op_read = 1

abbrev pub op_write : ℕ
op_write = 4

-- `FD_SETSIZE` of the platform
abbrev pub items_max_size : ℕ
items_max_size = 1024

-- `SelectorStatus`
pub data SelectorStatus : Type 0 where
  selector_success selector_enomem selector_maxfd selector_iargs selector_fdinuse selector_io :
      SelectorStatus

-- `struct item`: `A` is the handler and the data, the attachment. An item whose fd is FD_UNUSED is
-- `none` below.
pub record Item (A : Type 0) : Type 0 where
  pub fd : ℕ
  pub interest : ℕ
  pub attachment : A

-- `struct fdselector`: the table, `none` while `fds` is NULL, and the two prototypical sets.
pub record FdSelector (A : Type 0) : Type 0 where
  pub fds : Option (List (Option (Item A)))
  pub fd_size : ℕ
  pub max_fd : ℕ
  pub master_r : ℕ → Bool
  pub master_w : ℕ → Bool

-- The loop of `next_capacity`, which ends within `fuel` steps if `tmp` is not larger.
unfoldable pub count_bits : ℕ → ℕ → ℕ
count_bits zero tmp = 0
count_bits (suc fuel) tmp = let rest = count_bits fuel (tmp / 2) in if tmp == 0 then 0 else suc rest

unfoldable pub next_capacity : ℕ → Option ℕ
next_capacity n =
    let tmp = 2 ^ count_bits n n in
    do _ ← assert (leb n tmp); some ((if ltb items_max_size tmp then items_max_size else tmp) + 1)

module _ {A : Type 0} where
  -- `calloc` and `realloc` answer by `alloc`; the table of at most 1025 items is far from SIZE_MAX.
  pub ensure_capacity : FdSelector A → ℕ → Bool → Option (SelectorStatus × FdSelector A)
  ensure_capacity s n alloc =
      if ltb n s.fd_size
      then some (selector_success, s)
      else if ltb items_max_size n
      then some (selector_maxfd, s)
      else (do
        new_size ← next_capacity n
        if not alloc then some (selector_enomem, s) else elim s.fds [
          | none ↦ some (
            selector_success,
            record s { fds = some (replicate new_size none); fd_size = new_size },
          )
          | some items ↦ some (
            selector_success,
            record s {
              fds = some (items ++ replicate (new_size - s.fd_size) none);
              fd_size = new_size;
            },
          )
        ])
