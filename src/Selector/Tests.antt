-- ===== src/Selector/Tests.antt =====
-- The theorems on the table of src/shared/selector.c at a concrete table.
use socks5proxy.Prelude.{
  ℕ, zero, suc, ◌≡◌, refl, sym, ap, ◌∙◌, true, Option, none, some, List, [], ◌∷◌, ◌==◌, false,
  arith, inr, ◌>>=◌, ◌++◌,
}
use socks5proxy.Selector.{op_read, op_write, selector_success, Item, FdSelector}
use socks5proxy.Selector.Table.{
  wants, selector_register, item_of, selector_unregister_fd_without_closing,
}
use socks5proxy.Selector.Table.Slots.{item_at}
use socks5proxy.Selector.Table.Invariant.{wanted, Tabled, IsValid}
use socks5proxy.Selector.Table.Calls.{Returns}
use socks5proxy.Selector.Table.Sequence.{
  unregister, Hook, Keeps, perform, covers, perform-Returns, register-unregister,
}
use socks5proxy.Selector.Events.{
  SelectorKey, Served, Pselect, ready, callback, handle_write_item, handle_item, handle_items,
  handle_iteration, handle_jobs, handle_block_notifications, selector_select,
}
use socks5proxy.Selector.Events.Calls.{CallKind, acting}

abbrev item_1 : Item ℕ
item_1 = record { fd = 1; interest = 1; attachment = 0 }

-- The third item is free.
abbrev small_items : List (Option (Item ℕ))
small_items = none ∷ some item_1 ∷ none ∷ []

abbrev small : FdSelector ℕ
small = record {
  fds = some small_items;
  fd_size = 3;
  max_fd = 1;
  master_r = λ i. i == 1;
  master_w = λ i. false;
}

only_item_1 : (i : ℕ) (x : Item ℕ) → item_at small_items i ≡ some x → (i ≡ 1) × (x ≡ item_1)
unfolding item_at
only_item_1 zero x e = absurd (ground arith)
only_item_1 (suc zero) x e = (refl, ground arith)
only_item_1 (suc (suc zero)) x e = absurd (ground arith)
only_item_1 (suc (suc (suc i))) x e = absurd (ground arith)

small-reads : (i : ℕ) → small.master_r i ≡ wanted op_read (item_at small_items i)
unfolding item_at wants
small-reads zero = refl
small-reads (suc zero) = refl
small-reads (suc (suc zero)) = refl
small-reads (suc (suc (suc i))) = ground arith

small-writes : (i : ℕ) → small.master_w i ≡ wanted op_write (item_at small_items i)
unfolding item_at wants
small-writes zero = refl
small-writes (suc zero) = refl
small-writes (suc (suc zero)) = refl
small-writes (suc (suc (suc i))) = refl

small-Tabled : Tabled small small_items
unfolding item_at
small-Tabled = record {
  table = refl;
  counted = refl;
  inside = omega arith;
  own = λ i x e. let (p, q) = only_item_1 i x e in ap (λ y. y.fd) q ∙ sym p;
  upper = λ i x e. let (p, q) = only_item_1 i x e in omega (arith, p);
  used = inr (item_1, refl);
  reads = small-reads;
  writes = small-writes;
}

small-IsValid : IsValid small
small-IsValid = (small_items, small-Tabled)

-- A handler whose `handle_close` does nothing to the selector.
abbrev idle : Hook ℕ
idle x = some (λ s. s)

idle-Keeps : Keeps idle
idle-Keeps x close s e v = let q : close ≡ (λ s. s) = ground arith in rw q (v, omega arith, refl)

perform-Returns_example : Returns (perform idle small (unregister 1))
unfolding covers
perform-Returns_example = perform-Returns idle small (unregister 1) idle-Keeps small-IsValid refl

register-unregister_example :
    (s' : FdSelector ℕ) × (selector_register small 2 5 7 true ≡ some (selector_success, s'))
    × (selector_unregister_fd_without_closing s' 2 ≡ some (selector_success, small))
unfolding item_of
register-unregister_example = register-unregister small 2 5 7 true small-IsValid refl (omega arith)

-- Handlers that write down the descriptors that they are called for.
abbrev record_fd : CallKind → SelectorKey ℕ → List ℕ → List ℕ
record_fd kind key fds = fds ++ key.fd ∷ []

-- The second job's descriptor is not in use.
abbrev serving : Served ℕ (List ℕ)
serving = record { selector = small; resolution_jobs = 1 ∷ 2 ∷ []; world = [] }

abbrev found_all : Pselect
found_all = ready (λ i. true) (λ i. true)

-- The handler for reading, and then that of the job, are called for descriptor 1.
served-twice :
    (selector_select (acting record_fd) serving found_all >>= λ r. some r.1.world)
    ≡ some (1 ∷ 1 ∷ [])
unfolding selector_select handle_iteration handle_items handle_item handle_write_item handle_jobs
    handle_block_notifications callback wants item_of
served-twice = refl
