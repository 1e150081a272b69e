-- ===== src/Selector/Capacity.antt =====
-- The table of src/shared/selector.c grows enough, and keeps what it holds.
use native.Mathlib.Nat.{pow-suc}
use socks5proxy.Prelude.{
  ℕ, zero, suc, ◌+◌, ◌-◌, ◌*◌, ◌/◌, ◌^◌, ◌≤◌, ◌<◌, ◌≡◌, refl, sym, ap, ◌∙◌, true, false, Option,
  none, some, List, ◌++◌, ltb, leb, ◌==◌, length, replicate, arith, Bool-cases, inl, inr,
  length-append, append-nil, ltb→lt, le→leb, le→ltb,
}
use socks5proxy.Selector.{
  items_max_size, selector_success, Item, FdSelector, count_bits, next_capacity, ensure_capacity,
}

zero_of : (n : ℕ) → (n == 0) ≡ true → n ≡ 0
zero_of n z = ground arith

suc_of : (n : ℕ) → (n == 0) ≡ false → 0 < n
suc_of n z = ground arith

pow_step : (k : ℕ) → 2 ^ suc k ≡ 2 * 2 ^ k
pow_step k = pow-suc 2 k ∙ omega arith

count_bits-lt : (fuel n : ℕ) → n ≤ fuel → n < 2 ^ count_bits fuel n
unfolding count_bits
count_bits-lt zero n h = omega arith
count_bits-lt (suc fuel) n h = elim (Bool-cases (n == 0)) [
  | inl z ↦ rw z (omega (arith, zero_of n z))
  | inr z ↦
      let ih = count_bits-lt fuel (n / 2) (omega (arith, suc_of n z)) in
      rw z (omega (arith, ih, pow_step (count_bits fuel (n / 2))))
]

-- For a number of descriptors up to the limit of the platform, the new capacity is above it, and
-- at most one more than the limit; the assert never fails.
pub next_capacity_lem :
    (n : ℕ)
    → n ≤ items_max_size
    → (c : ℕ) × (next_capacity n ≡ some c) × (n < c) × (c ≤ items_max_size + 1)
unfolding next_capacity
next_capacity_lem n h =
    let lt = count_bits-lt n n (omega arith) in
    let ok : leb n (2 ^ count_bits n n) ≡ true =
      le→leb n (2 ^ count_bits n n) (omega (arith, lt)) in
    elim (Bool-cases (ltb items_max_size (2 ^ count_bits n n))) [
      | inl t ↦ (items_max_size + 1, rw (ok, t), omega (arith, h), omega arith)
      | inr f ↦ (2 ^ count_bits n n + 1, rw (ok, f), omega (arith, lt), ground (arith, f))
    ]

pub length-replicate : {A : Type 0} (n : ℕ) (a : A) → length (replicate n a) ≡ n
length-replicate zero a = refl
length-replicate (suc n) a = ap suc (length-replicate n a)

-- For a descriptor that the platform can handle, and with memory, `ensure_capacity` succeeds on a
-- table whose size is counted; the table then has an index for the descriptor, its size is counted,
-- the items that were there stay at their indices, and the new ones are not in use.
pub ensure_capacity_lem :
    {A : Type 0} (s : FdSelector A) (items : List (Option (Item A))) (n : ℕ)
    → s.fds ≡ some items
    → s.fd_size ≡ length items
    → n ≤ items_max_size
    → (k : ℕ) × (s' : FdSelector A) × (ensure_capacity s n true ≡ some (selector_success, s'))
      × (s'.fds ≡ some (items ++ replicate k none))
      × (s'.fd_size ≡ length (items ++ replicate k none))
      × (n < s'.fd_size)
unfolding ensure_capacity
ensure_capacity_lem {A} s items n f c h = elim (Bool-cases (ltb n s.fd_size)) [
  | inl t ↦ (
    0,
    s,
    rw t,
    f ∙ ap some (sym (append-nil items)),
    c ∙ ap length (sym (append-nil items)),
    ltb→lt n s.fd_size t,
  )
  | inr t ↦
      let (m, e, lt, le) = next_capacity_lem n h in
      let free : List (Option (Item A)) = replicate (m - s.fd_size) none in
      let big : ltb items_max_size n ≡ false = le→ltb items_max_size n h in
      let at : s.fd_size ≤ n = ground arith in
      (
        m - s.fd_size,
        record s { fds = some (items ++ free); fd_size = m },
        rw (t, big, e, f),
        refl,
        omega (
          arith,
          length-append items free,
          length-replicate {A = Option (Item A)} (m - s.fd_size) none,
          c,
          lt,
          at,
        ),
        lt,
      )
]
