-- ===== src/Prelude/Region.antt =====
-- A region of memory as a function from offsets to bytes.
use Prim.Native.Nat.{ℕ, zero, suc, ◌+◌, ◌≤◌, ◌<◌}
use mathlib.Core.Path.{◌≡◌, refl, sym, ap, ap₂, ◌∙◌, fun_ext}
use mathlib.Core.List.{List, [], ◌∷◌, ◌++◌}
use native.Mathlib.Omega.{arith}
use socks5proxy.Prelude.Tests.{ltb, ◌==◌, if◌then◌else◌}
use socks5proxy.Prelude.Lists.{length, get_or}

abbrev pub Memory : Type 0
Memory = ℕ → ℕ

-- `n` bytes from offset `i` on
abbrev pub slice : Memory → ℕ → ℕ → List ℕ
slice m i zero = []
slice m i (suc n) = m i ∷ slice m (i + 1) n

-- `m[i] = v`
abbrev pub poke : Memory → ℕ → ℕ → Memory
poke m i v = λ j. if j == i then v else m j

-- `memcpy(m + i, bytes, length)`, also what `recv` does to the memory that it is given
abbrev pub store : Memory → ℕ → List ℕ → Memory
store m i [] = m
store m i (b ∷ bs) = poke (store m (i + 1) bs) i b

-- `memmove(m, m + from, n)`
abbrev pub move_down : Memory → ℕ → ℕ → Memory
move_down m from n = λ j. if ltb j n then m (from + j) else m j

pub length-slice : (m : Memory) (i n : ℕ) → length (slice m i n) ≡ n
length-slice m i zero = refl
length-slice m i (suc n) = ap suc (length-slice m (i + 1) n)

pub slice_ext :
    (m m' : Memory) (i j n : ℕ)
    → ((k : ℕ) → k < n → m (i + k) ≡ m' (j + k))
    → slice m i n ≡ slice m' j n
slice_ext m m' i j zero h = refl
slice_ext m m' i j (suc n) h =
    ap₂ ◌∷◌ (ap m (omega arith) ∙ h 0 (omega arith) ∙ ap m' (omega arith)) (
      slice_ext m m' (i + 1) (j + 1) n
        λ k p. ap m (omega arith) ∙ h (k + 1) (omega arith) ∙ ap m' (omega arith))

pub slice-append : (m : Memory) (i n k : ℕ) → slice m i (n + k) ≡ slice m i n ++ slice m (i + n) k
slice-append m i zero k =
    let e : zero + k ≡ k = omega arith in let f : i + zero ≡ i = omega arith in rw (e, f)
slice-append m i (suc n) k =
    let e : suc n + k ≡ suc (n + k) = omega arith in
    let f : i + suc n ≡ i + 1 + n = omega arith in
    rw (e, f) (ap (λ t. m i ∷ t) (slice-append m (i + 1) n k))

pub store_below : (m : Memory) (i : ℕ) (bs : List ℕ) (j : ℕ) → j < i → store m i bs j ≡ m j
store_below m i [] j h = refl
store_below m i (b ∷ bs) j h = ground (arith, store_below m (i + 1) bs j)

-- A byte of a stored block, counted from where the block begins.
pub store_at :
    (m : Memory) (i : ℕ) (bs : List ℕ) (k : ℕ)
    → k < length bs
    → store m i bs (i + k) ≡ get_or bs k 0
store_at m i [] k h = absurd (omega arith)
store_at m i (b ∷ bs) zero h = ground arith
store_at m i (b ∷ bs) (suc k) h =
    let e : i + suc k ≡ i + 1 + k = omega arith in rw e (ground (arith, store_at m (i + 1) bs k))

pub slice-poke_above : (m : Memory) (j v i n : ℕ) → j < i → slice (poke m j v) i n ≡ slice m i n
slice-poke_above m j v i n h = slice_ext (poke m j v) m i i n (λ k p. ground arith)

-- What was stored is read back.
pub slice-store : (m : Memory) (i : ℕ) (bs : List ℕ) → slice (store m i bs) i (length bs) ≡ bs
slice-store m i [] = refl
slice-store m i (b ∷ bs) = ap₂ ◌∷◌ (ground arith) (
    slice-poke_above (store m (i + 1) bs) i b (i + 1) (length bs) (omega arith)
    ∙ slice-store m (i + 1) bs)

-- A block stored above a slice does not change it.
pub slice-store_below :
    (m : Memory) (i n w : ℕ) (bs : List ℕ) → i + n ≤ w → slice (store m w bs) i n ≡ slice m i n
slice-store_below m i n w bs h =
    slice_ext (store m w bs) m i i n (λ k p. store_below m w bs (i + k) (omega arith))

pub slice-move_down : (m : Memory) (from n : ℕ) → slice (move_down m from n) 0 n ≡ slice m from n
slice-move_down m from n =
    slice_ext (move_down m from n) m 0 from n
      λ k p. let e : 0 + k ≡ k = omega arith in rw e (ground arith)

-- A byte below a block, before or after it.
pub store-poke :
    (m : Memory) (j v i : ℕ) (ys : List ℕ)
    → j < i
    → store (poke m j v) i ys ≡ poke (store m i ys) j v
store-poke m j v i [] h = refl
store-poke m j v i (y ∷ ys) h =
    ap (λ n. poke n i y) (store-poke m j v (i + 1) ys (omega arith)) ∙ fun_ext (λ k. ground arith)

-- Two blocks, one behind the other.
pub store-append :
    (m : Memory) (i : ℕ) (xs ys : List ℕ)
    → store m i (xs ++ ys) ≡ store (store m i xs) (i + length xs) ys
store-append m i [] ys = let e : i + 0 ≡ i = omega arith in rw e
store-append m i (x ∷ xs) ys =
    let e : i + suc (length xs) ≡ i + 1 + length xs = omega arith in
    rw e (
      ap (λ n. poke n i x) (store-append m (i + 1) xs ys)
      ∙ sym (store-poke (store m (i + 1) xs) i x (i + 1 + length xs) ys (omega arith)))

pub store_above :
    (m : Memory) (i : ℕ) (bs : List ℕ) (j : ℕ) → i + length bs ≤ j → store m i bs j ≡ m j
store_above m i [] j h = refl
store_above m i (b ∷ bs) j h = ground (arith, store_above m (i + 1) bs j (omega arith))
