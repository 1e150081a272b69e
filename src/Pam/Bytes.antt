-- ===== src/Pam/Bytes.antt =====
-- What the loops and the casts of src/server/pam/ read from a buffer that holds known bytes, and how
-- far the write pointer of a buffer is.
use socks5proxy.Prelude.{
  ℕ, zero, suc, ◌+◌, ◌-◌, ◌≤◌, ◌≡◌, refl, ap, ◌∙◌, false, some, List, [], ◌∷◌, ◌++◌, ltb, arith,
  length, Memory, poke, store, slice, store-poke, Bool-cases, inl, inr,
}
use socks5proxy.Buffer.{Buffer, pos, buffer_compact, buffer_read_adv, buffer_read, buffer_write_ptr}
use socks5proxy.Buffer.View.{Holds}
use socks5proxy.Buffer.Rules.{read_step, read_adv, write_ptr}
use socks5proxy.Pam.{read_into}

-- The write pointer never moves up when bytes are read.
pub buffer_read_adv-le :
    (b : Buffer) (n : ℕ) {b' : Buffer} → buffer_read_adv b (pos n) ≡ some b' → b'.write ≤ b.write
unfolding buffer_read_adv buffer_compact
buffer_read_adv-le b n e = ground arith

pub buffer_read-le :
    (b : Buffer) {x : ℕ} {b' : Buffer} → buffer_read b ≡ some (x, b') → b'.write ≤ b.write
unfolding buffer_read
buffer_read-le b {x} {b'} e = elim (Bool-cases (ltb b.read b.write)) [
  | inl t ↦ let q : buffer_read_adv b (pos 1) ≡ some b' = ground arith in buffer_read_adv-le b 1 q
  | inr f ↦ ground arith
]

-- A buffer that holds known bytes, with its write pointer at most at `w`.
pub record Held (b : Buffer) (xs : List ℕ) (l w : ℕ) : Type 0 where
  pub holds : Holds b xs l
  pub below : b.write ≤ w

pub buffer_read-Held :
    {b : Buffer} {x : ℕ} {xs : List ℕ} {l w : ℕ}
    → Held b (x ∷ xs) l w
    → (b' : Buffer) × (buffer_read b ≡ some (x, b')) × Held b' xs l w
buffer_read-Held {b} h =
    let (b', e, k) = read_step h.holds in
    (b', e, record { holds = k; below = omega (arith, buffer_read-le b e, h.below) })

pub read_two :
    {b : Buffer} {x y : ℕ} {xs : List ℕ} {l w : ℕ}
    → Held b (x ∷ y ∷ xs) l w
    → (b' : Buffer) × (buffer_read_adv b (pos 2) ≡ some b') × Held b' xs l w
read_two {b} {x} {y} {xs} h =
    let (b', e, k) = read_adv h.holds 2 (omega arith) in
    (b', e, record { holds = k; below = omega (arith, buffer_read_adv-le b 2 e, h.below) })

slice-two :
    (m : Memory) (i n : ℕ) {x y : ℕ} {ys : List ℕ}
    → slice m i n ≡ x ∷ y ∷ ys
    → (m i ≡ x) × (m (i + 1) ≡ y)
slice-two m i zero e = absurd (ground arith)
slice-two m i (suc zero) e = absurd (ground arith)
slice-two m i (suc (suc n)) e = (ground arith, ground arith)

-- The two bytes at the read pointer.
pub front :
    {b : Buffer} {x y : ℕ} {xs : List ℕ} {l w : ℕ}
    → Held b (x ∷ y ∷ xs) l w
    → (b.mem b.read ≡ x) × (b.mem (b.read + 1) ≡ y)
front {b} h = slice-two b.mem b.read (b.write - b.read) (h.holds.bytes)

-- `toRead` is enough.
pub roomy :
    {b : Buffer} {xs : List ℕ} {l w : ℕ} (n : ℕ)
    → Held b xs l w
    → w + n ≤ l
    → (buffer_write_ptr b ≡ some (b.write, b.limit - b.write)) × (ltb (b.limit - b.write) n ≡ false)
roomy n h r = (write_ptr h.holds, ground (arith, h.below, h.holds.same_limit))

-- The loop stores the bytes that are there.
pub read_into_lem :
    (xs ys : List ℕ) (i : ℕ) (b : Buffer) (array : Memory) {l w : ℕ}
    → Held b (xs ++ ys) l w
    → (b' : Buffer) × (read_into (length xs) i b array ≡ some (b', store array i xs))
      × Held b' ys l w
unfolding read_into
read_into_lem [] ys i b array h = (b, refl, h)
read_into_lem (x ∷ xs) ys i b array h =
    let (b₁, e, k) = buffer_read-Held h in
    let (b', e', k') = read_into_lem xs ys (i + 1) b₁ (poke array i x) k in
    (b', rw e (e' ∙ ap (λ m. some (b', m)) (store-poke array i x (i + 1) xs (omega arith))), k')
