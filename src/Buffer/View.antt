-- ===== src/Buffer/View.antt =====
-- The buffer as a queue: the bytes between the read and the write pointer.
use socks5proxy.Prelude.{
  ℕ, zero, suc, ◌+◌, ◌-◌, ◌≤◌, ◌<◌, ◌≡◌, refl, sym, ap₂, ◌∙◌, some, List, [], ◌∷◌, ◌++◌, arith,
  Memory, Bool-cases, lt→ltb, le→ltb, le→leb, ltb→lt, inl, inr, length-slice, slice-move_down,
  slice-append, slice-store, slice-store_below, tail, ltb, ◌==◌, length, drop, slice, store,
}
use socks5proxy.Buffer.{
  Buffer, pos, buffer_write_adv, buffer_compact, buffer_read_adv, buffer_read, buffer_write,
}

-- The invariant of the header: R <= W <= limit.
pub record IsValid (b : Buffer) : Type 0 where
  pub ordered : b.read ≤ b.write
  pub bounded : b.write ≤ b.limit

abbrev pub contents : Buffer → List ℕ
contents b = slice b.mem b.read (b.write - b.read)

abbrev pub head_or : ℕ → List ℕ → ℕ
head_or d [] = d
head_or d (x ∷ xs) = x

pub length-contents : (b : Buffer) → length (contents b) ≡ b.write - b.read
length-contents b = length-slice b.mem b.read (b.write - b.read)

-- What a step of the buffer leaves alone, and what it does to the bytes in it.
pub record Holds (b : Buffer) (xs : List ℕ) (limit : ℕ) : Type 0 where
  pub valid : IsValid b
  pub bytes : contents b ≡ xs
  pub same_limit : b.limit ≡ limit

slice_suc : (m : Memory) (i n : ℕ) → 0 < n → slice m i n ≡ m i ∷ slice m (i + 1) (n - 1)
slice_suc m i zero h = elim h [ ]
slice_suc m i (suc n) h = let e : suc n - 1 ≡ n = omega arith in rw e

drop-slice : (m : Memory) (i n k : ℕ) → k ≤ n → drop k (slice m i n) ≡ slice m (i + k) (n - k)
drop-slice m i n zero h =
    let e : i + 0 ≡ i = omega arith in let f : n - 0 ≡ n = omega arith in rw (e, f)
drop-slice m i zero (suc k) h = elim h [ ]
drop-slice m i (suc n) (suc k) h =
    let e : i + suc k ≡ i + 1 + k = omega arith in
    let f : suc n - suc k ≡ n - k = omega arith in
    rw (e, f) (drop-slice m (i + 1) n k (omega arith))

-- On a valid buffer, compacting loses none of its bytes, keeps their order and the limit, and
-- leaves it valid.
pub buffer_compact-Holds : {b : Buffer} → IsValid b → Holds (buffer_compact b) (contents b) b.limit
unfolding buffer_compact
buffer_compact-Holds {b} v = elim (Bool-cases (0 == b.read)) [
  | inl e ↦ rw e (record { valid = v; bytes = refl; same_limit = refl })
  | inr e ↦ rw e (elim (Bool-cases (b.read == b.write)) [
    | inl f ↦ rw f (record {
      valid = omega arith;
      bytes = (let z : b.write - b.read ≡ 0 = ground arith in rw z);
      same_limit = refl;
    })
    | inr f ↦ rw f (record {
      valid = record { ordered = omega arith; bounded = ground arith };
      bytes =
          (let z : b.write - b.read - 0 ≡ b.write - b.read = omega arith in
            rw z (slice-move_down b.mem b.read (b.write - b.read)));
      same_limit = refl;
    })
  ])
]

-- On a valid buffer, advancing the read pointer by `n` available bytes fails no assert, drops
-- exactly these, and leaves the buffer valid with the same limit.
pub buffer_read_adv-Holds :
    {b : Buffer} (n : ℕ)
    → IsValid b
    → n ≤ b.write - b.read
    → (b' : Buffer) × (buffer_read_adv b (pos n) ≡ some b') × Holds b' (drop n (contents b)) b.limit
unfolding buffer_read_adv
buffer_read_adv-Holds {b} n v h =
    let moved : Buffer = record b { read = b.read + n } in
    let dropped : contents moved ≡ drop n (contents b) =
      (let z : b.write - (b.read + n) ≡ b.write - b.read - n = omega arith in
        rw z (sym (drop-slice b.mem b.read (b.write - b.read) n h))) in
    let v' : IsValid moved = omega (arith, v.ordered, v.bounded) in
    let c : Holds (buffer_compact moved) (contents moved) b.limit = buffer_compact-Holds v' in
    rw (le→leb (b.read + n) b.write (omega arith)) (elim (Bool-cases (b.read + n == b.write)) [
      | inl e ↦ rw e (
        buffer_compact moved,
        refl,
        record { valid = c.valid; bytes = c.bytes ∙ dropped; same_limit = c.same_limit },
      )
      | inr e ↦ rw e (moved, refl, record { valid = v'; bytes = dropped; same_limit = refl })
    ])

-- On a valid buffer, reading a byte fails no assert, takes the oldest one, or gives 0 if there is
-- none, and leaves the buffer valid with the same limit.
pub buffer_read-Holds :
    {b : Buffer}
    → IsValid b
    → (b' : Buffer) × (buffer_read b ≡ some (head_or 0 (contents b), b'))
      × Holds b' (tail (contents b)) b.limit
unfolding buffer_read
buffer_read-Holds {b} v = elim (Bool-cases (ltb b.read b.write)) [
  | inl e ↦
      let lt : b.read < b.write = ltb→lt b.read b.write e in
      let (b', eq, holds) = buffer_read_adv-Holds {b = b} 1 v (omega arith) in
      let s : contents b ≡ b.mem b.read ∷ slice b.mem (b.read + 1) (b.write - b.read - 1) =
        slice_suc b.mem b.read (b.write - b.read) (omega arith) in
      rw (e, eq) (rw s (b', refl, rw s at holds))
  | inr e ↦
      let z : b.write - b.read ≡ 0 = ground arith in
      rw e (rw z (b, refl, record { valid = v; bytes = rw z; same_limit = refl }))
]

-- `bytes` stored at the write pointer, and the pointer moved past them
abbrev pub received : Buffer → List ℕ → Buffer
received b bytes = record b { mem = store b.mem b.write bytes; write = b.write + length bytes }

-- Bytes that fit behind the write pointer join the queue at its end.
pub received-Holds :
    {b : Buffer} (bytes : List ℕ)
    → IsValid b
    → b.write + length bytes ≤ b.limit
    → Holds (received b bytes) (contents b ++ bytes) b.limit
received-Holds {b} bytes v h = record {
  valid = omega (arith, v.ordered);
  bytes =
      (let n : b.write + length bytes - b.read ≡ b.write - b.read + length bytes =
          omega (arith, v.ordered) in
        let w : b.read + (b.write - b.read) ≡ b.write = omega (arith, v.ordered) in
        rw n (
          slice-append (store b.mem b.write bytes) b.read (b.write - b.read) (length bytes)
          ∙ ap₂ ◌++◌ (slice-store_below b.mem b.read (b.write - b.read) b.write bytes (omega arith))
              (rw w (slice-store b.mem b.write bytes))));
  same_limit = refl;
}

pub buffer_write_adv-received :
    (b : Buffer) (bytes : List ℕ)
    → b.write + length bytes ≤ b.limit
    → buffer_write_adv (record b { mem = store b.mem b.write bytes }) (pos (length bytes))
      ≡ some (received b bytes)
unfolding buffer_write_adv
buffer_write_adv-received b bytes h = rw (le→leb (b.write + length bytes) b.limit h)

-- Writing a byte appends it, if there is room.
pub buffer_write_lem :
    (b : Buffer) (c : ℕ) → b.write < b.limit → buffer_write b c ≡ some (received b (c ∷ []))
unfolding buffer_write
buffer_write_lem b c h =
    rw (lt→ltb b.write b.limit h, buffer_write_adv-received b (c ∷ []) (omega arith))

-- A full buffer drops the byte.
pub buffer_write_full : {b : Buffer} (c : ℕ) → b.limit ≤ b.write → buffer_write b c ≡ some b
unfolding buffer_write
buffer_write_full {b} c h = rw (le→ltb b.write b.limit h)
