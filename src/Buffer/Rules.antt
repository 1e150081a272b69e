-- ===== src/Buffer/Rules.antt =====
-- What each operation does to a buffer that holds known bytes: the rules by which the handlers,
-- which never look into a buffer, are proved.
use socks5proxy.Prelude.{
  ℕ, ◌+◌, ◌-◌, ◌≤◌, ◌<◌, ◌≡◌, sym, ap, ◌∙◌, true, false, some, List, [], ◌∷◌, ◌++◌, arith, length,
  drop, tail, lt→ltb, le→ltb, le→leb, append_assoc, not, ◌==◌,
}
use socks5proxy.Buffer.{
  Buffer, pos, buffer_can_write, buffer_can_read, buffer_write_ptr, buffer_read_ptr,
  buffer_read_adv, buffer_read, buffer_write,
}
use socks5proxy.Buffer.View.{
  Holds, length-contents, received, received-Holds, head_or, buffer_read-Holds,
  buffer_read_adv-Holds, buffer_write_lem,
}

module _ {b : Buffer} {xs : List ℕ} {l : ℕ} (h : Holds b xs l) where
  pub unread : b.write - b.read ≡ length xs
  unread = sym (length-contents b) ∙ ap length h.bytes

  pub read_ptr : buffer_read_ptr b ≡ some (b.read, length xs)
  unfolding buffer_read_ptr
  read_ptr = rw (le→leb b.read b.write h.valid.ordered) (ap (λ n. some (b.read, n)) unread)

  pub write_ptr : buffer_write_ptr b ≡ some (b.write, b.limit - b.write)
  unfolding buffer_write_ptr
  write_ptr = rw (le→leb b.write b.limit h.valid.bounded)

  pub read_step : (b' : Buffer) × (buffer_read b ≡ some (head_or 0 xs, b')) × Holds b' (tail xs) l
  read_step =
      let (b', e, k) = buffer_read-Holds h.valid in
      (
        b',
        rw h.bytes at e,
        record {
          valid = k.valid;
          bytes = k.bytes ∙ ap tail h.bytes;
          same_limit = k.same_limit ∙ h.same_limit;
        },
      )

  pub read_adv :
      (n : ℕ)
      → n ≤ length xs
      → (b' : Buffer) × (buffer_read_adv b (pos n) ≡ some b') × Holds b' (drop n xs) l
  read_adv n le =
      let (b', e, k) = buffer_read_adv-Holds n h.valid (omega (arith, unread)) in
      (
        b',
        e,
        record {
          valid = k.valid;
          bytes = k.bytes ∙ ap (drop n) h.bytes;
          same_limit = k.same_limit ∙ h.same_limit;
        },
      )

  pub received_step :
      (bytes : List ℕ) → b.write + length bytes ≤ b.limit → Holds (received b bytes) (xs ++ bytes) l
  received_step bytes le =
      let k = received-Holds bytes h.valid le in
      record {
        valid = k.valid;
        bytes = k.bytes ∙ ap (λ t. t ++ bytes) h.bytes;
        same_limit = k.same_limit ∙ h.same_limit;
      }

  -- A byte written into free room joins the queue.
  pub write_step :
      (c : ℕ)
      → b.write < b.limit
      → (buffer_write b c ≡ some (received b (c ∷ [])))
        × Holds (received b (c ∷ [])) (xs ++ c ∷ []) l
  write_step c lt = (buffer_write_lem b c lt, received_step (c ∷ []) (omega arith))

-- Two bytes, if there is room for both.
pub write_two :
    {b : Buffer} {xs : List ℕ} {l : ℕ}
    → Holds b xs l
    → (c d : ℕ) → b.write + 2 ≤ b.limit
    → (b₁ : Buffer) × (b₂ : Buffer) × (buffer_write b c ≡ some b₁)
      × (buffer_write b₁ d ≡ some b₂)
      × Holds b₂ (xs ++ c ∷ d ∷ []) l
write_two {b} {xs} {l} h c d room =
    let (e₁, k₁) = write_step h c (omega arith) in
    let (e₂, k₂) = write_step k₁ d (omega arith) in
    (
      received b (c ∷ []),
      received (received b (c ∷ [])) (d ∷ []),
      e₁,
      e₂,
      rw (append_assoc xs (c ∷ []) (d ∷ [])) at k₂,
    )

pub can_read_cons :
    {b : Buffer} {x : ℕ} {xs : List ℕ} {l : ℕ} → Holds b (x ∷ xs) l → buffer_can_read b ≡ true
unfolding buffer_can_read
can_read_cons {b} h = lt→ltb b.read b.write (omega (arith, unread h))

pub can_read_nil : {b : Buffer} {l : ℕ} → Holds b [] l → buffer_can_read b ≡ false
unfolding buffer_can_read
can_read_nil {b} h = le→ltb b.read b.write (omega (arith, unread h))

pub can_write_room :
    (b : Buffer) {l : ℕ} (x : ℕ) (xs : List ℕ)
    → b.limit ≡ l
    → b.write + length (x ∷ xs) ≤ l
    → buffer_can_write b ≡ true
unfolding buffer_can_write
can_write_room b x xs e h = lt→ltb (b.write) (b.limit) (omega (arith, e))

pub can_read_behind :
    {b : Buffer} {l : ℕ} (ys : List ℕ) (x : ℕ) (xs : List ℕ)
    → Holds b (ys ++ x ∷ xs) l
    → buffer_can_read b ≡ true
can_read_behind [] x xs h = can_read_cons h
can_read_behind (y ∷ ys) x xs h = can_read_cons h

pub can_read_iff :
    {b : Buffer} {xs : List ℕ} {l : ℕ} → Holds b xs l → buffer_can_read b ≡ not (length xs == 0)
can_read_iff {xs = []} h = can_read_nil h
can_read_iff {xs = x ∷ xs} h = ground (arith, can_read_cons h)
