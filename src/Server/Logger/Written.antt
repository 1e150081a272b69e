-- ===== src/Server/Logger/Written.antt =====
-- What gets into the log file, and in which order (src/server/logger.c).
use socks5proxy.Prelude.{
  ℕ, zero, suc, ◌+◌, ◌-◌, ◌≤◌, ◌<◌, ◌≡◌, refl, sym, ap, ◌∙◌, true, false, ◌&&◌, Option, none, some,
  List, [], ◌∷◌, ◌++◌, ◌==◌, if◌then◌else◌, length, take, slice, store, slice-store, arith,
  append_assoc, append-nil, ◌>>=◌, Memory, Bool-cases, inl, inr,
}
use socks5proxy.Buffer.{
  Buffer, Ssize, pos, buffer_init, buffer_can_read, buffer_read_ptr, buffer_write_adv,
  buffer_read_adv, buffer_compact,
}
use socks5proxy.Queue.{Queue, dequeue, queue_peek, queue_size}
use socks5proxy.Queue.Window.{IsValid}
use socks5proxy.Selector.{op_noop}
use socks5proxy.Server.Logger.{Logger, set_interest, is_all, taken, write_loop, write_logs_deferred}

slice-take : (m : Memory) (i n k : ℕ) → n ≤ k → slice m i n ≡ take n (slice m i k)
slice-take m i zero k h = refl
slice-take m i (suc n) zero h = absurd (omega arith)
slice-take m i (suc n) (suc k) h = ap (λ t. m i ∷ t) (slice-take m (i + 1) n k (omega arith))

-- A queue of lines whose counter is right.
record Queued (q : Queue (List ℕ)) (xs : List (List ℕ)) : Type 0 where
  nodes : q.nodes ≡ xs
  counted : q.size ≡ length xs

module _ {q : Queue (List ℕ)} {m : List ℕ} {ms : List (List ℕ)} (h : Queued q (m ∷ ms)) where
  dequeue_cons :
      (dequeue q ≡ some (m, record q { nodes = ms; size = q.size - 1 })) × (queue_peek q ≡ some m)
  unfolding dequeue queue_peek
  dequeue_cons = (ground (arith, h.nodes, h.counted), ground (arith, h.nodes, h.counted))

-- A line in the buffer of the log, of which `write` takes `n` bytes.
buffered :
    (m : List ℕ) (n : ℕ)
    → 0 < length m
    → n ≤ length m
    → let b = record (buffer_init (length m) (store (λ i. 0) 0 m)) { write = length m } in
      (b' : Buffer) × (buffer_write_adv
          (buffer_init (length m) (store (λ i. 0) 0 m))
          (pos (length m))
        ≡ some b)
      × (buffer_can_read b ≡ true)
      × (buffer_read_ptr b ≡ some (0, length m))
      × (buffer_read_adv b (pos n) ≡ some b')
      × (slice b.mem 0 n ≡ take n m)
unfolding buffer_init buffer_write_adv buffer_can_read buffer_read_ptr buffer_read_adv
buffered m n z h =
    let b : Buffer = record {
      mem = store (λ i. 0) 0 m;
      limit = length m;
      read = 0;
      write = length m;
    } in
    let b₁ = record b { read = 0 + n } in
    (
      (if b₁.read == b₁.write then buffer_compact b₁ else b₁),
      ground arith,
      ground arith,
      ground arith,
      ground arith,
      slice-take b.mem 0 n (length m) h ∙ ap (take n) (slice-store (λ i. 0) 0 m),
    )

-- A second round of the loop writes nothing.
write_loop-stops :
    (fuel : ℕ) (sent : Ssize) (to_read : ℕ) (w : Ssize) (l : Logger)
    → 0 < to_read
    → write_loop (suc fuel) sent to_read w l ≡ some (queue_size l.log_queue, to_read, w, l)
unfolding write_loop queue_size
write_loop-stops fuel sent to_read w l h = ground arith

-- The log when `n` bytes of its first line have been written.
abbrev after_write : Logger → List ℕ → ℕ → List (List ℕ) → Buffer → Logger
after_write l m n ms b = record l {
  log_queue = record (l.log_queue) { nodes = ms; size = l.log_queue.size - 1 };
  log_buffer = b;
  file = l.file ++ take n m;
}

-- A first round takes the first line, and hands what `write` takes of it to the file.
write_loop-first :
    (fuel : ℕ) (l : Logger) (m : List ℕ) (ms : List (List ℕ)) (n : ℕ)
    → Queued l.log_queue (m ∷ ms)
    → 0 < length m
    → n ≤ length m
    → (b : Buffer) × (write_loop (suc fuel) (pos n) 0 (pos 0) l
        ≡ write_loop fuel (pos n) (length m) (pos n) (after_write l m n ms b))
unfolding write_loop queue_size is_all taken
write_loop-first fuel l m ms n h z le =
    let (b, e₁, e₂, e₃, e₄, e₅) = buffered m n z le in
    let (d, p) = dequeue_cons h in
    let some_left : (l.log_queue.size == 0) ≡ false = ground (arith, h.counted) in
    (b, rw (write_loop, queue_size, some_left, p, d, e₁) (rw (◌>>=◌, e₂, e₃, e₄, e₅) refl))

write_loop_lem :
    (l : Logger) (m : List ℕ) (ms : List (List ℕ)) (n : ℕ)
    → Queued l.log_queue (m ∷ ms)
    → 0 < length m
    → n ≤ length m
    → (b : Buffer) × (write_loop (suc (queue_size l.log_queue)) (pos n) 0 (pos 0) l
        ≡ some (length ms, length m, pos n, after_write l m n ms b))
unfolding queue_size
write_loop_lem l m ms n h z le =
    let (b, e) = write_loop-first (suc (length ms)) l m ms n h z le in
    let left : l.log_queue.size - 1 ≡ length ms = omega (arith, h.counted) in
    let stop = write_loop-stops (length ms) (pos n) (length m) (pos n) (after_write l m n ms b) z in
    (
      b,
      ap (λ k. write_loop (suc k) (pos n) 0 (pos 0) l) h.counted
          ∙ e
          ∙ stop
          ∙ ap (λ k. some (k, length m, pos n, after_write l m n ms b)) left,
    )

-- When the file can take bytes, and `write` takes `n` bytes of the first line in the queue, then
-- these are all that is written; the whole line leaves the queue, so that the rest of it is lost if
-- `n` is smaller than its length. The other lines wait, and the file is watched on unless no line is
-- left and this one was written in full.
pub write_logs_deferred_lem :
    (l : Logger) (m : List ℕ) (ms : List (List ℕ)) (n : ℕ)
    → IsValid l.log_queue
    → l.log_queue.nodes ≡ m ∷ ms
    → 0 < length m
    → n ≤ length m
    → (l' : Logger) × (write_logs_deferred l (pos n) ≡ some l')
      × (l'.file ≡ l.file ++ take n m)
      × (l'.log_queue.nodes ≡ ms)
      × IsValid l'.log_queue
      × (l'.interest ≡ (
          if length ms == 0 && n == length m
          then (elim l.interest [ none ↦ none | some _ ↦ some op_noop ])
          else l.interest))
unfolding write_logs_deferred is_all set_interest
write_logs_deferred_lem l m ms n v e z le =
    let h : Queued l.log_queue (m ∷ ms) = record { nodes = e; counted = v.counted ∙ ap length e } in
    let (b, r) = write_loop_lem l m ms n h z le in
    let a = after_write l m n ms b in
    let valid : IsValid a.log_queue = record {
      counted = omega (arith, h.counted);
      bounded = ground (arith, v.bounded);
    } in
    elim (Bool-cases (length ms == 0 && n == length m)) [
      | inl t ↦ (set_interest op_noop a, rw (r, t) refl, refl, refl, valid, rw t refl)
      | inr f ↦ (a, rw (r, f) refl, refl, refl, valid, rw f refl)
    ]

unfoldable pub first_length : List (List ℕ) → ℕ
first_length [] = 0
first_length (m ∷ ms) = length m

-- `k` times the file can take bytes, and `write` takes the whole line each time.
unfoldable pub drain : ℕ → Logger → Option Logger
drain zero l = some l
drain (suc k) l = do l' ← write_logs_deferred l (pos (first_length l.log_queue.nodes)); drain k l'

drain_step :
    (k : ℕ) (l l₁ : Logger) (m : List ℕ) (ms : List (List ℕ))
    → l.log_queue.nodes ≡ m ∷ ms
    → write_logs_deferred l (pos (length m)) ≡ some l₁
    → drain (suc k) l ≡ drain k l₁
unfolding drain first_length
drain_step k l l₁ m ms e r =
    ap (λ n. write_logs_deferred l (pos (first_length n)) >>= drain k) e ∙ ap (λ o. o >>= drain k) r

abbrev pub concat : List (List ℕ) → List ℕ
concat [] = []
concat (m ∷ ms) = m ++ concat ms

abbrev pub NonEmpty : List (List ℕ) → Type 0
NonEmpty [] = Unit
NonEmpty (m ∷ ms) = (0 < length m) × NonEmpty ms

take_all : (xs : List ℕ) → take (length xs) xs ≡ xs
take_all [] = refl
take_all (x ∷ xs) = ap (λ t. x ∷ t) (take_all xs)

-- Lines that wait, none of them empty, are all written after as many events as there are lines, if
-- each write takes the whole line: the file holds them in the order of the queue, none is lost, and
-- if there were any the file is then watched no more.
pub drain_lem :
    (l : Logger) (ms : List (List ℕ)) {i : ℕ}
    → IsValid l.log_queue
    → l.log_queue.nodes ≡ ms
    → NonEmpty ms
    → l.interest ≡ some i
    → (l' : Logger) × (drain (length ms) l ≡ some l')
      × (l'.file ≡ l.file ++ concat ms)
      × (l'.log_queue.nodes ≡ [])
      × (l'.interest ≡ some (if length ms == 0 then i else op_noop))
unfolding drain
drain_lem l [] v e z w = (l, refl, sym (append-nil l.file), e, w)
drain_lem l (m ∷ ms) {i} v e z w =
    let (l₁, r₁, f₁, n₁, v₁, w₁) =
      write_logs_deferred_lem l m ms (length m) v e z.0 (omega arith) in
    let now : l₁.interest ≡ some (if length ms == 0 then op_noop else i) = ground (arith, w₁, w) in
    let (l', r, f, n, w') = drain_lem l₁ ms v₁ n₁ z.1 now in
    (
      l',
      drain_step (length ms) l l₁ m ms e r₁ ∙ r,
      f
          ∙ ap (λ t. t ++ concat ms) (f₁ ∙ ap (λ t. l.file ++ t) (take_all m))
          ∙ append_assoc l.file m (concat ms),
      n,
      w' ∙ ground arith,
    )
