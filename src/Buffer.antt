-- ===== src/Buffer.antt =====
-- src/shared/buffer.c and its header: a byte buffer over caller-provided memory, with a read and a
-- write pointer. A pointer is its offset from `b->data`; a failed `assert` is `none`.
pub mod View
pub mod Rules
use socks5proxy.Prelude.{
  ℕ, zero, suc, ◌+◌, ◌-◌, Bool, true, false, Option, none, some, ltb, leb, ◌==◌, if◌then◌else◌,
  ◌>>=◌, ◌>>◌, assert, Memory, poke, move_down,
}

-- `ssize_t`: `neg n` is -(n + 1).
pub data Ssize : Type 0 where
  pos : ℕ → Ssize
  neg : ℕ → Ssize

-- `struct buffer`; `mem` is the memory behind `data`.
pub record Buffer : Type 0 where
  pub mem : Memory
  pub limit : ℕ
  pub read : ℕ
  pub write : ℕ

unfoldable pub buffer_reset : Buffer → Buffer
buffer_reset b = record b { read = 0; write = 0 }

unfoldable pub buffer_init : ℕ → Memory → Buffer
unfolding buffer_reset
buffer_init n mem = buffer_reset (record { mem = mem; limit = n; read = 0; write = 0 })

-- `b->limit - b->write > 0`, a signed difference of pointers
unfoldable pub buffer_can_write : Buffer → Bool
buffer_can_write b = ltb b.write b.limit

-- The offset to write at, and `*nbyte`.
unfoldable pub buffer_write_ptr : Buffer → Option (ℕ × ℕ)
buffer_write_ptr b = do assert (leb b.write b.limit); some (b.write, b.limit - b.write)

unfoldable pub buffer_can_read : Buffer → Bool
buffer_can_read b = ltb b.read b.write

-- The offset to read at, and `*nbyte`.
unfoldable pub buffer_read_ptr : Buffer → Option (ℕ × ℕ)
buffer_read_ptr b = do assert (leb b.read b.write); some (b.read, b.write - b.read)

unfoldable pub buffer_write_adv : Buffer → Ssize → Option Buffer
buffer_write_adv b (pos n) = do
  assert (leb (b.write + n) b.limit)
  some (record b { write = b.write + n })
buffer_write_adv b (neg n) = some b

unfoldable pub buffer_compact : Buffer → Buffer
buffer_compact b =
    if 0 == b.read
    then b
    else if b.read == b.write
    then record b { read = 0; write = 0 }
    else record b {
      mem = move_down b.mem b.read (b.write - b.read);
      read = 0;
      write = b.write - b.read;
    }

unfoldable pub buffer_read_adv : Buffer → Ssize → Option Buffer
buffer_read_adv b (pos n) = do
  assert (leb (b.read + n) b.write)
  let b' = record b { read = b.read + n }
  some (if b'.read == b'.write then buffer_compact b' else b')
buffer_read_adv b (neg n) = some b

-- One byte, 0 if there is none.
unfoldable pub buffer_read : Buffer → Option (ℕ × Buffer)
unfolding buffer_can_read
buffer_read b =
    if buffer_can_read b
    then (do b' ← buffer_read_adv b (pos 1); some (b.mem b.read, b'))
    else some (0, b)

unfoldable pub buffer_write : Buffer → ℕ → Option Buffer
unfolding buffer_can_write
buffer_write b c =
    if buffer_can_write b
    then buffer_write_adv (record b { mem = poke b.mem b.write c }) (pos 1)
    else some b
