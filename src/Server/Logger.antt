-- ===== src/Server/Logger.antt =====
-- src/server/logger.c: the lines of the log, their queue, and how they are written when the selector
-- finds that the file can take them. A line is the bytes of a string.
pub mod Lines
pub mod Written
use socks5proxy.Prelude.{
  ℕ, zero, suc, ◌+◌, ◌-◌, ◌%◌, Bool, true, false, ◌&&◌, not, Option, none, some, List, [], ◌∷◌,
  ◌++◌, ltb, leb, ◌==◌, if◌then◌else◌, length, take, slice, store, ◌>>=◌, ◌>>◌, assert, ◌/◌,
}
use socks5proxy.Buffer.{
  Buffer, Ssize, pos, neg, buffer_init, buffer_can_read, buffer_read_ptr, buffer_write_adv,
  buffer_read_adv,
}
use socks5proxy.Queue.{Queue, dequeue, enqueue, queue_peek, queue_size}
use socks5proxy.Selector.{op_noop, op_write}

abbrev pub max_log_size : ℕ
max_log_size = 1024

abbrev pub max_log_queue_size : ℕ
max_log_queue_size = 100

-- The static variables: the queue, the buffer, and the counter of the messages. `interest` is what
-- the selector has for the file, `none` if it is not registered, and `file` what was written.
pub record Logger : Type 0 where
  pub log_queue : Queue (List ℕ)
  pub log_buffer : Buffer
  pub log_always_incremental_id : ℕ
  pub interest : Option ℕ
  pub file : List ℕ

-- `snprintf(dst, size, "%s", text)` for a `size` that is not 0.
abbrev snprintf : ℕ → List ℕ → List ℕ
snprintf size text = take (size - 1) text

-- `format_log_message`, from what the two formats with the time and the level give in full: the
-- prefix and the body. A prefix that does not fit makes `out + prefixSize` leave the array.
unfoldable pub format_log_message : List ℕ → List ℕ → Option (List ℕ)
format_log_message prefix text = do
  let body = snprintf max_log_size text
  _ ← assert (ltb (length prefix) max_log_size)
  let rest = snprintf (max_log_size - length prefix) (body ++ b'\n' ∷ [])
  let out = prefix ++ rest
  if leb (max_log_size - 1) (length out)
      then some (take (max_log_size - 5) out ++ b'.' ∷ b'.' ∷ b'.' ∷ b'\n' ∷ [])
      else some out

-- `selector_set_interest(selector, logFile, i)`, which fails if the file is not registered.
unfoldable pub set_interest : ℕ → Logger → Logger
set_interest i l = record l { interest = elim l.interest [ none ↦ none | some _ ↦ some i ] }

-- `line` is what `format_log_message` returned, `none` if its `malloc` failed. `registered` says
-- whether there is a `loggerSelector`; the `malloc` of `enqueue` succeeds.
unfoldable pub logger_log_message_deferred : ℕ → Bool → ℕ → Option (List ℕ) → Logger → Option Logger
logger_log_message_deferred min_log_level registered level line l =
    if ltb level min_log_level
    then some l
    else (let id = l.log_always_incremental_id + 1 in
        let l₁ = record l { log_always_incremental_id = id } in
        elim line [
          | none ↦ some l₁
          | some m ↦ do
            (freed, q) ← enqueue l.log_queue m true
            let l₂ = record l₁ { log_queue = q }
            some (
                if registered && (id % (max_log_queue_size / 3) == 0)
                then set_interest op_write l₂
                else l₂)
        ])

-- `written == toRead`, where -1 becomes the largest `size_t`.
unfoldable pub is_all : Ssize → ℕ → Bool
is_all (pos n) to_read = n == to_read
is_all (neg n) to_read = false

unfoldable pub taken : Ssize → ℕ
taken (pos n) = n
taken (neg n) = 0

-- The loop of `write_logs_deferred`: `queueSize`, `toRead` and `written` at its end. `sent` is what
-- `write` returns.
unfoldable pub write_loop : ℕ → Ssize → ℕ → Ssize → Logger → Option (ℕ × ℕ × Ssize × Logger)
write_loop zero sent to_read written l = none
write_loop (suc fuel) sent to_read written l =
    let again = λ (n : ℕ) (w : Ssize) (k : Logger). write_loop fuel sent n w k in
    elim (queue_size l.log_queue == 0) [
      | true ↦ some (0, to_read, written, l)
      | false ↦ elim (to_read == 0 && is_all written to_read) [
        | false ↦ some (queue_size l.log_queue, to_read, written, l)
        | true ↦ elim (queue_peek l.log_queue) [
          | none ↦ some (queue_size l.log_queue, to_read, written, l)
          | some _ ↦ do
            (m, q) ← dequeue l.log_queue
            b ← buffer_write_adv (buffer_init (length m) (store (λ i. 0) 0 m)) (pos (length m))
            elim (buffer_can_read b) [
              | false ↦ again to_read written (record l { log_queue = q; log_buffer = b })
              | true ↦ do
                (at, n) ← buffer_read_ptr b
                b' ← buffer_read_adv b sent
                again n sent (record l {
                  log_queue = q;
                  log_buffer = b';
                  file = l.file ++ slice b.mem at (taken sent);
                })
            ]
        ]
      ]
    ]

unfoldable pub write_logs_deferred : Logger → Ssize → Option Logger
write_logs_deferred l sent = do
  (size, to_read, written, l') ← write_loop (suc (queue_size l.log_queue)) sent 0 (pos 0) l
  some (if size == 0 && is_all written to_read then set_interest op_noop l' else l')

-- `flush_all_logs`; `write` takes all bytes of each line.
unfoldable pub flush_loop : ℕ → Logger → Logger
flush_loop zero l = l
flush_loop (suc fuel) l = elim (dequeue l.log_queue) [
  | none ↦ l
  | some (m, q) ↦ flush_loop fuel (record l { log_queue = q; file = l.file ++ m })
]

unfoldable pub flush_all_logs : Logger → Logger
flush_all_logs l = flush_loop (queue_size l.log_queue) l
