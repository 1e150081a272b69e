-- ===== src/Copy.antt =====
-- src/server/states/copy.c: the bytes that go to and fro once a connection is established.
-- The two `CopySt` are named by the descriptor that they stand for. What is sent to the client waits
-- in `origin_buffer`, and what is sent to the origin in `client_buffer`: `buffer_of` is their pointer
-- `buffer`, and `other` their pointer `otherCopySt`.
mod Tests
pub mod Armed
pub mod Read
pub mod Write
use socks5proxy.Prelude.{
  ℕ, zero, suc, ◌+◌, ◌-◌, ◌%◌, ◌/◌, Bool, true, false, ◌&&◌, ◌||◌, not, Option, none, some, ltb,
  ◌==◌, if◌then◌else◌, ◌>>=◌, ◌>>◌,
}
use socks5proxy.Buffer.{
  Buffer, Ssize, pos, neg, buffer_can_write, buffer_can_read, buffer_write_ptr, buffer_read_ptr,
  buffer_write_adv, buffer_read_adv,
}
use socks5proxy.Metrics.{MetricSnapshot, register_bytes_transferred}
use socks5proxy.Selector.{op_noop, op_read, op_write}
use socks5proxy.Socket.{Recv, recv_into}
use socks5proxy.Socks5.{SocksV5State}

-- The descriptor on which an event arrives, or which a `CopySt` stands for.
pub data Side : Type 0 where
  client origin : Side

unfoldable pub other : Side → Side
other client = origin
other origin = client

-- `shutdown` was called for reading or for writing.
pub record Shutdowns : Type 0 where
  pub shut_rd : Bool
  pub shut_wr : Bool

-- `struct copy_st`, the item that the selector has for its descriptor (`none` if it has none, and
-- else its interest), and what was shut down on the descriptor.
pub record CopySt : Type 0 where
  pub interests : ℕ
  pub item : Option ℕ
  pub shut : Shutdowns

-- The part of the connection that is used while copying, and the server's metrics.
pub record Copying : Type 0 where
  pub client_buffer : Buffer
  pub origin_buffer : Buffer
  pub client_copy : CopySt
  pub origin_copy : CopySt
  pub metrics : MetricSnapshot

unfoldable pub buffer_of : Side → Copying → Buffer
buffer_of client c = c.origin_buffer
buffer_of origin c = c.client_buffer

unfoldable pub with_buffer : Side → Buffer → Copying → Copying
with_buffer client b c = record c { origin_buffer = b }
with_buffer origin b c = record c { client_buffer = b }

unfoldable pub copy_of : Side → Copying → CopySt
copy_of client c = c.client_copy
copy_of origin c = c.origin_copy

unfoldable pub with_copy : Side → CopySt → Copying → Copying
with_copy client s c = record c { client_copy = s }
with_copy origin s c = record c { origin_copy = s }

-- `selector_set_interest` for a descriptor that is in range: whether it succeeds, and its effect.
unfoldable pub selector_set_interest : Side → ℕ → Copying → Bool × Copying
selector_set_interest side i c =
    let s = copy_of side c in
    elim s.item [
      | none ↦ (false, c)
      | some _ ↦ (true, with_copy side (record s { item = some i }) c)
    ]

-- An interest from its two bits.
unfoldable pub interest : Bool → Bool → ℕ
interest read write = (if read then op_read else op_noop) + (if write then op_write else op_noop)

unfoldable pub set_interests : Side → ℕ → Copying → Copying
set_interests side i c = with_copy side (record (copy_of side c) { interests = i }) c

-- `none` in the first place for the failure, -1.
unfoldable pub update_target_interests : Side → Copying → Option ℕ × Copying
update_target_interests target c =
    let mine = buffer_of target c in
    let others = buffer_of (other target) c in
    let ret = interest (buffer_can_write others) (buffer_can_read mine) in
    let oet = interest (buffer_can_write mine) (buffer_can_read others) in
    let (ok, c') = selector_set_interest target ret c in
    if not ok
    then (none, c')
    else (let (ok', c'') = selector_set_interest (other target) oet c' in
        if not ok'
        then (none, c'')
        else (some ret, set_interests (other target) oet (set_interests target ret c'')))

pub socksv5_copy_arrival : Copying → Option Copying
socksv5_copy_arrival c = do
  _ ← buffer_read_ptr c.origin_buffer
  (_, to_write_to_origin) ← buffer_read_ptr c.client_buffer
  let waiting = ltb 0 to_write_to_origin
  let c' =
      set_interests client op_read (set_interests origin (if waiting then op_write else op_read) c)
  let (_, c'') = selector_set_interest origin (if waiting then op_write else op_read) c'
  some (selector_set_interest client (if waiting then op_noop else op_read) c'').1

-- `interests &= ~OP_READ` and `interests &= ~OP_WRITE`
unfoldable pub clear_read : ℕ → ℕ
clear_read i = if i % 2 == 1 then i - op_read else i

unfoldable pub clear_write : ℕ → ℕ
clear_write i = if (i / 4) % 2 == 1 then i - op_write else i

-- `shutdown(fd, SHUT_RD)`, and the interest in reading dropped here and in the selector.
unfoldable pub stop_reading : Side → Copying → Copying
stop_reading side c =
    let s = copy_of side c in
    let i = clear_read s.interests in
    (selector_set_interest side i
      (with_copy side (record s { interests = i; shut = record (s.shut) { shut_rd = true } }) c)).1

-- `shutdown(fd, SHUT_WR)`, and the interest in writing dropped here and in the selector.
unfoldable pub stop_writing : Side → Copying → Copying
stop_writing side c =
    let s = copy_of side c in
    let i = clear_write s.interests in
    (selector_set_interest side i
      (with_copy side (record s { interests = i; shut = record (s.shut) { shut_wr = true } }) c)).1

-- The last line of both handlers.
unfoldable pub next_state : Copying → SocksV5State
next_state c =
    if (c.client_copy.interests == 0) && (c.origin_copy.interests == 0)
    then SocksV5State.done
    else SocksV5State.copy

-- An event on the descriptor of `from`; `r` is what `recv` does.
pub socksv5_copy_read : Side → Copying → Recv → Option (SocksV5State × Copying)
socksv5_copy_read from c r =
    let to = other from in
    if not (buffer_can_write (buffer_of to c)) then some (SocksV5State.copy, c) else (do
      _ ← buffer_write_ptr (buffer_of to c)
      let (b, read_bytes) = recv_into (buffer_of to c) r
      elim read_bytes [
        | pos (suc n) ↦ do
          b' ← buffer_write_adv b (pos (suc n))
          let c' = with_buffer to b' c
          let c'' = record c' { metrics = register_bytes_transferred 0 (suc n) c.metrics }
          let (ret, c₃) = update_target_interests from c''
          elim ret [ none ↦ some (SocksV5State.error, c₃) | some _ ↦ some (next_state c₃, c₃) ]
        | _ ↦
            let c' = stop_writing to (stop_reading from (with_buffer to b c)) in
            some (next_state c', c')
      ])

-- An event on the descriptor of `from`; `written` is what `send` returned.
pub socksv5_copy_write : Side → Copying → Ssize → Option (SocksV5State × Copying)
socksv5_copy_write from c written =
    if not (buffer_can_read (buffer_of from c)) then some (SocksV5State.copy, c) else (do
      _ ← buffer_read_ptr (buffer_of from c)
      elim written [
        | pos (suc n) ↦ do
          b ← buffer_read_adv (buffer_of from c) (pos (suc n))
          let c' = with_buffer from b c
          let c'' = record c' { metrics = register_bytes_transferred (suc n) 0 c.metrics }
          let (ret, c₃) = update_target_interests from c''
          elim ret [ none ↦ some (SocksV5State.error, c₃) | some _ ↦ some (next_state c₃, c₃) ]
        | _ ↦ let c' = stop_reading (other from) (stop_writing from c) in some (next_state c', c')
      ])
