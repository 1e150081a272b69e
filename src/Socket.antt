-- ===== src/Socket.antt =====
-- recv(2) and send(2), which are not code of the repository, enter the handlers by their outcome.
use socks5proxy.Prelude.{ℕ, ◌+◌, ◌≤◌, List, length, store}
use socks5proxy.Buffer.{Buffer, Ssize, pos, neg}

-- What `recv` did: it returned -1, or it stored these bytes and returned their number.
pub data Recv : Type 0 where
  failed : Recv
  received : List ℕ → Recv

-- `recv(fd, buffer_write_ptr(b), n, 0)`: the buffer with its memory written, and the return value.
unfoldable pub recv_into : Buffer → Recv → Buffer × Ssize
recv_into b failed = (b, neg 0)
recv_into b (received bytes) = (record b { mem = store b.mem b.write bytes }, pos (length bytes))

-- The documented bound: `recv` stores at most the number of bytes that it was given room for.
abbrev pub Fits : Buffer → List ℕ → Type 0
Fits b bytes = b.write + length bytes ≤ b.limit
