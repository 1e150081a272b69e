-- ===== src/Pam/Request.antt =====
-- src/server/pam/pamRequest.c: the requests of a management connection. Inside a do block the
-- request of a step is `q`.
pub mod Laws
pub mod Reply
use socks5proxy.Prelude.{
  ℕ, zero, suc, ◌+◌, ◌*◌, ◌/◌, ◌%◌, Bool, true, false, not, Option, none, some, ltb, ◌==◌,
  if◌then◌else◌, ◌>>=◌, ◌>>◌, Memory, poke,
}
use socks5proxy.Buffer.{
  Buffer, Ssize, pos, neg, buffer_init, buffer_reset, buffer_write_ptr, buffer_can_read,
  buffer_read_ptr, buffer_write_adv, buffer_read_adv, buffer_read, buffer_write,
}
use socks5proxy.Selector.{op_noop, op_write}
use socks5proxy.Socket.{Recv, recv_into}
use socks5proxy.Users.{Users}
use socks5proxy.Pam.{
  PamState, pam_request, pam_done, pam_error, PamRequestState, ver_n_reserved, nbody, PamRequestSt,
  Pam, pam_version_1, pam_buffer_size, read_into,
}
use socks5proxy.Pam.Dispatch.{Inputs, handle_pam_request_method}
use socks5proxy.Socks5.Flow.{Flow, returns, falls_through, next_block, finally}

abbrev pub reserved_byte : ℕ
reserved_byte = 0x00

unfoldable pub pam_request_arrival : Pam → Pam
pam_request_arrival c = record c {
  request = record (c.request) { state = ver_n_reserved; reserved = reserved_byte };
}

-- The unread bytes and the request of a step.
abbrev pub with_request : Pam → Buffer → PamRequestSt → Pam
with_request c b q = record c { client_buffer = b; request = q }

abbrev pub RequestBlock : Type 0
RequestBlock = Pam → Option (Flow PamState × Pam)

-- `toRead` comes from `buffer_write_ptr`: it is the free space, here and in the other blocks.
unfoldable pub block_version : RequestBlock
block_version c = elim c.request.state [
  | PamRequestState.ver_n_reserved ↦ do
    (_, to_read) ← buffer_write_ptr c.client_buffer
    if ltb to_read 2 then some (returns pam_request, c) else (do
      (ver, b₁) ← buffer_read c.client_buffer
      if not (ver == pam_version_1)
          then some (returns pam_error, with_request c b₁ c.request)
          else (do
            (reserved, b₂) ← buffer_read b₁
            if not (reserved == c.request.reserved)
                then some (returns pam_error, with_request c b₂ c.request)
                else some (
                  falls_through,
                  with_request c b₂ (record (c.request) { state = PamRequestState.method }),
                )))
  | _ ↦ some (falls_through, c)
]

-- `ntohs(*(uint16_t *)ptr)` at the read pointer
abbrev pub ntohs_at : Buffer → ℕ → ℕ
ntohs_at b ptr = b.mem ptr * 256 + b.mem (ptr + 1)

unfoldable pub block_method : RequestBlock
block_method c = elim c.request.state [
  | PamRequestState.method ↦ do
    (_, to_read) ← buffer_write_ptr c.client_buffer
    if ltb to_read 2 then some (returns pam_request, c) else (do
      (ptr, _) ← buffer_read_ptr c.client_buffer
      b ← buffer_read_adv c.client_buffer (pos 2)
      some (
        falls_through,
        with_request c b (record (c.request) {
          method = ntohs_at c.client_buffer ptr;
          state = PamRequestState.nbody;
        }),
      ))
  | _ ↦ some (falls_through, c)
]

unfoldable pub block_nbody : RequestBlock
block_nbody c = elim c.request.state [
  | PamRequestState.nbody ↦ do
    (_, to_read) ← buffer_write_ptr c.client_buffer
    if ltb to_read 2 then some (returns pam_request, c) else (do
      (ptr, _) ← buffer_read_ptr c.client_buffer
      b ← buffer_read_adv c.client_buffer (pos 2)
      some (
        falls_through,
        with_request c b (record (c.request) {
          read_nbody = ntohs_at c.client_buffer ptr;
          state = PamRequestState.read_body;
        }),
      ))
  | _ ↦ some (falls_through, c)
]

-- `buffer_write(b, body[i])` for the `n` indices from `i` on
unfoldable pub write_from : ℕ → ℕ → Memory → Buffer → Option Buffer
write_from zero i body b = some b
write_from (suc n) i body b = do b' ← buffer_write b (body i); write_from n (i + 1) body b'

-- What follows the call of `handle_pam_request_method`.
unfoldable pub reply : Pam × Users → Option (Pam × Users)
reply (c, u) = do
  b₁ ← buffer_write (buffer_reset c.client_buffer) pam_version_1
  b₂ ← buffer_write b₁ c.request.status
  b₃ ← buffer_write b₂ (c.request.write_nbody / 256)
  b₄ ← buffer_write b₃ (c.request.write_nbody % 256)
  b ← write_from c.request.write_nbody 0 c.request.write_body b₄
  some (record c { client_buffer = b; client_interest = op_write }, u)

-- The local `buffer`, which is read from the body that has arrived.
unfoldable pub body_buffer : Memory → ℕ → Option Buffer
body_buffer body n = buffer_write_adv (buffer_init pam_buffer_size body) (pos n)

unfoldable pub block_body : Inputs → Pam × Users → Option (Flow PamState × (Pam × Users))
block_body env (c, u) = elim c.request.state [
  | PamRequestState.read_body ↦ do
    (_, to_read) ← buffer_write_ptr c.client_buffer
    let q = c.request
    if ltb to_read q.read_nbody then some (returns pam_request, (c, u)) else (do
      (b, body) ← read_into q.read_nbody 0 c.client_buffer q.read_body
      let body' = poke body q.read_nbody 0
      buffer ← body_buffer body' q.read_nbody
      done ←
          handle_pam_request_method env (with_request c b (record q { read_body = body' })) u buffer
      replied ← reply done
      some (falls_through, replied))
  | _ ↦ some (falls_through, (c, u))
]

unfoldable pub pam_request_read : Inputs → Pam → Users → Recv → Option (PamState × Pam × Users)
pam_request_read env c u r = do
  _ ← buffer_write_ptr c.client_buffer
  let (b, readn) = recv_into c.client_buffer r
  elim readn [
    | neg _ ↦ some (pam_error, record c { client_buffer = b }, u)
    | pos n ↦ if n == 0 then some (pam_done, record c { client_buffer = b }, u) else (do
      b' ← buffer_write_adv b (pos n)
      r₁ ← block_version (record c { client_buffer = b' })
      r₂ ← next_block block_method r₁
      (flow, c₃) ← next_block block_nbody r₂
      r₄ ← next_block (block_body env) (flow, (c₃, u))
      let (st, (c', u')) = finally pam_request r₄
      some (st, c', u'))
  ]

-- `written` is what `send` returned for the unread bytes.
unfoldable pub pam_request_write : Pam → Ssize → Option (PamState × Pam)
pam_request_write c written = do
  _ ← buffer_read_ptr c.client_buffer
  b ← buffer_read_adv c.client_buffer written
  let c' = record c { client_buffer = b }
  elim written [
    | neg _ ↦ some (pam_error, c')
    | pos _ ↦
        if buffer_can_read b
        then some (pam_request, c')
        else some
            (pam_done, record c' { client_buffer = buffer_reset b; client_interest = op_noop })
  ]
