-- ===== src/Pam/Auth.antt =====
-- src/server/pam/pamAuth.c: the authentication of a management connection.
pub mod Safety
pub mod Accepts
use socks5proxy.Prelude.{
  ℕ, zero, suc, ◌+◌, ◌-◌, Bool, true, false, not, Option, none, some, ltb, ◌==◌, if◌then◌else◌,
  ◌>>=◌, ◌>>◌, Memory, poke,
}
use socks5proxy.Buffer.{
  Buffer, Ssize, pos, neg, buffer_reset, buffer_write_ptr, buffer_can_read, buffer_read_ptr,
  buffer_write_adv, buffer_read_adv, buffer_read, buffer_write,
}
use socks5proxy.Selector.{op_read, op_write}
use socks5proxy.Socket.{Recv, recv_into}
use socks5proxy.Users.{
  Users, UserStatus, user_ok, user_badusername, user_wrongpassword, user_authenticate,
}
use socks5proxy.Pam.{
  PamState, pam_auth, pam_request, pam_done, pam_error, PamAuthState, ver_n_nuser_n_npass,
  PamAuthSt, Pam, pam_version_1, pam_auth_success, pam_auth_failure, read_into, terminate,
  array_255,
}
use socks5proxy.Socks5.Flow.{Flow, returns, falls_through, next_block, finally}

unfoldable pub pam_auth_arrival : Pam → Pam
pam_auth_arrival c = record c { auth = record (c.auth) { state = ver_n_nuser_n_npass } }

-- The connection and the accounts.
abbrev pub PamLocals : Type 0
PamLocals = Pam × Users

abbrev pub PamBlock : Type 0
PamBlock = PamLocals → Option (Flow PamState × PamLocals)

-- The unread bytes and the authentication data of a step.
abbrev pub with_auth : Pam → Buffer → PamAuthSt → Pam
with_auth c b a = record c { client_buffer = b; auth = a }

-- `toRead` comes from `buffer_write_ptr`: it is the free space.
unfoldable pub block_lengths : PamBlock
block_lengths (c, u) = elim c.auth.state [
  | ver_n_nuser_n_npass ↦ do
    (_, to_read) ← buffer_write_ptr c.client_buffer
    if ltb to_read 3 then some (returns pam_auth, (c, u)) else (do
      (ver, b₁) ← buffer_read c.client_buffer
      let a = c.auth
      if not (ver == pam_version_1) then some (returns pam_error, (with_auth c b₁ a, u)) else (do
        (n, b₂) ← buffer_read b₁
        let a₂ = record a { n_user = n }
        if n == 0 then some (returns pam_error, (with_auth c b₂ a₂, u)) else (do
          (m, b₃) ← buffer_read b₂
          let a₃ = record a₂ { n_pass = m }
          if m == 0
              then some (returns pam_error, (with_auth c b₃ a₃, u))
              else some (
                falls_through,
                (with_auth c b₃ (record a₃ { state = PamAuthState.username }), u),
              ))))
  | _ ↦ some (falls_through, (c, u))
]

unfoldable pub block_username : PamBlock
block_username (c, u) = elim c.auth.state [
  | PamAuthState.username ↦ do
    (_, to_read) ← buffer_read_ptr c.client_buffer
    let a = c.auth
    if ltb to_read a.n_user then some (returns pam_auth, (c, u)) else (do
      (b, name) ← read_into a.n_user 0 c.client_buffer a.username
      name' ← terminate name a.n_user
      some (
        falls_through,
        (with_auth c b (record a { username = name'; state = PamAuthState.pass }), u),
      ))
  | _ ↦ some (falls_through, (c, u))
]

-- The loop that reads the password, which also ends when nothing is left to read.
unfoldable pub read_available : ℕ → ℕ → Buffer → Memory → Option (Buffer × Memory)
read_available zero i b array = some (b, array)
read_available (suc n) i b array =
    if not (buffer_can_read b)
    then some (b, array)
    else (do (x, b') ← buffer_read b; read_available n (i + 1) b' (poke array i x))

-- The status that answers the client, or `none` for the other statuses.
unfoldable pub answer : UserStatus → Option ℕ
answer user_ok = some pam_auth_success
answer user_badusername = some pam_auth_failure
answer user_wrongpassword = some pam_auth_failure
answer _ = none

unfoldable pub block_pass : PamBlock
block_pass (c, u) = elim c.auth.state [
  | PamAuthState.pass ↦ do
    (_, to_read) ← buffer_read_ptr c.client_buffer
    let a = c.auth
    if ltb to_read a.n_pass then some (returns pam_auth, (c, u)) else (do
      (b, p) ← read_available a.n_pass 0 c.client_buffer a.pass
      p' ← terminate p a.n_pass
      (status, u') ← user_authenticate u (array_255 a.username) (array_255 p')
      let a' = record a { pass = p' }
      elim (answer status) [
        | none ↦ some (returns pam_error, (with_auth c b a', u'))
        | some st ↦ do
          b₁ ← buffer_write (buffer_reset b) pam_version_1
          b₂ ← buffer_write b₁ st
          some (
            falls_through,
            (
              record (with_auth c b₂ (record a' { status = st })) { client_interest = op_write },
              u',
            ),
          )
      ])
  | _ ↦ some (falls_through, (c, u))
]

unfoldable pub pam_auth_read : Pam → Users → Recv → Option (PamState × Pam × Users)
pam_auth_read c u r = do
  _ ← buffer_write_ptr c.client_buffer
  let (b, readn) = recv_into c.client_buffer r
  elim readn [
    | neg _ ↦ some (pam_error, record c { client_buffer = b }, u)
    | pos n ↦ if n == 0 then some (pam_done, record c { client_buffer = b }, u) else (do
      b' ← buffer_write_adv b (pos n)
      r₁ ← block_lengths (record c { client_buffer = b' }, u)
      r₂ ← next_block block_username r₁
      r₃ ← next_block block_pass r₂
      let (st, (c', u')) = finally pam_auth r₃
      some (st, c', u'))
  ]

-- `written` is what `send` returned for the unread bytes.
unfoldable pub pam_auth_write : Pam → Ssize → Option (PamState × Pam)
pam_auth_write c written = do
  _ ← buffer_read_ptr c.client_buffer
  b ← buffer_read_adv c.client_buffer written
  let c' = record c { client_buffer = b }
  elim written [
    | neg _ ↦ some (pam_error, c')
    | pos _ ↦
        if buffer_can_read b
        then some (pam_auth, c')
        else some
            (pam_request, record c' { client_buffer = buffer_reset b; client_interest = op_read })
  ]
