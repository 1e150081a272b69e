-- ===== src/Socks5/Auth.antt =====
-- src/server/states/auth.c: username and password authentication.
pub mod Safety
pub mod Progress
use socks5proxy.Prelude.{
  ℕ, zero, suc, ◌+◌, ◌-◌, Bool, true, false, not, ◌||◌, Option, none, some, ltb, ◌==◌,
  if◌then◌else◌, ◌>>=◌, ◌>>◌, Memory, poke, slice, List,
}
use socks5proxy.Buffer.{
  Buffer, Ssize, pos, neg, buffer_write_ptr, buffer_can_read, buffer_read_ptr, buffer_write_adv,
  buffer_read_adv, buffer_read, buffer_write,
}
use socks5proxy.Selector.{op_read, op_write}
use socks5proxy.Socket.{Recv, recv_into}
use socks5proxy.Users.{
  Users, UserStatus, user_ok, user_alreadyexists, user_wrongpassword, user_credtoolong,
  user_badusername, user_authenticate,
}
use socks5proxy.Socks5.{
  SocksV5State, Socks5, AuthSt, AuthState, auth_ver, auth_ulen, auth_uname, auth_plen, auth_passwd,
}
use socks5proxy.Socks5.Flow.{Flow, returns, falls_through, next_block, finally}

abbrev pub auth_version : ℕ
auth_version = 0x01

abbrev pub auth_success : ℕ
auth_success = 0x00

abbrev pub auth_failure : ℕ
auth_failure = 0x01

unfoldable pub auth_arrival : Socks5 → Socks5
auth_arrival c = record c {
  auth_st = record (c.auth_st) { state = auth_ver; ulen = 0; plen = 0; authenticated = false };
}

-- The connection, the accounts, and the local `toRead`.
pub record AuthLocals : Type 0 where
  pub conn : Socks5
  pub users : Users
  pub to_read : ℕ

abbrev pub Block : Type 0
Block = AuthLocals → Option (Flow SocksV5State × AuthLocals)

-- The unread bytes and the authentication data of a step.
abbrev pub with_auth : AuthLocals → Buffer → AuthSt → ℕ → AuthLocals
with_auth l b a n = record l {
  conn = record (l.conn) { client_buffer = b; auth_st = a };
  to_read = n;
}

-- `array[i] = buffer_read(b)` for the `n` indices from `i` on
unfoldable pub read_bytes : ℕ → ℕ → Buffer → Memory → Option (Buffer × Memory)
read_bytes zero i b array = some (b, array)
read_bytes (suc n) i b array = do (x, b') ← buffer_read b; read_bytes n (i + 1) b' (poke array i x)

-- What an array of 256 characters holds.
unfoldable pub array_256 : Memory → List ℕ
array_256 m = slice m 0 256

unfoldable pub block_ver : Block
block_ver l = elim l.conn.auth_st.state [
  | auth_ver ↦ if ltb l.to_read 1 then some (returns SocksV5State.auth, l) else (do
    (ver, b) ← buffer_read l.conn.client_buffer
    let a = l.conn.auth_st
    if not (ver == auth_version)
        then some (returns SocksV5State.error, with_auth l b a (l.to_read - 1))
        else some (falls_through, with_auth l b (record a { state = auth_ulen }) (l.to_read - 1)))
  | _ ↦ some (falls_through, l)
]

unfoldable pub block_ulen : Block
block_ulen l = elim l.conn.auth_st.state [
  | auth_ulen ↦ if ltb l.to_read 1 then some (returns SocksV5State.auth, l) else (do
    (n, b) ← buffer_read l.conn.client_buffer
    let a = record (l.conn.auth_st) { ulen = n }
    if (n == 0) || ltb 255 n
        then some (returns SocksV5State.error, with_auth l b a (l.to_read - 1))
        else some (falls_through, with_auth l b (record a { state = auth_uname }) (l.to_read - 1)))
  | _ ↦ some (falls_through, l)
]

unfoldable pub block_uname : Block
block_uname l = elim l.conn.auth_st.state [
  | auth_uname ↦
      if ltb l.to_read l.conn.auth_st.ulen then some (returns SocksV5State.auth, l) else (do
        let a = l.conn.auth_st
        (b, name) ← read_bytes a.ulen 0 l.conn.client_buffer a.username
        some (
          falls_through,
          with_auth l b (record a { state = auth_plen; username = poke name a.ulen 0 })
              (l.to_read - a.ulen),
        ))
  | _ ↦ some (falls_through, l)
]

unfoldable pub block_plen : Block
block_plen l = elim l.conn.auth_st.state [
  | auth_plen ↦ if ltb l.to_read 1 then some (returns SocksV5State.auth, l) else (do
    (n, b) ← buffer_read l.conn.client_buffer
    let a = record (l.conn.auth_st) { plen = n }
    if (n == 0) || ltb 255 n
        then some (returns SocksV5State.error, with_auth l b a (l.to_read - 1))
        else some (falls_through, with_auth l b (record a { state = auth_passwd }) (l.to_read - 1)))
  | _ ↦ some (falls_through, l)
]

-- The `switch` on the status: every status but these two authenticates.
unfoldable pub accepted : UserStatus → Bool → Bool
accepted user_badusername before = before
accepted user_wrongpassword before = before
accepted _ before = true

unfoldable pub block_passwd : Block
block_passwd l = elim l.conn.auth_st.state [
  | auth_passwd ↦
      if ltb l.to_read l.conn.auth_st.plen then some (returns SocksV5State.auth, l) else (do
        let a = l.conn.auth_st
        (b, pass) ← read_bytes a.plen 0 l.conn.client_buffer a.password
        let password = poke pass a.plen 0
        (status, users) ← user_authenticate l.users (array_256 a.username) (array_256 password)
        let ok = accepted status a.authenticated
        o ← buffer_write l.conn.origin_buffer auth_version
        o' ← buffer_write o (if ok then auth_success else auth_failure)
        some (
          falls_through,
          record {
            conn = record (l.conn) {
              client_buffer = b;
              origin_buffer = o';
              auth_st = record a { password = password; authenticated = ok };
              client_interest = op_write;
            };
            users = users;
            to_read = l.to_read - a.plen;
          },
        ))
  | _ ↦ some (falls_through, l)
]

unfoldable pub auth_blocks : Block
auth_blocks l = do
  r₁ ← block_ver l
  r₂ ← next_block block_ulen r₁
  r₃ ← next_block block_uname r₂
  r₄ ← next_block block_plen r₃
  next_block block_passwd r₄

unfoldable pub auth_read : Socks5 → Users → Recv → Option (SocksV5State × Socks5 × Users)
auth_read c u r = do
  _ ← buffer_write_ptr c.client_buffer
  let (b, readn) = recv_into c.client_buffer r
  elim readn [
    | neg _ ↦ some (SocksV5State.error, record c { client_buffer = b }, u)
    | pos n ↦ do
      b' ← buffer_write_adv b (pos n)
      (_, to_read) ← buffer_read_ptr b'
      let c' = record c { client_buffer = b' }
      if to_read == 0 then some (SocksV5State.done, c', u) else (do
        f ← auth_blocks (record { conn = c'; users = u; to_read = to_read })
        let (st, l) = finally SocksV5State.auth f
        some (st, l.conn, l.users))
  ]

-- `written` is what `send` returned for the unread bytes of `origin_buffer`.
unfoldable pub auth_write : Socks5 → Ssize → Option (SocksV5State × Socks5)
auth_write c written = do
  _ ← buffer_read_ptr c.origin_buffer
  o ← buffer_read_adv c.origin_buffer written
  let c' = record c { origin_buffer = o }
  elim written [
    | neg _ ↦ some (SocksV5State.error, c')
    | pos _ ↦
        if buffer_can_read o
        then some (SocksV5State.auth, c')
        else if not c.auth_st.authenticated
        then some (SocksV5State.error, c')
        else some (SocksV5State.request, record c' { client_interest = op_read })
  ]
