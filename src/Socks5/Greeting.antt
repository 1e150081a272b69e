-- ===== src/Socks5/Greeting.antt =====
-- src/server/states/greeting.c: the method negotiation.
pub mod Spec
pub mod Refine
pub mod Write
pub mod Outcome
pub mod Progress
use socks5proxy.Prelude.{
  ℕ, zero, suc, ◌-◌, Bool, true, false, not, ◌&&◌, Option, none, some, ltb, ◌==◌, if◌then◌else◌,
  ◌>>=◌, ◌>>◌,
}
use socks5proxy.Buffer.{
  Buffer, Ssize, pos, neg, buffer_write_ptr, buffer_can_read, buffer_read_ptr, buffer_write_adv,
  buffer_read_adv, buffer_read, buffer_write,
}
use socks5proxy.Selector.{op_read, op_write}
use socks5proxy.Socket.{Recv, failed, received, recv_into}
use socks5proxy.Socks5.{
  SocksV5State, Socks5, GreetingSt, GreetingState, ver_n_nmethods, methods, socks5_version,
}
use socks5proxy.Socks5.Flow.{Flow, returns, falls_through, next_block, finally}

abbrev pub no_auth_method : ℕ
no_auth_method = 0x00

abbrev pub auth_method : ℕ
auth_method = 0x02

abbrev pub auth_method_invalid : ℕ
auth_method_invalid = 0xFF

unfoldable pub greeting_arrival : Socks5 → Socks5
greeting_arrival c = record c {
  greeting_st = record (c.greeting_st) { state = ver_n_nmethods; method = no_auth_method };
}

-- `if (state == VER_N_NMETHODS) { ... }`
unfoldable pub greeting_version : Socks5 → Option (Flow SocksV5State × Socks5)
greeting_version c = elim c.greeting_st.state [
  | ver_n_nmethods ↦ do
    (_, to_read) ← buffer_read_ptr c.client_buffer
    if ltb to_read 2 then some (returns SocksV5State.greeting, c) else (do
      (ver, b) ← buffer_read c.client_buffer
      if not (ver == socks5_version)
          then some (returns SocksV5State.error, record c { client_buffer = b })
          else (do
            (n, b') ← buffer_read b
            let g = record (c.greeting_st) { n_methods = n }
            if n == 0
                then some
                    (returns SocksV5State.error, record c { client_buffer = b'; greeting_st = g })
                else some (
                  falls_through,
                  record c { client_buffer = b'; greeting_st = record g { state = methods } },
                )))
  | methods ↦ some (falls_through, c)
]

-- The `for` over the methods: the rounds left, the buffer, `method` and `foundAuthMethod`.
unfoldable pub scan_methods : ℕ → Buffer → ℕ → Option (Buffer × ℕ × Bool)
scan_methods zero b method = some (b, method, false)
scan_methods (suc n) b method = elim (buffer_can_read b) [
  | true ↦ do
    (m, b') ← buffer_read b
    elim (m == auth_method) [
      | true ↦ some (b', auth_method, true)
      | false ↦
          scan_methods n b' (
            if (m == no_auth_method) && not (method == auth_method) then no_auth_method else method)
    ]
  | false ↦ some (b, method, false)
]

-- `if (state == METHODS) { ... }`
unfoldable pub greeting_methods : Socks5 → Option (Flow SocksV5State × Socks5)
greeting_methods c = elim c.greeting_st.state [
  | ver_n_nmethods ↦ some (falls_through, c)
  | methods ↦ do
    (_, to_read) ← buffer_read_ptr c.client_buffer
    if ltb to_read c.greeting_st.n_methods then some (returns SocksV5State.greeting, c) else (do
      (b, method, found) ← scan_methods c.greeting_st.n_methods c.client_buffer c.greeting_st.method
      let chosen = if (method == no_auth_method) && not found then auth_method_invalid else method
      o ← buffer_write c.origin_buffer socks5_version
      o' ← buffer_write o chosen
      some (
        falls_through,
        record c {
          client_buffer = b;
          origin_buffer = o';
          greeting_st = record (c.greeting_st) { method = chosen };
          client_interest = op_write;
        },
      ))
]

unfoldable pub greeting_read : Socks5 → Recv → Option (SocksV5State × Socks5)
greeting_read c r = do
  _ ← buffer_write_ptr c.client_buffer
  let (b, readn) = recv_into c.client_buffer r
  elim readn [
    | neg _ ↦ some (SocksV5State.error, record c { client_buffer = b })
    | pos n ↦ do
      b' ← buffer_write_adv b (pos n)
      (_, to_read) ← buffer_read_ptr b'
      let c' = record c { client_buffer = b' }
      if to_read == 0 then some (SocksV5State.done, c') else (do
        v ← greeting_version c'
        m ← next_block greeting_methods v
        some (finally SocksV5State.greeting m))
  ]

-- `written` is what `send` returned for the unread bytes of `origin_buffer`.
unfoldable pub greeting_write : Socks5 → Ssize → Option (SocksV5State × Socks5)
greeting_write c written = do
  _ ← buffer_read_ptr c.origin_buffer
  elim written [
    | neg _ ↦ some (SocksV5State.error, c)
    | pos n ↦ do
      o ← buffer_read_adv c.origin_buffer (pos n)
      _ ← buffer_write_ptr o
      let c' = record c { origin_buffer = o }
      if buffer_can_read o
          then some (SocksV5State.greeting, c')
          else if c.greeting_st.method == auth_method
          then some (SocksV5State.auth, record c' { client_interest = op_read })
          else some (SocksV5State.request, record c' { client_interest = op_read })
  ]
