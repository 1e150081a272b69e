-- ===== src/Socks5/Session/Request.antt =====
-- src/server/states/request.c: the request of the client, and the address of the origin.
pub mod Header
pub mod Address
use socks5proxy.Prelude.{
  ℕ, zero, suc, ◌+◌, ◌-◌, ◌*◌, Bool, true, false, not, ◌||◌, Option, none, some, List, [], ◌∷◌,
  ◌++◌, ltb, ◌==◌, if◌then◌else◌, replicate, ◌>>=◌, ◌>>◌,
}
use socks5proxy.Buffer.{Buffer, buffer_write_ptr, buffer_write_adv, buffer_read_ptr, buffer_read}
use socks5proxy.Selector.{op_noop, op_write}
use socks5proxy.Socket.{Recv, recv_into}
use socks5proxy.Socks5.{SocksV5State, socks5_version}
use socks5proxy.Socks5.Flow.{Flow, returns, falls_through}
use socks5proxy.Socks5.Session.{
  RequestState, ver_cmd_atyp, dst_len, dst_res, RequestSt, AddrInfo, Session, succeded,
  server_failure, network_unreachable, host_unreachable, connection_refused, ttl_expired,
  command_not_supported, address_type_not_supported, invalid_socks5_version, invalid_rsv,
  invalid_fqdn_lenght, ipv4_addr, fqdn, ipv6_addr, ipv4_addr_len, ipv6_addr_len,
}
use socks5proxy.Socks5.Session.Connection.{
  Attempt, try_connection, general_failure, selector_register_failed, connection_in_progress,
}

abbrev pub connect_cmd : ℕ
connect_cmd = 0x01

abbrev pub rsv : ℕ
rsv = 0x00

-- What the handlers get from the system: the text of an address and the address of a text, by the
-- family, the entries for a host and a port, whether `calloc` and `pthread_create` succeed, what
-- happens to each address that is tried, and what an uninitialised `addrBytes` holds.
pub record Network : Type 0 where
  pub ntop : ℕ → List ℕ → Option (List ℕ)
  pub pton : ℕ → List ℕ → Option (List ℕ)
  pub getaddrinfo : List ℕ → ℕ → Option (List AddrInfo)
  pub alloc : Bool
  pub thread : Bool
  pub attempt : AddrInfo → Attempt
  pub garbage : ℕ

unfoldable pub request_arrival : Session → Session
request_arrival s = record s { request_st = record (s.request_st) { state = ver_cmd_atyp } }

-- `to_reply_state`, with the code for the reply.
abbrev pub to_reply_state : Session → ℕ → SocksV5State × Session
to_reply_state s rep = (SocksV5State.reply, record s { rep = rep; client_interest = op_write })

-- A block that returns what `to_reply_state` returns.
abbrev pub refuse : Session → ℕ → Option (Flow SocksV5State × Session)
refuse s rep = let (st, t) = to_reply_state s rep in some (returns st, t)

-- `recv` for the room that there is; a failure moves no pointer.
unfoldable pub take_in : Buffer → Recv → Option Buffer
take_in b r = do _ ← buffer_write_ptr b; let (b', readn) = recv_into b r; buffer_write_adv b' readn

-- `n` calls of `buffer_read`
unfoldable pub read_list : ℕ → Buffer → Option (List ℕ × Buffer)
read_list zero b = some ([], b)
read_list (suc n) b = do (x, b₁) ← buffer_read b; (xs, b₂) ← read_list n b₁; some (x ∷ xs, b₂)

unfoldable pub is_valid_atyp : ℕ → Bool
is_valid_atyp c = c == ipv4_addr || c == fqdn || c == ipv6_addr

-- The first block of `request_read`, which is passed over in the other states.
unfoldable pub request_header : Session → Recv → Option (Flow SocksV5State × Session)
request_header s r = elim s.request_st.state [
  | ver_cmd_atyp ↦ do
    b ← take_in s.client_buffer r
    (_, to_read) ← buffer_read_ptr b
    let at = λ (c : Buffer) (q : RequestSt). record s { client_buffer = c; request_st = q }
    let q = s.request_st
    if to_read == 0
        then some (returns SocksV5State.done, at b q)
        else if ltb to_read 4
        then some (returns SocksV5State.request, at b q)
        else (do
          (ver, b₁) ← buffer_read b
          if not (ver == socks5_version) then refuse (at b₁ q) invalid_socks5_version else (do
            (cmd, b₂) ← buffer_read b₁
            let q₂ = record q { cmd = cmd }
            if not (cmd == connect_cmd) then refuse (at b₂ q₂) command_not_supported else (do
              (reserved, b₃) ← buffer_read b₂
              if not (reserved == rsv) then refuse (at b₃ q₂) invalid_rsv else (do
                (atyp, b₄) ← buffer_read b₃
                let q₄ = record q₂ { atyp = atyp }
                if not (is_valid_atyp atyp)
                    then refuse (at b₄ q₄) address_type_not_supported
                    else some (
                      falls_through,
                      record (at b₄ (record q₄ { state = dst_len })) { atyp = atyp },
                    )))))
  | _ ↦ some (falls_through, s)
]

-- The block of `resolve_dst_address` that waits for the address, and `addrBytes` behind it.
unfoldable pub address_length : Network → Session → ℕ → Option (Flow SocksV5State × Session × ℕ)
address_length net s to_read = elim s.request_st.state [
  | dst_len ↦
      let ready =
        λ (t : Session). record t { request_st = record (t.request_st) { state = dst_res } } in
      if to_read == 0
      then some (returns SocksV5State.done, s, net.garbage)
      else if s.request_st.atyp == fqdn
      then (do
        (n, b) ← buffer_read s.client_buffer
        let s₁ = record s { client_buffer = b }
        if n == 0
            then (let (st, s₂) = to_reply_state s₁ invalid_fqdn_lenght in some (returns st, s₂, n))
            else if ltb (to_read - 1) (n + 1)
            then some (returns SocksV5State.request, s₁, n)
            else some (falls_through, ready s₁, n))
      else (let n = if s.request_st.atyp == ipv4_addr then ipv4_addr_len else ipv6_addr_len in
          if ltb to_read (n + 1)
          then some (returns SocksV5State.request, s, n)
          else some (falls_through, ready s, n))
  | _ ↦ some (falls_through, s, net.garbage)
]

-- `get_port`
unfoldable pub get_port : Session → Option Session
get_port s = do
  (p₁, b₁) ← buffer_read s.client_buffer
  (p₂, b₂) ← buffer_read b₁
  some (record s { client_buffer = b₂; origin_port = p₁ * 256 + p₂ })

-- What the state is set to by the code of `try_connection`.
unfoldable pub connect_to_dest : Network → Session → Option (SocksV5State × Session)
connect_to_dest net s = elim s.origin_resolution [
  | [] ↦ some (to_reply_state s server_failure)
  | a ∷ rest ↦ do
    (ret, s') ← try_connection net.attempt s
    if ret == general_failure || ret == selector_register_failed
        then some (to_reply_state s' server_failure)
        else if ret == network_unreachable
            || ret == host_unreachable
            || ret == connection_refused
            || ret == ttl_expired
        then some (to_reply_state s' ret)
        else if ret == connection_in_progress
        then some (SocksV5State.connect, record s' { client_interest = op_write })
        else some (
            to_reply_state
              (record s' {
                origin_interest = elim s'.origin_interest [ none ↦ none | some _ ↦ some op_noop ];
              })
              succeded)
]

-- `get_ipv4_address` and `resolve_ipv4`, `get_ipv6_address` and `resolve_ipv6`, and `get_port`
-- between them.
unfoldable pub resolve_ip : Network → ℕ → ℕ → Session → Option (SocksV5State × Session)
resolve_ip net family n s = do
  (bytes, b) ← read_list n s.client_buffer
  let s₁ = record s { client_buffer = b }
  elim (net.ntop family bytes) [
    | none ↦ some (to_reply_state s₁ server_failure)
    | some host ↦ do
      s₂ ← get_port (record s₁ { origin_host = host })
      if not net.alloc
          then some (to_reply_state s₂ server_failure)
          else (let address : List ℕ = elim (net.pton family host) [
            | none ↦ replicate n 0
            | some bytes' ↦ bytes'
          ] in
              let entry : AddrInfo = record {
                family = family;
                address = address;
                port = s₂.origin_port;
              } in
              connect_to_dest net (record s₂ { origin_resolution = entry ∷ [] }))
  ]

-- `get_fqdn` and `resolve_fqdn`, which starts a thread.
unfoldable pub resolve_name : Network → ℕ → Session → Option (SocksV5State × Session)
resolve_name net n s = do
  (host, b) ← read_list n s.client_buffer
  s₁ ← get_port (record s { client_buffer = b; origin_host = host })
  if net.thread then some (SocksV5State.request, s₁) else some (to_reply_state s₁ server_failure)

-- What `resolve_fqdn_blocking`, the thread, does to the connection.
unfoldable pub resolve_fqdn_blocking : Network → Session → Session
resolve_fqdn_blocking net s = record s {
  origin_resolution = elim (net.getaddrinfo s.origin_host s.origin_port) [
    | none ↦ []
    | some addrs ↦ addrs
  ];
}

unfoldable pub resolve_dst_address : Network → Session → Recv → Option (SocksV5State × Session)
resolve_dst_address net s r = do
  b ← take_in s.client_buffer r
  (_, to_read) ← buffer_read_ptr b
  (flow, s₁, n) ← address_length net (record s { client_buffer = b }) to_read
  elim flow [
    | returns st ↦ some (st, s₁)
    | falls_through ↦
        if s₁.request_st.atyp == ipv4_addr
        then resolve_ip net ipv4_addr ipv4_addr_len s₁
        else if s₁.request_st.atyp == fqdn
        then resolve_name net n s₁
        else resolve_ip net ipv6_addr ipv6_addr_len s₁
  ]

-- `first` and `second` are what the two calls of `recv` return.
unfoldable pub request_read : Network → Session → Recv → Recv → Option (SocksV5State × Session)
request_read net s first second = do
  (flow, s₁) ← request_header s first
  elim flow [ returns st ↦ some (st, s₁) | falls_through ↦ resolve_dst_address net s₁ second ]

pub request_block : Network → Session → Option (SocksV5State × Session)
request_block net s = connect_to_dest net s
