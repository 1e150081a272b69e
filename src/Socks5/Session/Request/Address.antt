-- ===== src/Socks5/Session/Request/Address.antt =====
-- A request for an address of IPv4 or IPv6 that is complete (src/server/states/request.c).
use socks5proxy.Prelude.{
  ℕ, ◌+◌, ◌*◌, ◌<◌, ◌≡◌, refl, true, false, none, some, List, [], ◌∷◌, ◌++◌, ltb, ◌==◌, arith,
  length, length-append, le→ltb, inl, inr, ◌⊎◌,
}
use socks5proxy.Buffer.{Buffer, buffer_read_ptr}
use socks5proxy.Buffer.View.{Holds}
use socks5proxy.Buffer.Rules.{read_step, read_ptr}
use socks5proxy.Selector.{op_write}
use socks5proxy.Socket.{Recv}
use socks5proxy.Socks5.{SocksV5State}
use socks5proxy.Socks5.Session.{
  ver_cmd_atyp, dst_len, dst_res, AddrInfo, Session, ipv4_addr, ipv4_addr_len, ipv6_addr,
  ipv6_addr_len,
}
use socks5proxy.Socks5.Session.Connection.{in_progress}
use socks5proxy.Socks5.Session.Connection.Laws.{try_connection_lem}
use socks5proxy.Socks5.Session.Request.{
  Network, take_in, read_list, is_valid_atyp, address_length, get_port, connect_to_dest, resolve_ip,
  resolve_dst_address, request_read,
}
use socks5proxy.Socks5.Session.Request.Header.{take_in-failed, header_code, request_header_lem}

read_list_lem :
    (xs ys : List ℕ) (b : Buffer) {l : ℕ}
    → Holds b (xs ++ ys) l
    → (b' : Buffer) × (read_list (length xs) b ≡ some (xs, b')) × Holds b' ys l
unfolding read_list
read_list_lem [] ys b h = (b, refl, h)
read_list_lem (x ∷ xs) ys b h =
    let (b₁, e, k) = read_step h in
    let (b', e', k') = read_list_lem xs ys b₁ k in (b', ground (arith, e, e'), k')

-- The text of an address is read back: what the manual says of `inet_ntop` and `inet_pton`.
pub record Prints (net : Network) (family : ℕ) (address : List ℕ) : Type 0 where
  pub text : List ℕ
  pub printed : net.ntop family address ≡ some text
  pub read_back : net.pton family text ≡ some address

get_port_lem :
    (s : Session) (p₁ p₂ : ℕ) {xs : List ℕ} {l : ℕ}
    → Holds s.client_buffer (p₁ ∷ p₂ ∷ xs) l
    → (b : Buffer) × (get_port s
        ≡ some (record s { client_buffer = b; origin_port = p₁ * 256 + p₂ }))
      × Holds b xs l
unfolding get_port
get_port_lem s p₁ p₂ h =
    let (b₁, e₁, h₁) = read_step h in
    let (b₂, e₂, h₂) = read_step h₁ in (b₂, ground (arith, e₁, e₂), h₂)

begin :
    (net : Network) (s : Session) (a : AddrInfo) (fd : ℕ)
    → s.origin_resolution ≡ a ∷ []
    → net.attempt a ≡ in_progress fd true
    → connect_to_dest net s
      ≡ some (
        SocksV5State.connect,
        record s {
          origin_fd = some fd;
          origin_interest = some op_write;
          origin_resolution = a ∷ [];
          client_interest = op_write;
        },
      )
unfolding connect_to_dest
begin net s a fd o e =
    let t = try_connection_lem net.attempt s [] a [] fd o tt e in ground (arith, o, t)

-- The address in the request, for either family, becomes the only one to connect to.
pub resolve_ip_lem :
    (net : Network) (family : ℕ) (s : Session) (address : List ℕ) (p₁ p₂ fd : ℕ) {xs : List ℕ}
    {l : ℕ}
    → Holds s.client_buffer (address ++ p₁ ∷ p₂ ∷ xs) l
    → Prints net family address
    → net.alloc ≡ true
    → net.attempt (record { family = family; address = address; port = p₁ * 256 + p₂ })
      ≡ in_progress fd true
    → (s' : Session) × (resolve_ip net family (length address) s ≡ some (SocksV5State.connect, s'))
      × (s'.origin_fd ≡ some fd)
      × (s'.origin_resolution
          ≡ record { family = family; address = address; port = p₁ * 256 + p₂ } ∷ [])
      × (s'.origin_interest ≡ some op_write)
      × Holds s'.client_buffer xs l
unfolding resolve_ip
resolve_ip_lem net family s address p₁ p₂ fd {xs} h text alloc e =
    let (b, r, h₁) = read_list_lem address (p₁ ∷ p₂ ∷ xs) s.client_buffer h in
    let s₁ : Session = record s { client_buffer = b; origin_host = text.text } in
    let (b₂, g, h₂) = get_port_lem s₁ p₁ p₂ h₁ in
    let a : AddrInfo = record { family = family; address = address; port = p₁ * 256 + p₂ } in
    let s₂ : Session = record s₁ {
      client_buffer = b₂;
      origin_port = p₁ * 256 + p₂;
      origin_resolution = a ∷ [];
    } in
    let c = begin net s₂ a fd refl e in
    (
      record s₂ {
        origin_fd = some fd;
        origin_interest = some op_write;
        client_interest = op_write;
      },
      ground (arith, r, text.printed, g, alloc, text.read_back, c),
      refl,
      refl,
      refl,
      h₂,
    )

-- The types of address that are not names, and how long they are.
abbrev pub IsIp : ℕ → ℕ → Type 0
IsIp family n =
    ((family ≡ ipv4_addr) × (n ≡ ipv4_addr_len)) ⊎ ((family ≡ ipv6_addr) × (n ≡ ipv6_addr_len))

resolve_dst_ip :
    (net : Network) (s : Session) (b : Buffer) (family n len : ℕ) (r : Recv) (p : ℕ)
    {result : SocksV5State × Session}
    → IsIp family n
    → s.request_st.state ≡ dst_len
    → s.request_st.atyp ≡ family
    → take_in s.client_buffer r ≡ some b
    → buffer_read_ptr b ≡ some (p, len)
    → n < len
    → resolve_ip net family n
        (record s { client_buffer = b; request_st = record (s.request_st) { state = dst_res } })
      ≡ some result
    → resolve_dst_address net s r ≡ some result
unfolding resolve_dst_address address_length
resolve_dst_ip net s b family n len r p (inl (f, m)) st at e q lt h =
    let z : (len == 0) ≡ false = ground (arith, lt) in
    let enough : ltb len 5 ≡ false = le→ltb len 5 (omega (arith, lt, m)) in
    let h' = rw (f, m) at h in ground (arith, st, at, f, e, q, z, enough, h')
resolve_dst_ip net s b family n len r p (inr (f, m)) st at e q lt h =
    let z : (len == 0) ≡ false = ground (arith, lt) in
    let enough : ltb len 17 ≡ false = le→ltb len 17 (omega (arith, lt, m)) in
    let h' = rw (f, m) at h in ground (arith, st, at, f, e, q, z, enough, h')

ip_header : (family n : ℕ) → IsIp family n → header_code 5 1 0 family ≡ none
unfolding header_code is_valid_atyp
ip_header family n (inl (f, m)) = rw f refl
ip_header family n (inr (f, m)) = rw f refl

-- A CONNECT to an address of IPv4 or IPv6 and a port, which stands in the buffer once the first
-- `recv` has returned, while the second finds nothing, begins a connection to that address and that
-- port, big-endian, if the system lets one begin: the state is CONNECT, and the descriptor of the
-- origin is registered for writing.
pub request_read_ip :
    (net : Network) (s : Session) (first : Recv) (b : Buffer) (family : ℕ) (address : List ℕ)
    (p₁ p₂ fd : ℕ) {xs : List ℕ} {l : ℕ}
    → IsIp family (length address)
    → s.request_st.state ≡ ver_cmd_atyp
    → take_in s.client_buffer first ≡ some b
    → Holds b (5 ∷ 1 ∷ 0 ∷ family ∷ address ++ p₁ ∷ p₂ ∷ xs) l
    → Prints net family address
    → net.alloc ≡ true
    → net.attempt (record { family = family; address = address; port = p₁ * 256 + p₂ })
      ≡ in_progress fd true
    → (s' : Session) × (request_read net s first Recv.failed ≡ some (SocksV5State.connect, s'))
      × (s'.origin_fd ≡ some fd)
      × (s'.origin_resolution
          ≡ record { family = family; address = address; port = p₁ * 256 + p₂ } ∷ [])
      × (s'.origin_interest ≡ some op_write)
      × Holds s'.client_buffer xs l
unfolding request_read
request_read_ip net s first b family address p₁ p₂ fd {xs} {l} ip st e h text alloc begun =
    let (flow, s₁, q, checked) = request_header_lem s first b 5 1 0 family st e h in
    let (f, st₁, at₁, h₁) = rw (ip_header family (length address) ip) at checked in
    let t = take_in-failed s₁.client_buffer h₁ in
    let s₂ : Session = record s₁ { request_st = record (s₁.request_st) { state = dst_res } } in
    let (s', r, fd', res, i, h') =
      resolve_ip_lem net family s₂ address p₁ p₂ fd h₁ text alloc begun in
    let more = length-append address (p₁ ∷ p₂ ∷ xs) in
    let d =
      resolve_dst_ip net s₁ s₁.client_buffer family (length address)
        (length (address ++ p₁ ∷ p₂ ∷ xs)) Recv.failed s₁.client_buffer.read ip st₁ at₁ t
        (read_ptr h₁) (omega (arith, more)) r in
    (s', ground (arith, q, f, d), fd', res, i, h')
