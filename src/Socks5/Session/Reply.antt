-- ===== src/Socks5/Session/Reply.antt =====
-- src/server/states/reply.c: the reply to a request.
use socks5proxy.Prelude.{
  ℕ, ◌+◌, ◌-◌, ◌/◌, ◌%◌, ◌≤◌, ◌<◌, ◌≡◌, refl, ap, ◌∙◌, true, false, not, ◌&&◌, ◌||◌, drop, Option,
  none, some, List, [], ◌∷◌, ◌++◌, ◌==◌, if◌then◌else◌, arith, length, length-drop, append-nil,
  append_assoc, Bool-cases, inl, inr, ◌>>=◌,
}
use socks5proxy.Buffer.{
  Buffer, Ssize, pos, buffer_write, buffer_can_read, buffer_read_ptr, buffer_read_adv,
}
use socks5proxy.Buffer.View.{Holds, received}
use socks5proxy.Buffer.Rules.{read_ptr, read_adv, can_read_iff, write_step}
use socks5proxy.Selector.{op_read}
use socks5proxy.Socks5.{SocksV5State, socks5_version}
use socks5proxy.Socks5.Session.{AddrInfo, Session, succeded, ipv4_addr, ipv6_addr}
use socks5proxy.Socks5.Session.Request.{rsv}

-- `buffer_write` of each of the bytes
unfoldable pub write_bytes : List ℕ → Buffer → Option Buffer
write_bytes [] b = some b
write_bytes (x ∷ xs) b = do b₁ ← buffer_write b x; write_bytes xs b₁

-- `local` is what `getsockname` stored, `none` if it failed. For another family no address is
-- written, and the port is 0.
unfoldable pub reply_arrival : Session → Option AddrInfo → Option Session
reply_arrival s local = do
  b ← write_bytes (socks5_version ∷ s.rep ∷ rsv ∷ []) s.origin_buffer
  elim local [
    | none ↦ some (record s { origin_buffer = b; found_bnd_info = false })
    | some a ↦ do
      let is_ip = a.family == ipv4_addr || a.family == ipv6_addr
      b₁ ← write_bytes (if is_ip then a.family ∷ a.address else []) b
      let port = if is_ip then a.port else 0
      b₂ ← write_bytes (port / 256 % 256 ∷ port % 256 ∷ []) b₁
      some (record s { origin_buffer = b₂; found_bnd_info = true })
  ]

-- `written` is what `send` returned; as a `size_t` it is never below 0, so that the test for an
-- error is never true.
unfoldable pub reply_write : Session → Ssize → Option (SocksV5State × Session)
reply_write s written = if not s.found_bnd_info then some (SocksV5State.error, s) else (do
  _ ← buffer_read_ptr s.origin_buffer
  b ← buffer_read_adv s.origin_buffer written
  let s' = record s { origin_buffer = b }
  if buffer_can_read b
      then some (SocksV5State.reply, s')
      else if s.rep == succeded
      then some (SocksV5State.copy, s')
      else some (SocksV5State.request, record s' { client_interest = op_read }))

write_bytes_lem :
    (ys : List ℕ) (b : Buffer) {xs : List ℕ} {l : ℕ}
    → Holds b xs l
    → b.write + length ys ≤ l
    → (b' : Buffer) × (write_bytes ys b ≡ some b')
      × Holds b' (xs ++ ys) l
      × (b'.write ≡ b.write + length ys)
unfolding write_bytes
write_bytes_lem [] b {xs} h room = (b, refl, rw (append-nil xs) h, omega arith)
write_bytes_lem (y ∷ ys) b {xs} h room =
    let (e, k) = write_step h y (omega (arith, room, h.same_limit)) in
    let (b', e', k', w) = write_bytes_lem ys (received b (y ∷ [])) k (omega (arith, room)) in
    (b', rw e e', rw (append_assoc xs (y ∷ []) ys) at k', omega (arith, w))

-- For a socket of IPv4 or IPv6, with room for it, the reply that `reply_arrival` puts behind what is
-- in the buffer is the version, the code, the reserved byte, the type and the bytes of the address,
-- and the port, big-endian.
pub reply_arrival_lem :
    (s : Session) (a : AddrInfo) {xs : List ℕ} {l : ℕ}
    → Holds s.origin_buffer xs l
    → (a.family == ipv4_addr || a.family == ipv6_addr) ≡ true
    → a.port < 65536
    → s.origin_buffer.write + length a.address + 6 ≤ l
    → (s' : Session) × (reply_arrival s (some a) ≡ some s')
      × Holds s'.origin_buffer
          (xs ++ (5 ∷ s.rep ∷ 0 ∷ a.family ∷ a.address ++ a.port / 256 ∷ a.port % 256 ∷ []))
          l
      × (s'.found_bnd_info ≡ true)
unfolding reply_arrival
reply_arrival_lem s a {xs} {l} h ip small room =
    let (b, e, k, w) =
      write_bytes_lem (5 ∷ s.rep ∷ 0 ∷ []) s.origin_buffer h (omega (arith, room)) in
    let (b₁, e₁, k₁, w₁) = write_bytes_lem (a.family ∷ a.address) b k (omega (arith, room, w)) in
    let hi : a.port / 256 % 256 ≡ a.port / 256 = omega (arith, small) in
    let (b₂, e₂, k₂, w₂) =
      write_bytes_lem (a.port / 256 ∷ a.port % 256 ∷ []) b₁ k₁ (omega (arith, room, w, w₁)) in
    let head = 5 ∷ s.rep ∷ 0 ∷ [] in
    let middle = a.family ∷ a.address in
    let port = a.port / 256 ∷ a.port % 256 ∷ [] in
    let joined =
      ap (λ t. t ++ port) (append_assoc xs head middle) ∙ append_assoc xs (head ++ middle) port in
    (
      record s { origin_buffer = b₂; found_bnd_info = true },
      rw (e, ip, e₁, hi, e₂) refl,
      rw joined at k₂,
      refl,
    )

-- On a valid buffer, when `send` has taken `n` of the bytes of a reply that is complete, the rest of
-- them is left in the buffer. `reply_write` stays in REPLY while there is a rest, and goes on to COPY
-- when none is left if the code is SUCCEDED, and to REQUEST otherwise, waiting to read; the interest
-- is otherwise what it was.
pub reply_write_lem :
    (s : Session) (bytes : List ℕ) (n : ℕ) {l : ℕ}
    → Holds s.origin_buffer bytes l
    → s.found_bnd_info ≡ true
    → n ≤ length bytes
    → let over = length bytes - n == 0 in
      let failed = over && not (s.rep == succeded) in
      (s' : Session) × (reply_write s (pos n)
        ≡ some (
          (if not over
              then SocksV5State.reply
              else if s.rep == succeded
              then SocksV5State.copy
              else SocksV5State.request),
          s',
        ))
      × Holds s'.origin_buffer (drop n bytes) l
      × (s'.client_interest ≡ (if failed then op_read else s.client_interest))
unfolding reply_write
reply_write_lem s bytes n h found le =
    let (b, e, k) = read_adv h n le in
    let r = can_read_iff k in
    let d = length-drop n bytes in
    elim (Bool-cases (length bytes - n == 0)) [
      | inr z ↦ (
        record s { origin_buffer = b },
        ground (arith, found, read_ptr h, e, r, d, z),
        k,
        rw z refl,
      )
      | inl z ↦ elim (Bool-cases (s.rep == succeded)) [
        | inl t ↦ (
          record s { origin_buffer = b },
          ground (arith, found, read_ptr h, e, r, d, z, t),
          k,
          rw (z, t) refl,
        )
        | inr f ↦ (
          record s { origin_buffer = b; client_interest = op_read },
          ground (arith, found, read_ptr h, e, r, d, z, f),
          k,
          rw (z, f) refl,
        )
      ]
    ]
