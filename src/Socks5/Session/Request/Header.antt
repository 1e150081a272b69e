-- ===== src/Socks5/Session/Request/Header.antt =====
-- The first four bytes of a request, and the code that a bad one is answered with.
use socks5proxy.Prelude.{
  ℕ, ◌+◌, ◌≤◌, ◌≡◌, refl, not, Option, none, some, List, ◌∷◌, ◌==◌, if◌then◌else◌, arith, length,
  Bool-cases, inl, inr,
}
use socks5proxy.Buffer.{Buffer, buffer_write_adv}
use socks5proxy.Buffer.View.{Holds, received, buffer_write_adv-received}
use socks5proxy.Buffer.Rules.{read_step, read_ptr, write_ptr}
use socks5proxy.Selector.{op_write}
use socks5proxy.Socket.{Recv, recv_into}
use socks5proxy.Socks5.{SocksV5State, socks5_version}
use socks5proxy.Socks5.Flow.{Flow, returns, falls_through}
use socks5proxy.Socks5.Session.{
  ver_cmd_atyp, dst_len, RequestSt, Session, command_not_supported, address_type_not_supported,
  invalid_socks5_version, invalid_rsv,
}
use socks5proxy.Socks5.Session.Request.{
  Network, connect_cmd, rsv, take_in, is_valid_atyp, request_header, request_read,
}

pub take_in-received :
    (b : Buffer) {xs : List ℕ} {l : ℕ} (bytes : List ℕ)
    → Holds b xs l
    → b.write + length bytes ≤ l
    → take_in b (Recv.received bytes) ≡ some (received b bytes)
unfolding take_in recv_into
take_in-received b bytes h fits =
    let p = write_ptr h in
    let q = buffer_write_adv-received b bytes (omega (arith, fits, h.same_limit)) in
    ground (arith, p, q)

pub take_in-failed :
    (b : Buffer) {xs : List ℕ} {l : ℕ} → Holds b xs l → take_in b Recv.failed ≡ some b
unfolding take_in recv_into buffer_write_adv
take_in-failed b h = ground (arith, write_ptr h)

-- The code for the first field that is not what it should be.
unfoldable pub header_code : ℕ → ℕ → ℕ → ℕ → Option ℕ
header_code ver cmd reserved atyp =
    if not (ver == socks5_version)
    then some invalid_socks5_version
    else if not (cmd == connect_cmd)
    then some command_not_supported
    else if not (reserved == rsv)
    then some invalid_rsv
    else if not (is_valid_atyp atyp)
    then some address_type_not_supported
    else none

-- What the block leaves: the code in the reply, or the address type and the bytes behind.
abbrev pub Checked : Option ℕ → ℕ → List ℕ → ℕ → Flow SocksV5State → Session → Type 0
Checked (some rep) atyp xs l flow s =
    (flow ≡ returns SocksV5State.reply) × (s.rep ≡ rep) × (s.client_interest ≡ op_write)
Checked none atyp xs l flow s =
    (flow ≡ falls_through)
    × (s.request_st.state ≡ dst_len)
    × (s.request_st.atyp ≡ atyp)
    × Holds s.client_buffer xs l

pub request_header_lem :
    (s : Session) (r : Recv) (b : Buffer) (ver cmd reserved atyp : ℕ) {xs : List ℕ} {l : ℕ}
    → s.request_st.state ≡ ver_cmd_atyp
    → take_in s.client_buffer r ≡ some b
    → Holds b (ver ∷ cmd ∷ reserved ∷ atyp ∷ xs) l
    → (flow : Flow SocksV5State) × (s' : Session) × (request_header s r ≡ some (flow, s'))
      × Checked (header_code ver cmd reserved atyp) atyp xs l flow s'
unfolding request_header header_code
request_header_lem s r b ver cmd reserved atyp {xs} {l} st e h =
    let p = read_ptr h in
    let (b₁, e₁, h₁) = read_step h in
    let (b₂, e₂, h₂) = read_step h₁ in
    let (b₃, e₃, h₃) = read_step h₂ in
    let (b₄, e₄, h₄) = read_step h₃ in
    let q = s.request_st in
    let q₂ = record q { cmd = cmd } in
    let q₄ = record q₂ { atyp = atyp } in
    let at = λ (c : Buffer) (t : RequestSt). record s { client_buffer = c; request_st = t } in
    let back = λ (t : Session) (rep : ℕ). record t { rep = rep; client_interest = op_write } in
    elim (Bool-cases (ver == socks5_version)) [
      | inr f₁ ↦ rw f₁ (
        returns SocksV5State.reply,
        back (at b₁ q) invalid_socks5_version,
        ground (arith, st, e, p, e₁, f₁),
        (refl, refl, refl),
      )
      | inl t₁ ↦ elim (Bool-cases (cmd == connect_cmd)) [
        | inr f₂ ↦
            rw (t₁, f₂)
              (
                returns SocksV5State.reply,
                back (at b₂ q₂) command_not_supported,
                ground (arith, st, e, p, e₁, e₂, t₁, f₂),
                (refl, refl, refl),
              )
        | inl t₂ ↦ elim (Bool-cases (reserved == rsv)) [
          | inr f₃ ↦
              rw (t₁, t₂, f₃)
                (
                  returns SocksV5State.reply,
                  back (at b₃ q₂) invalid_rsv,
                  ground (arith, st, e, p, e₁, e₂, e₃, t₁, t₂, f₃),
                  (refl, refl, refl),
                )
          | inl t₃ ↦ elim (Bool-cases (is_valid_atyp atyp)) [
            | inr f₄ ↦
                rw (t₁, t₂, t₃, f₄)
                  (
                    returns SocksV5State.reply,
                    back (at b₄ q₄) address_type_not_supported,
                    ground (arith, st, e, p, e₁, e₂, e₃, e₄, t₁, t₂, t₃, f₄),
                    (refl, refl, refl),
                  )
            | inl t₄ ↦
                rw (t₁, t₂, t₃, t₄)
                  (
                    falls_through,
                    record (at b₄ (record q₄ { state = dst_len })) { atyp = atyp },
                    ground (arith, st, e, p, e₁, e₂, e₃, e₄, t₁, t₂, t₃, t₄),
                    (refl, refl, refl, h₄),
                  )
          ]
        ]
      ]
    ]

-- When the first four unread bytes of a request, with what `recv` has added, are not those of a
-- CONNECT to a known type of address, `request_read` goes to REPLY with the code for the first field
-- that is wrong, whatever follows.
pub request_read-refuses :
    (net : Network) (s : Session) (first second : Recv) (b : Buffer) (ver cmd reserved atyp rep : ℕ)
    {xs : List ℕ} {l : ℕ}
    → s.request_st.state ≡ ver_cmd_atyp
    → take_in s.client_buffer first ≡ some b
    → Holds b (ver ∷ cmd ∷ reserved ∷ atyp ∷ xs) l
    → header_code ver cmd reserved atyp ≡ some rep
    → (s' : Session) × (request_read net s first second ≡ some (SocksV5State.reply, s'))
      × (s'.rep ≡ rep)
      × (s'.client_interest ≡ op_write)
unfolding request_read
request_read-refuses net s first second b ver cmd reserved atyp rep st e h bad =
    let (flow, s', q, c) = request_header_lem s first b ver cmd reserved atyp st e h in
    let (f, r, i) = rw bad at c in (s', ground (arith, q, f), r, i)
