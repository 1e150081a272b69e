-- ===== src/Socks5/Auth/Progress.antt =====
-- Which states the handlers of src/server/states/auth.c go to.
use socks5proxy.Prelude.{
  ◌≡◌, true, false, some, ◌==◌, arith, >>=-eq-some, Bool-cases, inl, inr, Option-cases,
}
use socks5proxy.Buffer.{Ssize, buffer_write_ptr, buffer_write_adv, buffer_read_ptr}
use socks5proxy.Socket.{Recv, failed, received, recv_into}
use socks5proxy.Users.{Users}
use socks5proxy.Socks5.{SocksV5State, Socks5}
use socks5proxy.Socks5.Flow.{Flow, returns, falls_through, next_block}
use socks5proxy.Socks5.Late.{late, Early, next-Early}
use socks5proxy.Socks5.Auth.{
  AuthLocals, Block, auth_read, auth_write, auth_blocks, block_ver, block_ulen, block_uname,
  block_plen, block_passwd,
}

abbrev IsEarly : Block → Type 0
IsEarly block = (l l' : AuthLocals) (f : Flow SocksV5State) → block l ≡ some (f, l') → Early f

block_ver-IsEarly : IsEarly block_ver
unfolding block_ver late
block_ver-IsEarly l l' (returns s) e = ground arith
block_ver-IsEarly l l' falls_through e = tt

block_ulen-IsEarly : IsEarly block_ulen
unfolding block_ulen late
block_ulen-IsEarly l l' (returns s) e = ground arith
block_ulen-IsEarly l l' falls_through e = tt

block_uname-IsEarly : IsEarly block_uname
unfolding block_uname late
block_uname-IsEarly l l' (returns s) e = ground arith
block_uname-IsEarly l l' falls_through e = tt

block_plen-IsEarly : IsEarly block_plen
unfolding block_plen late
block_plen-IsEarly l l' (returns s) e = ground arith
block_plen-IsEarly l l' falls_through e = tt

block_passwd-IsEarly : IsEarly block_passwd
unfolding block_passwd late
block_passwd-IsEarly l l' (returns s) e = ground arith
block_passwd-IsEarly l l' falls_through e = tt

auth_blocks-IsEarly : IsEarly auth_blocks
unfolding auth_blocks
auth_blocks-IsEarly l l' f e =
    let ((f₁, l₁), e₁, k₁) = >>=-eq-some (block_ver l) _ e in
    let ((f₂, l₂), e₂, k₂) = >>=-eq-some (next_block block_ulen (f₁, l₁)) _ k₁ in
    let ((f₃, l₃), e₃, k₃) = >>=-eq-some (next_block block_uname (f₂, l₂)) _ k₂ in
    let ((f₄, l₄), e₄, k₄) = >>=-eq-some (next_block block_plen (f₃, l₃)) _ k₃ in
    let h₁ = block_ver-IsEarly l l₁ f₁ e₁ in
    let h₂ = next-Early block_ulen block_ulen-IsEarly f₁ f₂ l₁ l₂ h₁ e₂ in
    let h₃ = next-Early block_uname block_uname-IsEarly f₂ f₃ l₂ l₃ h₂ e₃ in
    let h₄ = next-Early block_plen block_plen-IsEarly f₃ f₄ l₃ l₄ h₃ e₄ in
    next-Early block_passwd block_passwd-IsEarly f₄ f l₄ l' h₄ k₄

-- `auth_read` returns no state behind the authentication.
pub auth_read-Early :
    (c : Socks5) (u : Users) (r : Recv) {st : SocksV5State} {c' : Socks5} {u' : Users}
    → auth_read c u r ≡ some (st, c', u')
    → late st ≡ false
unfolding auth_read recv_into late
auth_read-Early c u failed e = ground arith
auth_read-Early c u (received bytes) {st} {c'} {u'} e =
    let (p, e₁, k₁) = >>=-eq-some (buffer_write_ptr c.client_buffer) _ e in
    let (b, e₂, k₂) =
      >>=-eq-some
        (buffer_write_adv (recv_into c.client_buffer (received bytes)).0
          (recv_into c.client_buffer (received bytes)).1)
        _ k₁ in
    let ((q, n), e₃, k₃) = >>=-eq-some (buffer_read_ptr b) _ k₂ in
    let l : AuthLocals = record { conn = record c { client_buffer = b }; users = u; to_read = n } in
    elim (Bool-cases (n == 0)) [
      | inl z ↦ ground arith
      | inr z ↦ elim (Option-cases (auth_blocks l)) [
        | inl m ↦ absurd (ground arith)
        | inr ((returns s, l'), m) ↦
            let h : late s ≡ false = auth_blocks-IsEarly l l' (returns s) m in ground arith
        | inr ((falls_through, l'), m) ↦ ground arith
      ]
    ]

-- `auth_write` goes to a state behind the authentication only once this has succeeded.
pub auth_write-Authenticated :
    (c : Socks5) (n : Ssize) {st : SocksV5State} {c' : Socks5}
    → auth_write c n ≡ some (st, c')
    → late st ≡ true
    → c'.auth_st.authenticated ≡ true
unfolding auth_write late
auth_write-Authenticated c n e l = ground arith
