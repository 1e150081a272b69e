-- ===== src/Socks5/Auth/Safety.antt =====
-- Nobody is authenticated but by a name and a password that match an account.
use socks5proxy.Prelude.{
  ℕ, ◌≡◌, sym, ap, >>=-eq-some, ◌∙◌, true, false, some, arith, Option-cases, inl, inr, ◌⊎◌, List,
  length, ◌==◌, Bool-cases, Memory, poke,
}
use socks5proxy.Buffer.{Ssize, pos, buffer_write_ptr, buffer_write_adv, buffer_read_ptr}
use socks5proxy.Socket.{Recv, failed, received, recv_into}
use socks5proxy.Users.{User, Users, str_equal}
use socks5proxy.Users.Find.{accounts}
use socks5proxy.Users.Accounts.{lookup_user}
use socks5proxy.Users.Laws.{authenticate_spec, user_authenticate_lem}
use socks5proxy.Socks5.{SocksV5State, Socks5, AuthSt}
use socks5proxy.Socks5.Flow.{Flow, returns, falls_through, next_block}
use socks5proxy.Socks5.Auth.{
  AuthLocals, Block, array_256, block_ver, block_ulen, block_uname, block_plen, accepted,
  block_passwd, read_bytes, auth_blocks, auth_read, auth_write,
}

-- The accounts hold the name and the password that the connection sent.
abbrev pub Matches : Users → AuthSt → Type 0
Matches u a =
    (x : User) × (lookup_user (array_256 a.username) (accounts u) ≡ some x)
    × (str_equal x.password (array_256 a.password) ≡ true)

-- A step that authenticates nobody and asks nothing of the accounts.
record Keeps (l l' : AuthLocals) : Type 0 where
  flag : l'.conn.auth_st.authenticated ≡ l.conn.auth_st.authenticated
  accounts_kept : accounts l'.users ≡ accounts l.users

module _ {l l' : AuthLocals} {f : Flow SocksV5State} where
  block_ver-Keeps : block_ver l ≡ some (f, l') → Keeps l l'
  unfolding block_ver
  block_ver-Keeps e = ground arith

  block_ulen-Keeps : block_ulen l ≡ some (f, l') → Keeps l l'
  unfolding block_ulen
  block_ulen-Keeps e = ground arith

  block_uname-Keeps : block_uname l ≡ some (f, l') → Keeps l l'
  unfolding block_uname
  block_uname-Keeps e = ground arith

  block_plen-Keeps : block_plen l ≡ some (f, l') → Keeps l l'
  unfolding block_plen
  block_plen-Keeps e = ground arith

-- The last block sets the flag only if the accounts hold the credentials.
block_passwd-Matches :
    (l : AuthLocals) {l' : AuthLocals} {f : Flow SocksV5State}
    → block_passwd l ≡ some (f, l')
    → (l'.conn.auth_st.authenticated ≡ l.conn.auth_st.authenticated)
      ⊎ Matches l.users l'.conn.auth_st
unfolding block_passwd accepted authenticate_spec
block_passwd-Matches l {l'} {f} e =
    let name : List ℕ = array_256 (l.conn.auth_st.username) in
    elim (Option-cases
      (read_bytes (l.conn.auth_st.plen) 0 (l.conn.client_buffer) (l.conn.auth_st.password))) [
        | inl n ↦ inl (ground arith)
        | inr (bp, r) ↦
            let password : Memory = poke bp.1 (l.conn.auth_st.plen) 0 in
            let (k, a) = user_authenticate_lem (l.users) name (array_256 password) in
            elim (Option-cases (lookup_user name (accounts (l.users)))) [
              | inl m ↦ inl (ground arith)
              | inr (x, m) ↦ elim (Bool-cases (str_equal (x.password) (array_256 password))) [
                | inl t ↦
                    let un : l'.conn.auth_st.username ≡ l.conn.auth_st.username = ground arith in
                    let pw : (l'.conn.auth_st.authenticated ≡ l.conn.auth_st.authenticated)
                        ⊎ (l'.conn.auth_st.password ≡ password) =
                      ground arith in
                    elim pw [ inl kept ↦ inl kept | inr p ↦ inr (x, rw un m, rw p t) ]
                | inr g ↦ inl (ground arith)
              ]
            ]
      ]

Keeps-trans : {a b c : AuthLocals} → Keeps a b → Keeps b c → Keeps a c
Keeps-trans h k = record {
  flag = k.flag ∙ h.flag;
  accounts_kept = k.accounts_kept ∙ h.accounts_kept;
}

next-Keeps :
    (block : Block) (a b : AuthLocals) {c : AuthLocals} (f : Flow SocksV5State)
    {g : Flow SocksV5State}
    → ((l l' : AuthLocals) (g : Flow SocksV5State) → block l ≡ some (g, l') → Keeps l l')
    → Keeps a b
    → next_block block (f, b) ≡ some (g, c)
    → Keeps a c
next-Keeps block a b (returns s) each h e = let q : b ≡ _ = ground arith in rw q at h
next-Keeps block a b {c} falls_through {g} each h e = Keeps-trans h (each b c g e)

last-Matches :
    (a b : AuthLocals) (f : Flow SocksV5State) {c : AuthLocals} {g : Flow SocksV5State}
    → Keeps a b
    → next_block block_passwd (f, b) ≡ some (g, c)
    → (c.conn.auth_st.authenticated ≡ a.conn.auth_st.authenticated) ⊎ Matches a.users c.conn.auth_st
last-Matches a b (returns s) {c} h e = let q : b ≡ c = ground arith in inl (rw (sym q) (h.flag))
last-Matches a b falls_through {c} h e = elim (block_passwd-Matches b e) [
  | inl k ↦ inl (k ∙ h.flag)
  | inr (x, m, t) ↦
      inr (x, ap (lookup_user (array_256 (c.conn.auth_st.username))) (sym (h.accounts_kept)) ∙ m, t)
]

-- All five blocks in a row set the flag only if the accounts hold the credentials.
auth_blocks-Matches :
    (l : AuthLocals) {l' : AuthLocals} {f : Flow SocksV5State}
    → auth_blocks l ≡ some (f, l')
    → (l'.conn.auth_st.authenticated ≡ l.conn.auth_st.authenticated)
      ⊎ Matches l.users l'.conn.auth_st
unfolding auth_blocks
auth_blocks-Matches l {l'} {f} e =
    let ((f₁, l₁), e₁, k₁) = >>=-eq-some (block_ver l) _ e in
    let ((f₂, l₂), e₂, k₂) = >>=-eq-some (next_block block_ulen (f₁, l₁)) _ k₁ in
    let ((f₃, l₃), e₃, k₃) = >>=-eq-some (next_block block_uname (f₂, l₂)) _ k₂ in
    let ((f₄, l₄), e₄, k₄) = >>=-eq-some (next_block block_plen (f₃, l₃)) _ k₃ in
    let h₂ = next-Keeps block_ulen l l₁ f₁ (λ a b g. block_ulen-Keeps) (block_ver-Keeps e₁) e₂ in
    let h₃ = next-Keeps block_uname l l₂ f₂ (λ a b g. block_uname-Keeps) h₂ e₃ in
    let h₄ = next-Keeps block_plen l l₃ f₃ (λ a b g. block_plen-Keeps) h₃ e₄ in
    last-Matches l l₄ f₄ h₄ k₄

auth_read_cases :
    (c : Socks5) (u : Users) (r : Recv) {st : SocksV5State} {c' : Socks5} {u' : Users}
    → auth_read c u r ≡ some (st, c', u')
    → (c'.auth_st.authenticated ≡ c.auth_st.authenticated) ⊎ Matches u c'.auth_st
unfolding auth_read recv_into
auth_read_cases c u failed {st} {c'} e = inl (ground arith)
auth_read_cases c u (received bytes) {st} {c'} {u'} e =
    let ((p, room), e₁, k₁) = >>=-eq-some (buffer_write_ptr (c.client_buffer)) _ e in
    let (b, e₂, k₂) =
      >>=-eq-some
        (buffer_write_adv (recv_into (c.client_buffer) (received bytes)).0 (pos (length bytes))) _
        k₁ in
    let ((q, n), e₃, k₃) = >>=-eq-some (buffer_read_ptr b) _ k₂ in
    let l : AuthLocals = record { conn = record c { client_buffer = b }; users = u; to_read = n } in
    elim (Bool-cases (n == 0)) [
      | inl z ↦ inl (ground arith)
      | inr z ↦ elim (Option-cases (auth_blocks l)) [
        | inl m ↦ inl (ground arith)
        | inr ((returns s, l'), m) ↦
            let q : c' ≡ l'.conn = ground arith in rw q (auth_blocks-Matches l m)
        | inr ((falls_through, l'), m) ↦
            let q : c' ≡ l'.conn = ground arith in rw q (auth_blocks-Matches l m)
      ]
    ]

-- Whatever `recv` returns, if `auth_read` leaves a connection authenticated that was not
-- authenticated before, the user name that it read belongs to an account, and the password that it
-- read is the one of that account.
pub auth_read-Matches :
    (c : Socks5) (u : Users) (r : Recv) {st : SocksV5State} {c' : Socks5} {u' : Users}
    → auth_read c u r ≡ some (st, c', u')
    → c.auth_st.authenticated ≡ false
    → c'.auth_st.authenticated ≡ true
    → Matches u c'.auth_st
auth_read-Matches c u r e before after = elim (auth_read_cases c u r e) [
  | inl kept ↦ absurd (ground arith)
  | inr m ↦ m
]

-- If `auth_write` returns REQUEST, the connection is authenticated.
pub auth_write-authenticated :
    (c : Socks5) (written : Ssize) {c' : Socks5}
    → auth_write c written ≡ some (SocksV5State.request, c')
    → c'.auth_st.authenticated ≡ true
unfolding auth_write
auth_write-authenticated c written e = ground arith
