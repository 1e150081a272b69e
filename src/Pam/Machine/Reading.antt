-- ===== src/Pam/Machine/Reading.antt =====
-- What the two reading handlers of a management connection leave of the accounts.
use socks5proxy.Prelude.{
  ltb, poke, ◌≡◌, refl, ap, false, Option, some, arith, >>=-eq-some, length, Bool-cases,
  Option-cases, inl, inr, ◌==◌,
}
use socks5proxy.Buffer.{pos, buffer_write_ptr, buffer_write_adv}
use socks5proxy.Socket.{Recv, recv_into}
use socks5proxy.Users.{Users}
use socks5proxy.Users.Find.{accounts}
use socks5proxy.Users.Laws.{user_authenticate_lem}
use socks5proxy.Socks5.Flow.{Flow, returns, falls_through, next_block, finally, finally_carries}
use socks5proxy.Pam.{
  PamRequestState, PamState, pam_auth, pam_request, Pam, array_255, terminate, read_into,
}
use socks5proxy.Pam.Auth.{
  PamLocals, block_lengths, block_username, block_pass, read_available, pam_auth_read,
}
use socks5proxy.Pam.Methods.Authorisation.{is_authorised}
use socks5proxy.Pam.Dispatch.{Inputs, handle_pam_request_method}
use socks5proxy.Pam.Dispatch.Safety.{handle_pam_request_method-accounts}
use socks5proxy.Pam.Request.{
  RequestBlock, block_version, block_method, block_nbody, block_body, body_buffer, reply,
  with_request, pam_request_read,
}

-- The accounts are what they were.
abbrev SameAccounts : PamLocals → PamLocals → Type 0
SameAccounts l l' = accounts l'.1 ≡ accounts l.1

-- A block that leaves the accounts alone.
abbrev KeepsAccounts : (PamLocals → Option (Flow PamState × PamLocals)) → Type 0
KeepsAccounts block =
    (l l' : PamLocals) (f : Flow PamState) → block l ≡ some (f, l') → SameAccounts l l'

block_lengths-KeepsAccounts : KeepsAccounts block_lengths
unfolding block_lengths
block_lengths-KeepsAccounts (c, u) l' f e = ground arith

block_username-KeepsAccounts : KeepsAccounts block_username
unfolding block_username
block_username-KeepsAccounts (c, u) l' f e = ground arith

block_pass-KeepsAccounts : KeepsAccounts block_pass
unfolding block_pass
block_pass-KeepsAccounts (c, u) l' f e =
    elim (Option-cases (read_available (c.auth.n_pass) 0 (c.client_buffer) (c.auth.pass))) [
      | inl n ↦ ground arith
      | inr ((b, p), r) ↦ elim (Option-cases (terminate p (c.auth.n_pass))) [
        | inl n ↦ ground arith
        | inr (p', t) ↦
            let (k, a) = user_authenticate_lem u (array_255 c.auth.username) (array_255 p') in
            ground arith
      ]
    ]

next_block-KeepsAccounts :
    (block : PamLocals → Option (Flow PamState × PamLocals)) (f : Flow PamState) (l l' : PamLocals)
    (g : Flow PamState)
    → KeepsAccounts block
    → next_block block (f, l) ≡ some (g, l')
    → SameAccounts l l'
next_block-KeepsAccounts block (returns s) l l' g keep e = ground arith
next_block-KeepsAccounts block falls_through l l' g keep e = keep l l' g e

-- Whatever `recv` returned, `pam_auth_read` leaves the accounts as they were.
pub pam_auth_read-accounts :
    (c : Pam) (u : Users) (r : Recv) {st : PamState} {c' : Pam} {u' : Users}
    → pam_auth_read c u r ≡ some (st, c', u')
    → accounts u' ≡ accounts u
unfolding pam_auth_read recv_into
pam_auth_read-accounts c u Recv.failed e = ground arith
pam_auth_read-accounts c u (Recv.received bytes) {st} {c'} {u'} e =
    let ((p, room), e₁, k₁) = >>=-eq-some (buffer_write_ptr c.client_buffer) _ e in
    let b₀ = (recv_into c.client_buffer (Recv.received bytes)).0 in
    elim (Bool-cases (length bytes == 0)) [
      | inl z ↦ ground arith
      | inr z ↦
          let k₂ = rw z at k₁ in
          let (b, e₂, k₃) = >>=-eq-some (buffer_write_adv b₀ (pos (length bytes))) _ k₂ in
          let l : PamLocals = (record c { client_buffer = b }, u) in
          let ((f₁, l₁), e₃, k₄) = >>=-eq-some (block_lengths l) _ k₃ in
          let ((f₂, l₂), e₄, k₅) = >>=-eq-some (next_block block_username (f₁, l₁)) _ k₄ in
          let ((f₃, l₃), e₅, k₆) = >>=-eq-some (next_block block_pass (f₂, l₂)) _ k₅ in
          let h₁ = block_lengths-KeepsAccounts l l₁ f₁ e₃ in
          let h₂ =
            next_block-KeepsAccounts block_username f₁ l₁ l₂ f₂ block_username-KeepsAccounts e₄ in
          let h₃ = next_block-KeepsAccounts block_pass f₂ l₂ l₃ f₃ block_pass-KeepsAccounts e₅ in
          let g : finally pam_auth (f₃, l₃) ≡ (st, (c', u')) = ground arith in
          let q = finally_carries pam_auth f₃ l₃ g in
          let r : accounts u' ≡ accounts l₃.1 = ap (λ x. accounts x.1) q in cc (r, h₁, h₂, h₃)
    ]

-- What a block of the request leaves: the authentication.
abbrev KeepsAuth : RequestBlock → Type 0
KeepsAuth block = (c c' : Pam) (f : Flow PamState) → block c ≡ some (f, c') → c'.auth ≡ c.auth

block_version-KeepsAuth : KeepsAuth block_version
unfolding block_version
block_version-KeepsAuth c c' f e = ground arith

block_method-KeepsAuth : KeepsAuth block_method
unfolding block_method
block_method-KeepsAuth c c' f e = ground arith

block_nbody-KeepsAuth : KeepsAuth block_nbody
unfolding block_nbody
block_nbody-KeepsAuth c c' f e = ground arith

next_block-KeepsAuth :
    (block : RequestBlock) (f : Flow PamState) (c c' : Pam) (g : Flow PamState)
    → KeepsAuth block
    → next_block block (f, c) ≡ some (g, c')
    → c'.auth ≡ c.auth
next_block-KeepsAuth block (returns s) c c' g keep e = ground arith
next_block-KeepsAuth block falls_through c c' g keep e = keep c c' g e

reply-users : (c c' : Pam) (u u' : Users) → reply (c, u) ≡ some (c', u') → u' ≡ u
unfolding reply
reply-users c c' u u' e = ground arith

-- Behind the test for the state READ_BODY.
block_body_at :
    (env : Inputs) (c : Pam) (u : Users) (at : PamRequestState) (f : Flow PamState) {c' : Pam}
    {u' : Users}
    → c.request.state ≡ at
    → is_authorised c u ≡ false
    → block_body env (c, u) ≡ some (f, (c', u'))
    → accounts u' ≡ accounts u
unfolding block_body
block_body_at env c u PamRequestState.read_body f {c'} {u'} p n e =
    let k₁ = rw p at e in
    let ((x, room), e₁, k₂) = >>=-eq-some (buffer_write_ptr c.client_buffer) _ k₁ in
    let q = c.request in
    elim (Bool-cases (ltb room q.read_nbody)) [
      | inl t ↦ ground arith
      | inr t ↦
          let k₃ = rw t at k₂ in
          let ((b, body), e₂, k₄) =
            >>=-eq-some (read_into q.read_nbody 0 c.client_buffer q.read_body) _ k₃ in
          let body' = poke body q.read_nbody 0 in
          let (buffer, e₃, k₅) = >>=-eq-some (body_buffer body' q.read_nbody) _ k₄ in
          let c₁ = with_request c b (record q { read_body = body' }) in
          let ((c₂, u₂), e₄, k₆) = >>=-eq-some (handle_pam_request_method env c₁ u buffer) _ k₅ in
          let ((c₃, u₃), e₅, k₇) = >>=-eq-some (reply (c₂, u₂)) _ k₆ in
          let h = handle_pam_request_method-accounts env c₁ u buffer n e₄ in
          let same = reply-users c₂ c₃ u₂ u₃ e₅ in
          let r : accounts u' ≡ accounts u₂ = ground (arith, same) in rw r h
    ]
block_body_at env c u PamRequestState.ver_n_reserved f p n e = ground arith
block_body_at env c u PamRequestState.method f p n e = ground arith
block_body_at env c u PamRequestState.nbody f p n e = ground arith
block_body_at env c u PamRequestState.write f p n e = ground arith

next_block-body :
    (env : Inputs) (f : Flow PamState) (c : Pam) (u : Users) {g : Flow PamState} {c' : Pam}
    {u' : Users}
    → is_authorised c u ≡ false
    → next_block (block_body env) (f, (c, u)) ≡ some (g, (c', u'))
    → accounts u' ≡ accounts u
next_block-body env (returns s) c u n e = ground arith
next_block-body env falls_through c u {g} n e = block_body_at env c u c.request.state g refl n e

-- The four blocks of a request, one after the other.
request_blocks :
    (env : Inputs) (c : Pam) (u : Users) (c₁ c₂ c₃ c₄ c' : Pam) (u₄ u' : Users) (st : PamState)
    (f₁ f₂ f₃ f₄ : Flow PamState)
    → block_version c ≡ some (f₁, c₁)
    → next_block block_method (f₁, c₁) ≡ some (f₂, c₂)
    → next_block block_nbody (f₂, c₂) ≡ some (f₃, c₃)
    → next_block (block_body env) (f₃, (c₃, u)) ≡ some (f₄, (c₄, u₄))
    → is_authorised c u ≡ false
    → finally {C = PamLocals} pam_request (f₄, (c₄, u₄)) ≡ (st, (c', u'))
    → accounts u' ≡ accounts u
request_blocks env c u c₁ c₂ c₃ c₄ c' u₄ u' st f₁ f₂ f₃ f₄ e₁ e₂ e₃ e₄ n e =
    let h₁ = block_version-KeepsAuth c c₁ f₁ e₁ in
    let h₂ = next_block-KeepsAuth block_method f₁ c₁ c₂ f₂ block_method-KeepsAuth e₂ in
    let h₃ = next_block-KeepsAuth block_nbody f₂ c₂ c₃ f₃ block_nbody-KeepsAuth e₃ in
    let same : c₃.auth ≡ c.auth = cc (h₁, h₂, h₃) in
    let h₄ = next_block-body env f₃ c₃ u (rw same n) e₄ in
    let q = finally_carries {C = PamLocals} pam_request f₄ (c₄, u₄) e in
    let r : accounts u' ≡ accounts u₄ = ap (λ x. accounts x.1) q in rw r h₄

-- Whatever `recv` returned, when `pam_request_read` has a result for a connection whose name is not
-- an administrator's, the accounts are what they were.
pub pam_request_read-accounts :
    (env : Inputs) (c : Pam) (u : Users) (r : Recv) {st : PamState} {c' : Pam} {u' : Users}
    → is_authorised c u ≡ false
    → pam_request_read env c u r ≡ some (st, c', u')
    → accounts u' ≡ accounts u
unfolding pam_request_read recv_into
pam_request_read-accounts env c u Recv.failed n e = ground arith
pam_request_read-accounts env c u (Recv.received bytes) {st} {c'} {u'} n e =
    let ((p, room), e₁, k₁) = >>=-eq-some (buffer_write_ptr c.client_buffer) _ e in
    let b₀ = (recv_into c.client_buffer (Recv.received bytes)).0 in
    elim (Bool-cases (length bytes == 0)) [
      | inl z ↦ ground arith
      | inr z ↦ elim (Option-cases (buffer_write_adv b₀ (pos (length bytes)))) [
        | inl m ↦ absurd (ground arith)
        | inr (b, e₂) ↦
            let c₀ = record c { client_buffer = b } in
            elim (Option-cases (block_version c₀)) [
              | inl m ↦ absurd (ground arith)
              | inr ((f₁, c₁), e₃) ↦ elim (Option-cases (next_block block_method (f₁, c₁))) [
                | inl m ↦ absurd (ground arith)
                | inr ((f₂, c₂), e₄) ↦ elim (Option-cases (next_block block_nbody (f₂, c₂))) [
                  | inl m ↦ absurd (ground arith)
                  | inr ((f₃, c₃), e₅) ↦
                      elim (Option-cases (next_block (block_body env) (f₃, (c₃, u)))) [
                        | inl m ↦ absurd (ground arith)
                        | inr ((f₄, (c₄, u₄)), e₆) ↦
                            request_blocks env c₀ u c₁ c₂ c₃ c₄ c' u₄ u' st f₁ f₂ f₃ f₄ e₃ e₄ e₅ e₆
                              n (ground arith)
                      ]
                ]
              ]
            ]
      ]
    ]
