-- ===== src/Pam/Auth/Safety.antt =====
-- When a management connection is told that it is authenticated, and what it may do then.
use socks5proxy.Prelude.{
  ℕ, ◌-◌, ◌≤◌, ◌≡◌, refl, sym, ap, ◌∙◌, true, some, List, length, length-drop, arith, >>=-eq-some,
  if◌then◌else◌, ◌==◌, Bool-cases, Option-cases, inl, inr, ◌⊎◌,
}
use socks5proxy.Buffer.{pos, buffer_write_ptr, buffer_write_adv, buffer_reset}
use socks5proxy.Buffer.View.{Holds}
use socks5proxy.Buffer.Rules.{read_ptr, read_adv, can_read_iff}
use socks5proxy.Selector.{op_read}
use socks5proxy.Socket.{Recv, recv_into}
use socks5proxy.Users.{User, Users, str_equal}
use socks5proxy.Users.Find.{accounts}
use socks5proxy.Users.Accounts.{lookup_user}
use socks5proxy.Users.Laws.{authenticate_spec, user_authenticate_lem}
use socks5proxy.Socks5.Flow.{Flow, returns, falls_through, next_block, finally}
use socks5proxy.Pam.{
  PamState, pam_auth, pam_request, PamAuthSt, Pam, pam_auth_failure, array_255, terminate,
}
use socks5proxy.Pam.Auth.{
  PamLocals, block_lengths, block_username, block_pass, read_available, answer, pam_auth_read,
  pam_auth_write,
}

-- The status is as before, or a failure, or the accounts hold the name and the password.
abbrev pub Earned : Users → PamAuthSt → PamAuthSt → Type 0
Earned u before after =
    (after.status ≡ before.status)
    ⊎ ((after.status ≡ pam_auth_failure)
        ⊎ ((x : User) × (lookup_user (array_255 after.username) (accounts u) ≡ some x)
            × (str_equal x.password (array_255 after.pass) ≡ true)))

either :
    (u : Users) (before after : PamAuthSt)
    → (after.status ≡ before.status) ⊎ (after.status ≡ pam_auth_failure)
    → Earned u before after
either u before after (inl kept) = inl kept
either u before after (inr failed) = inr (inl failed)

last_locals :
    (f : Flow PamState) (l : PamLocals) {st : PamState} {c' : Pam} {u' : Users}
    → finally pam_auth (f, l) ≡ (st, (c', u'))
    → c' ≡ l.0
last_locals (returns s) l e = ground arith
last_locals falls_through l e = ground arith

-- A step that leaves the status and the accounts alone.
record Keeps (l l' : PamLocals) : Type 0 where
  status_kept : l'.0.auth.status ≡ l.0.auth.status
  accounts_kept : accounts l'.1 ≡ accounts l.1

block_lengths-Keeps :
    (l l' : PamLocals) (f : Flow PamState) → block_lengths l ≡ some (f, l') → Keeps l l'
unfolding block_lengths
block_lengths-Keeps (c, u) l' f e = ground arith

block_username-Keeps :
    (l l' : PamLocals) (f : Flow PamState) → block_username l ≡ some (f, l') → Keeps l l'
unfolding block_username
block_username-Keeps (c, u) l' f e = ground arith

block_pass-Earned :
    (l l' : PamLocals) (f : Flow PamState)
    → block_pass l ≡ some (f, l')
    → Earned l.1 l.0.auth l'.0.auth
unfolding block_pass answer authenticate_spec
block_pass-Earned (c, u) l' f e =
    let name : List ℕ = array_255 (c.auth.username) in
    elim (Option-cases (read_available (c.auth.n_pass) 0 (c.client_buffer) (c.auth.pass))) [
      | inl n ↦ inl (ground arith)
      | inr ((b, p), r) ↦ elim (Option-cases (terminate p (c.auth.n_pass))) [
        | inl n ↦ inl (ground arith)
        | inr (p', t) ↦
            let (k, a) = user_authenticate_lem u name (array_255 p') in
            elim (Option-cases (lookup_user name (accounts u))) [
              | inl m ↦ either u (c.auth) (l'.0.auth) (ground arith)
              | inr (x, m) ↦ elim (Bool-cases (str_equal (x.password) (array_255 p'))) [
                | inl ok ↦
                    let un : l'.0.auth.username ≡ c.auth.username = ground arith in
                    let pw : (l'.0.auth.status ≡ c.auth.status) ⊎ (l'.0.auth.pass ≡ p') =
                      ground arith in
                    elim pw [ inl kept ↦ inl kept | inr q ↦ inr (inr (x, rw un m, rw q ok)) ]
                | inr bad ↦ either u (c.auth) (l'.0.auth) (ground arith)
              ]
            ]
      ]
    ]

Keeps-trans : {a b c : PamLocals} → Keeps a b → Keeps b c → Keeps a c
Keeps-trans h k = record {
  status_kept = k.status_kept ∙ h.status_kept;
  accounts_kept = k.accounts_kept ∙ h.accounts_kept;
}

next_username-Keeps :
    (a b : PamLocals) (f : Flow PamState) {c : PamLocals} {g : Flow PamState}
    → Keeps a b
    → next_block block_username (f, b) ≡ some (g, c)
    → Keeps a c
next_username-Keeps a b (returns s) h e = let q : b ≡ _ = ground arith in rw q at h
next_username-Keeps a b falls_through {c} {g} h e = Keeps-trans h (block_username-Keeps b c g e)

next_pass-Earned :
    (a b : PamLocals) (f : Flow PamState) {c : PamLocals} {g : Flow PamState}
    → Keeps a b
    → next_block block_pass (f, b) ≡ some (g, c)
    → Earned a.1 a.0.auth c.0.auth
next_pass-Earned a b (returns s) {c} h e =
    let q : b ≡ c = ground arith in inl (rw (sym q) (h.status_kept))
next_pass-Earned a b falls_through {c} {g} h e = elim (block_pass-Earned b c g e) [
  | inl kept ↦ inl (kept ∙ h.status_kept)
  | inr (inl failed) ↦ inr (inl failed)
  | inr (inr (x, m, t)) ↦
      inr (inr (x, ap (lookup_user (array_255 (c.0.auth.username))) (sym (h.accounts_kept)) ∙ m, t))
]

-- When `pam_auth_read` has a result, whatever `recv` returned, the status is as it was, or
-- failure, or the accounts hold the user name and the password that it read.
pub pam_auth_read-Earned :
    (c : Pam) (u : Users) (r : Recv) {st : PamState} {c' : Pam} {u' : Users}
    → pam_auth_read c u r ≡ some (st, c', u')
    → Earned u c.auth c'.auth
unfolding pam_auth_read recv_into
pam_auth_read-Earned c u Recv.failed e = inl (ground arith)
pam_auth_read-Earned c u (Recv.received bytes) {st} {c'} {u'} e =
    let ((p, room), e₁, k₁) = >>=-eq-some (buffer_write_ptr (c.client_buffer)) _ e in
    let b₀ = (recv_into (c.client_buffer) (Recv.received bytes)).0 in
    elim (Bool-cases (length bytes == 0)) [
      | inl z ↦ inl (ground arith)
      | inr z ↦ elim (Option-cases (buffer_write_adv b₀ (pos (length bytes)))) [
        | inl m ↦ inl (ground arith)
        | inr (b, e₂) ↦
            let l : PamLocals = (record c { client_buffer = b }, u) in
            elim (Option-cases (block_lengths l)) [
              | inl m ↦ inl (ground arith)
              | inr ((f₁, l₁), e₃) ↦ elim (Option-cases (next_block block_username (f₁, l₁))) [
                | inl m ↦ inl (ground arith)
                | inr ((f₂, l₂), e₄) ↦ elim (Option-cases (next_block block_pass (f₂, l₂))) [
                  | inl m ↦ inl (ground arith)
                  | inr ((f₃, l₃), e₅) ↦
                      let h₁ = block_lengths-Keeps l l₁ f₁ e₃ in
                      let h₂ = next_username-Keeps l l₁ f₁ h₁ e₄ in
                      let h₃ = next_pass-Earned l l₂ f₂ h₂ e₅ in
                      let g : finally pam_auth (f₃, l₃) ≡ (st, (c', u')) = ground arith in
                      let q : c' ≡ l₃.0 = last_locals f₃ l₃ g in rw q h₃
                ]
              ]
            ]
      ]
    ]

-- On a valid buffer, when `send` has taken `n` of the reply's bytes, `pam_auth_write` goes to
-- PAM_REQUEST if none is left and stays in PAM_AUTH otherwise, whatever the status of the
-- authentication, which it leaves alone.
pub pam_auth_write_lem :
    (c : Pam) (reply : List ℕ) (n : ℕ) {limit : ℕ}
    → Holds c.client_buffer reply limit
    → n ≤ length reply
    → (c' : Pam) × (pam_auth_write c (pos n)
        ≡ some ((if length reply - n == 0 then pam_request else pam_auth), c'))
      × (c'.auth ≡ c.auth)
unfolding pam_auth_write
pam_auth_write_lem c reply n h le =
    let (b, e, k) = read_adv h n le in
    let r = can_read_iff k in
    let d = length-drop n reply in
    elim (Bool-cases (length reply - n == 0)) [
      | inl z ↦ (
        record c { client_buffer = buffer_reset b; client_interest = op_read },
        ground (arith, read_ptr h, e, r, d),
        refl,
      )
      | inr z ↦ (record c { client_buffer = b }, ground (arith, read_ptr h, e, r, d), refl)
    ]
