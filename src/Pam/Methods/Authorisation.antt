-- ===== src/Pam/Methods/Authorisation.antt =====
-- No method changes the accounts for a connection whose name is not an administrator's.
use socks5proxy.Prelude.{
  ◌≡◌, ap, ◌∙◌, Bool, false, not, Option, some, arith, Memory, ◌>>=◌, >>=-eq-some, if◌then◌else◌,
}
use socks5proxy.Buffer.{Buffer, buffer_read}
use socks5proxy.Users.{User, Users, user_is_admin, user_get_if_exists}
use socks5proxy.Users.Find.{accounts, at_iter, user_get_if_exists_lem}
use socks5proxy.Users.Accounts.{lookup_user}
use socks5proxy.Users.Laws.{is_admin_spec, user_is_admin_lem}
use socks5proxy.Pam.{Pam, array_255}
use socks5proxy.Pam.Methods.{
  pam_request_unauthorized, with_status, read_string, handle_add_user, handle_remove_user,
  handle_change_password, handle_change_role,
}

-- The name of the connection belongs to an administrator.
abbrev pub is_authorised : Pam → Users → Bool
is_authorised c u = is_admin_spec (lookup_user (array_255 c.auth.username) (accounts u))

-- The request was refused and the accounts are the same.
abbrev pub Refused : Pam → Users → Pam → Users → Type 0
Refused c u c' u' = (c' ≡ with_status c pam_request_unauthorized) × (accounts u' ≡ accounts u)

refused :
    (c : Pam) (u : Users) {c' : Pam} {u' : Users} (rest : Users → Option (Pam × Users))
    → is_authorised c u ≡ false
    → (user_is_admin u (array_255 c.auth.username) >>= λ r.
        if not r.0 then some (with_status c pam_request_unauthorized, r.1) else rest r.1)
      ≡ some (c', u')
    → Refused c u c' u'
refused c u {c'} {u'} rest f e =
    let (k, a) = user_is_admin_lem u (array_255 c.auth.username) in
    let q : u' ≡ at_iter u k = ground (arith, a, f) in (ground (arith, a, f), ap accounts q)

-- When `handle_add_user` has a result, for a connection whose name is not an administrator's, the
-- result is the status PAM_REQUEST_UNAUTHORIZED and no account has changed.
pub handle_add_user-Refused :
    (local : User) (alloc : Bool) (garbage : Memory) (c : Pam) (u : Users) (b : Buffer) {c' : Pam}
    {u' : Users}
    → is_authorised c u ≡ false
    → handle_add_user local alloc garbage c u b ≡ some (c', u')
    → Refused c u c' u'
unfolding handle_add_user
handle_add_user-Refused local alloc garbage c u b f e =
    let ((x, b₁), e₁, k₁) = >>=-eq-some (read_string garbage b) _ e in
    let ((y, b₂), e₂, k₂) = >>=-eq-some (read_string garbage b₁) _ k₁ in
    let ((z, b₃), e₃, k₃) = >>=-eq-some (buffer_read b₂) _ k₂ in refused c u _ f k₃

-- When `handle_remove_user` has a result, for a connection whose name is not an administrator's,
-- the result is the status PAM_REQUEST_UNAUTHORIZED and no account has changed, whoever is named.
pub handle_remove_user-Refused :
    (garbage : Memory) (c : Pam) (u : Users) (b : Buffer) {c' : Pam} {u' : Users}
    → is_authorised c u ≡ false
    → handle_remove_user garbage c u b ≡ some (c', u')
    → Refused c u c' u'
unfolding handle_remove_user
handle_remove_user-Refused garbage c u b f e =
    let ((x, b₁), e₁, k₁) = >>=-eq-some (read_string garbage b) _ e in
    let ((p, u₁), e₂, k₂) = >>=-eq-some (user_get_if_exists u x) _ k₁ in
    let (k, g) = user_get_if_exists_lem u x in
    let q : u₁ ≡ at_iter u k = ground (arith, g, e₂) in
    let same : accounts u₁ ≡ accounts u = ap accounts q in
    let f₁ : is_authorised c u₁ ≡ false =
      ap (λ xs. is_admin_spec (lookup_user (array_255 c.auth.username) xs)) same ∙ f in
    let (r, t) = refused c u₁ _ f₁ k₂ in (r, t ∙ same)

-- When `handle_change_password` has a result, for a connection whose name is not an
-- administrator's, the result is the status PAM_REQUEST_UNAUTHORIZED and no account has changed.
pub handle_change_password-Refused :
    (garbage : Memory) (c : Pam) (u : Users) (b : Buffer) {c' : Pam} {u' : Users}
    → is_authorised c u ≡ false
    → handle_change_password garbage c u b ≡ some (c', u')
    → Refused c u c' u'
unfolding handle_change_password
handle_change_password-Refused garbage c u b f e =
    let ((x, b₁), e₁, k₁) = >>=-eq-some (read_string garbage b) _ e in
    let ((y, b₂), e₂, k₂) = >>=-eq-some (read_string garbage b₁) _ k₁ in refused c u _ f k₂

-- When `handle_change_role` has a result, for a connection whose name is not an administrator's,
-- the result is the status PAM_REQUEST_UNAUTHORIZED and no account has changed.
pub handle_change_role-Refused :
    (garbage : Memory) (c : Pam) (u : Users) (b : Buffer) {c' : Pam} {u' : Users}
    → is_authorised c u ≡ false
    → handle_change_role garbage c u b ≡ some (c', u')
    → Refused c u c' u'
unfolding handle_change_role
handle_change_role-Refused garbage c u b f e =
    let ((x, b₁), e₁, k₁) = >>=-eq-some (read_string garbage b) _ e in
    let ((y, b₂), e₂, k₂) = >>=-eq-some (buffer_read b₁) _ k₁ in refused c u _ f k₂
