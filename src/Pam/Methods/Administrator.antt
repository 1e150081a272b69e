-- ===== src/Pam/Methods/Administrator.antt =====
-- What the methods do for an administrator, with the strings of the request.
use socks5proxy.Prelude.{
  ℕ, ◌≤◌, ◌<◌, ◌≡◌, refl, sym, ap, ◌∙◌, true, none, some, List, [], ◌∷◌, ◌++◌, arith, length,
  Memory, Option-cases, inl, inr,
}
use socks5proxy.Buffer.{Buffer}
use socks5proxy.CString.{c_str, strlen, strcmp}
use socks5proxy.CString.Laws.{NoNul, c_str_of_NoNul}
use socks5proxy.Users.{
  User, Users, user_ok, user_authenticate, str_equal, users_max_username_length,
  users_max_password_length,
}
use socks5proxy.Users.Find.{accounts, at_iter}
use socks5proxy.Users.Accounts.{lookup_user}
use socks5proxy.Users.Map.{lookup_ext}
use socks5proxy.Users.Laws.{IsValid, user_is_admin_lem, user_authenticate_lem, authenticate_spec}
use socks5proxy.Users.Membership.{user_create-authenticate}
use socks5proxy.Pam.{Pam, array_255}
use socks5proxy.Pam.Bytes.{Held, buffer_read-Held}
use socks5proxy.Pam.Methods.{pam_request_success, with_status, add_status, handle_add_user}
use socks5proxy.Pam.Methods.Authorisation.{is_authorised}
use socks5proxy.Pam.Methods.Strings.{read_string_lem}

-- A name and a password open the same account if the strings are the same.
pub authenticate_ext :
    (u : Users) (a b p q : List ℕ)
    → c_str a ≡ c_str b
    → c_str p ≡ c_str q
    → authenticate_spec (lookup_user a (accounts u)) p
      ≡ authenticate_spec (lookup_user b (accounts u)) q
unfolding authenticate_spec str_equal strcmp
authenticate_ext u a b p q e f =
    rw (lookup_ext a b (accounts u) e) (elim (Option-cases (lookup_user b (accounts u))) [
      | inl n ↦ ground (arith, n)
      | inr (x, n) ↦ ground (arith, n, f)
    ])

-- For an administrator, with a free name, a name and a password that fit, and memory,
-- `handle_add_user` answers PAM_REQUEST_SUCCESS, and the new account opens with its password.
pub handle_add_user_lem :
    (local : User) (garbage : Memory) (c : Pam) (u : Users) (name password : List ℕ) (role : ℕ)
    (b : Buffer) {l w : ℕ}
    → Held b (length name ∷ name ++ (length password ∷ password ++ role ∷ [])) l w
    → is_authorised c u ≡ true
    → IsValid u
    → NoNul name
    → NoNul password
    → lookup_user name (accounts u) ≡ none
    → length name < users_max_username_length
    → length password < users_max_password_length
    → users_max_username_length ≤ length local.username
    → users_max_password_length ≤ length local.password
    → (u' : Users) × (k : ℕ) × (handle_add_user local true garbage c u b
        ≡ some (with_status c pam_request_success, u'))
      × IsValid u'
      × (user_authenticate u' name password ≡ some (user_ok, at_iter u' k))
unfolding handle_add_user strlen add_status
handle_add_user_lem local garbage c u name password role b h auth v n₁ n₂ free l₁ l₂ m₁ m₂ =
    let (s, b₁, e₁, c₁, k₁) =
      read_string_lem garbage name (length password ∷ password ++ role ∷ []) b h n₁ l₁ in
    let (t, b₂, e₂, c₂, k₂) = read_string_lem garbage password (role ∷ []) b₁ k₁ n₂ l₂ in
    let (b₃, e₃, k₃) = buffer_read-Held k₂ in
    let (k, a) = user_is_admin_lem u (array_255 c.auth.username) in
    let v' : IsValid (at_iter u k) = record {
      by_name = v.by_name;
      sorted = record { ascending = v.sorted.ascending; counted = v.sorted.counted };
    } in
    let cs : c_str s ≡ c_str name = c₁ ∙ sym (c_str_of_NoNul name n₁) in
    let ct : c_str t ≡ c_str password = c₂ ∙ sym (c_str_of_NoNul password n₂) in
    let (u', k', e, v₂, opens, others, total) =
      user_create-authenticate {u = at_iter u k} local s t role v'
        (lookup_ext s name (accounts u) cs ∙ free) (rw c₁ l₁) (rw c₂ l₂) m₁ m₂ in
    let (i, open') = user_authenticate_lem u' name password in
    let (j, open'') = user_authenticate_lem u' s t in
    let same = authenticate_ext u' s name t password cs ct in
    let ok : authenticate_spec (lookup_user s (accounts u')) t ≡ user_ok =
      ground (arith, opens, open'') in
    (
      u',
      i,
      rw (e₁, e₂, e₃, a, auth, e) refl,
      v₂,
      open' ∙ ap (λ r. some (r, at_iter u' i)) (sym same ∙ ok),
    )
