-- ===== src/Pam/Dispatch/Safety.antt =====
-- No method of the protocol changes the accounts for a connection whose name is not an
-- administrator's.
use socks5proxy.Prelude.{
  ◌≡◌, ap, ◌∙◌, false, some, arith, ◌==◌, Bool-cases, inl, inr, Option-cases, length, store,
}
use socks5proxy.Buffer.{Buffer}
use socks5proxy.Users.{Users}
use socks5proxy.Users.Find.{accounts}
use socks5proxy.Users.Listing.{
  users_get_connected_users_list, users_get_connected_users_list-accounts,
}
use socks5proxy.Pam.{Pam, pam_buffer_size}
use socks5proxy.Pam.Dispatch.{
  Inputs, zeros, users_message, handle_get_connected_users_list, handle_pam_request_method,
  method_get_connected_users_list, method_add_user, method_remove_user, method_change_password,
  method_change_role, method_get_metrics,
}
use socks5proxy.Pam.Methods.Authorisation.{
  is_authorised, handle_add_user-Refused, handle_remove_user-Refused,
  handle_change_password-Refused, handle_change_role-Refused,
}

listed :
    (c : Pam) (u : Users) {c' : Pam} {u' : Users}
    → handle_get_connected_users_list c u ≡ some (c', u')
    → accounts u' ≡ accounts u
unfolding handle_get_connected_users_list
listed c u {c'} {u'} h =
    elim (Option-cases (
      users_get_connected_users_list u pam_buffer_size (store zeros 0 users_message)
        (length users_message))) [
          | inl n ↦ absurd (ground arith)
          | inr ((b, n, u₁), e) ↦
              let same =
                users_get_connected_users_list-accounts u pam_buffer_size
                  (store zeros 0 users_message) (length users_message) e in
              let q : u' ≡ u₁ = ground arith in ap accounts q ∙ same
        ]

-- Whatever the method and the body of the request, when `handle_pam_request_method` has a result for
-- a connection whose name is not an administrator's, the accounts are what they were.
pub handle_pam_request_method-accounts :
    (env : Inputs) (c : Pam) (u : Users) (b : Buffer) {c' : Pam} {u' : Users}
    → is_authorised c u ≡ false
    → handle_pam_request_method env c u b ≡ some (c', u')
    → accounts u' ≡ accounts u
unfolding handle_pam_request_method
handle_pam_request_method-accounts env c u b {c'} {u'} f h =
    let m = c.request.method in
    elim (Bool-cases (m == method_get_connected_users_list)) [
      | inl t ↦ listed c u (rw t at h)
      | inr n₁ ↦ elim (Bool-cases (m == method_add_user)) [
        | inl t ↦
            (handle_add_user-Refused env.local env.alloc env.garbage c u b f (rw (n₁, t) at h)).1
        | inr n₂ ↦ elim (Bool-cases (m == method_remove_user)) [
          | inl t ↦ (handle_remove_user-Refused env.garbage c u b f (rw (n₁, n₂, t) at h)).1
          | inr n₃ ↦ elim (Bool-cases (m == method_change_password)) [
            | inl t ↦
                (handle_change_password-Refused env.garbage c u b f (rw (n₁, n₂, n₃, t) at h)).1
            | inr n₄ ↦ elim (Bool-cases (m == method_change_role)) [
              | inl t ↦
                  (handle_change_role-Refused env.garbage c u b f (rw (n₁, n₂, n₃, n₄, t) at h)).1
              | inr n₅ ↦ elim (Bool-cases (m == method_get_metrics)) [
                | inl t ↦ ground (arith)
                | inr n₆ ↦ ground arith
              ]
            ]
          ]
        ]
      ]
    ]
