-- ===== src/Pam/Dispatch.antt =====
-- src/server/pam/pamMethods.c: the methods that only read, and the choice of the method.
pub mod Safety
pub mod Reading
use socks5proxy.Prelude.{
  ℕ, zero, suc, ◌+◌, ◌-◌, ◌%◌, ◌^◌, Bool, true, false, Option, none, some, List, [], ◌∷◌, ◌++◌, leb,
  ltb, ◌==◌, if◌then◌else◌, length, take, ◌>>=◌, ◌>>◌, assert, Memory, slice, store,
}
use socks5proxy.Buffer.{Buffer}
use socks5proxy.Metrics.{MetricSnapshot, get_metrics_snapshot}
use socks5proxy.Users.{User, Users}
use socks5proxy.Users.Listing.{users_get_connected_users_list}
use socks5proxy.Pam.{Pam, PamRequestSt, pam_buffer_size}
use socks5proxy.Pam.Methods.{
  pam_request_success, pam_request_failure, with_status, handle_add_user, handle_remove_user,
  handle_change_password, handle_change_role,
}

abbrev pub method_get_connected_users_list : ℕ
method_get_connected_users_list = 0x01

abbrev pub method_add_user : ℕ
method_add_user = 0x02

abbrev pub method_remove_user : ℕ
method_remove_user = 0x03

abbrev pub method_change_password : ℕ
method_change_password = 0x04

abbrev pub method_change_role : ℕ
method_change_role = 0x05

abbrev pub method_get_metrics : ℕ
method_get_metrics = 0x06

abbrev pub pam_server_error : ℕ
pam_server_error = 0x02

-- "+OK listing users\n"
abbrev pub users_message : List ℕ
users_message =
    b'+' ∷ b'O' ∷ b'K' ∷ b' ' ∷ b'l' ∷ b'i' ∷ b's' ∷ b't' ∷ b'i' ∷ b'n' ∷ b'g' ∷ b' ' ∷ b'u' ∷ b's'
    ∷ b'e' ∷ b'r' ∷ b's' ∷ b'\n' ∷ []

-- "+OK Metrics snapshot\n"
abbrev pub metrics_message : List ℕ
metrics_message =
    b'+' ∷ b'O' ∷ b'K' ∷ b' ' ∷ b'M' ∷ b'e' ∷ b't' ∷ b'r' ∷ b'i' ∷ b'c' ∷ b's' ∷ b' ' ∷ b's' ∷ b'n'
    ∷ b'a' ∷ b'p' ∷ b's' ∷ b'h' ∷ b'o' ∷ b't' ∷ b'\n' ∷ []

-- What the methods use besides the connection, the accounts and the request: the uninitialised
-- `User` and arrays, whether `list_add` gets its memory, the counters, and the text that `snprintf`
-- makes of them, `none` if it fails.
pub record Inputs : Type 0 where
  pub local : User
  pub alloc : Bool
  pub garbage : Memory
  pub metrics : MetricSnapshot
  pub snprintf : MetricSnapshot → Option (List ℕ)

abbrev pub zeros : Memory
zeros i = 0

-- `write_body` and `write_nbody`, a `uint16_t`.
abbrev pub with_body : Pam → Memory → ℕ → Pam
with_body c body n = record c {
  request = record (c.request) { write_body = body; write_nbody = n % 2 ^ 16 };
}

-- `copied +=` what the function returns, which counts the first message too.
unfoldable pub handle_get_connected_users_list : Pam → Users → Option (Pam × Users)
handle_get_connected_users_list c u = do
  let len = length users_message
  (buffer, n, u') ←
      users_get_connected_users_list u pam_buffer_size (store zeros 0 users_message) len
  let copied = len + n
  if leb copied len
      then some (with_body (with_status c pam_server_error) c.request.write_body 0, u')
      else (do
        _ ← assert (leb copied pam_buffer_size)
        some (with_body c (store c.request.write_body 0 (slice buffer 0 copied)) copied, u'))

-- `snprintf` stores what there is room for, and a NUL, and returns the length of the whole text.
unfoldable pub handle_get_metrics : Inputs → Pam → Pam
handle_get_metrics env c =
    let snapshot = get_metrics_snapshot env.metrics in
    let copied = length metrics_message in
    let body = store c.request.write_body 0 metrics_message in
    elim (env.snprintf snapshot) [
      | none ↦ with_body (with_status c pam_server_error) body 0
      | some text ↦
          let stored = take (pam_buffer_size - copied - 1) text ++ 0 ∷ [] in
          with_body (with_status c pam_request_success) (store body copied stored)
            (copied + length text)
    ]

unfoldable pub handle_pam_request_method : Inputs → Pam → Users → Buffer → Option (Pam × Users)
handle_pam_request_method env c u b =
    if c.request.method == method_get_connected_users_list
    then handle_get_connected_users_list c u
    else if c.request.method == method_add_user
    then handle_add_user env.local env.alloc env.garbage c u b
    else if c.request.method == method_remove_user
    then handle_remove_user env.garbage c u b
    else if c.request.method == method_change_password
    then handle_change_password env.garbage c u b
    else if c.request.method == method_change_role
    then handle_change_role env.garbage c u b
    else if c.request.method == method_get_metrics
    then some (handle_get_metrics env c, u)
    else some (with_body (with_status c pam_request_failure) c.request.write_body 0, u)
