-- ===== src/Pam/Methods.antt =====
-- src/server/pam/pamMethods.c: the methods that change the accounts, for a connection whose name
-- belongs to an administrator. `garbage` is what an uninitialised local array holds.
pub mod Authorisation
pub mod Strings
pub mod Administrator
use socks5proxy.Prelude.{
  ℕ, zero, suc, ◌+◌, Bool, true, false, not, ◌&&◌, ◌||◌, Option, none, some, List, ◌==◌,
  if◌then◌else◌, ◌>>=◌, ◌>>◌, Memory,
}
use socks5proxy.Buffer.{Buffer, buffer_read}
use socks5proxy.Users.{
  User, Users, UserStatus, user_ok, user_alreadyexists, user_wrongpassword, user_credtoolong,
  user_badusername, user_privilege_admin, str_equal, deref, user_get_if_exists, user_is_admin,
  user_create, user_remove, user_change_password, user_change_role, user_total_admins,
}
use socks5proxy.Pam.{Pam, PamRequestSt, PamAuthSt, read_into, terminate, array_255}

abbrev pub pam_request_success : ℕ
pam_request_success = 0x00

abbrev pub pam_request_failure : ℕ
pam_request_failure = 0x01

abbrev pub pam_request_unauthorized : ℕ
pam_request_unauthorized = 0x02

abbrev pub pam_request_user_already_exists : ℕ
pam_request_user_already_exists = 0x03

abbrev pub pam_request_user_wrong_password : ℕ
pam_request_user_wrong_password = 0x04

abbrev pub pam_request_user_credtoolong : ℕ
pam_request_user_credtoolong = 0x05

abbrev pub pam_request_user_badusername : ℕ
pam_request_user_badusername = 0x06

-- `PAM_ERROR`, a state, which two methods use as a status.
abbrev pub pam_error_status : ℕ
pam_error_status = 3

-- A length, that many bytes, and a NUL behind them, in a local array of 255 bytes.
unfoldable pub read_string : Memory → Buffer → Option (List ℕ × Buffer)
read_string garbage b = do
  (len, b₁) ← buffer_read b
  (b₂, array) ← read_into len 0 b₁ garbage
  array' ← terminate array len
  some (array_255 array', b₂)

abbrev pub with_status : Pam → ℕ → Pam
with_status c st = record c { request = record (c.request) { status = st } }

-- The `switch` of `handle_add_user`.
unfoldable pub add_status : UserStatus → ℕ
add_status user_ok = pam_request_success
add_status user_alreadyexists = pam_request_user_already_exists
add_status user_wrongpassword = pam_request_user_wrong_password
add_status user_credtoolong = pam_request_user_credtoolong
add_status user_badusername = pam_request_user_badusername

-- The `switch` of `handle_remove_user`.
unfoldable pub remove_status : UserStatus → ℕ
remove_status user_ok = pam_request_success
remove_status user_badusername = pam_request_user_badusername
remove_status _ = pam_error_status

-- The `switch` of `handle_change_password`, where a `break` is missing after the second case.
unfoldable pub password_status : UserStatus → ℕ
password_status user_ok = pam_request_success
password_status _ = pam_error_status

-- The `switch` of `handle_change_role`.
unfoldable pub role_status : UserStatus → ℕ
role_status user_ok = pam_request_success
role_status user_badusername = pam_request_user_already_exists
role_status _ = pam_error_status

-- `local` and `alloc` are those of `user_create`.
unfoldable pub handle_add_user : User → Bool → Memory → Pam → Users → Buffer → Option (Pam × Users)
handle_add_user local alloc garbage c u b = do
  (username, b₁) ← read_string garbage b
  (password, b₂) ← read_string garbage b₁
  (role, _) ← buffer_read b₂
  (admin, u') ← user_is_admin u (array_255 c.auth.username)
  if not admin then some (with_status c pam_request_unauthorized, u') else (do
    (status, u'') ← user_create u' local alloc username password role
    some (with_status c (add_status status), u''))

-- `||` and `&&` evaluate only what they need: `userToRemove` may be NULL when it is read.
unfoldable pub handle_remove_user : Memory → Pam → Users → Buffer → Option (Pam × Users)
handle_remove_user garbage c u b = do
  (username, _) ← read_string garbage b
  let current_user_name = array_255 c.auth.username
  (user_to_remove, u₁) ← user_get_if_exists u username
  (admin, u₂) ← user_is_admin u₁ current_user_name
  if not admin then some (with_status c pam_request_unauthorized, u₂) else (do
    last_admin ←
        (if user_total_admins u₂ == 1
          then (do
            p ← user_to_remove
            user ← deref u₂ p
            some (user.privilege_level == user_privilege_admin))
          else some false)
    if last_admin || str_equal current_user_name username
        then some (with_status c pam_request_unauthorized, u₂)
        else (do
          (status, u₃) ← user_remove u₂ username
          some (with_status c (remove_status status), u₃)))

unfoldable pub handle_change_password : Memory → Pam → Users → Buffer → Option (Pam × Users)
handle_change_password garbage c u b = do
  (username, b₁) ← read_string garbage b
  (new_password, _) ← read_string garbage b₁
  (admin, u') ← user_is_admin u (array_255 c.auth.username)
  if not admin then some (with_status c pam_request_unauthorized, u') else (do
    (status, u'') ← user_change_password u' username new_password
    some (with_status c (password_status status), u''))

unfoldable pub handle_change_role : Memory → Pam → Users → Buffer → Option (Pam × Users)
handle_change_role garbage c u b = do
  (username, b₁) ← read_string garbage b
  (new_role, _) ← buffer_read b₁
  (admin, u') ← user_is_admin u (array_255 c.auth.username)
  if not admin then some (with_status c pam_request_unauthorized, u') else (do
    (status, u'') ← user_change_role u' username new_role
    some (with_status c (role_status status), u''))
