-- ===== src/Users.antt =====
-- src/server/users.c: the accounts, in a list that `strcmp` on the names keeps sorted.
-- Arrays of `uint8_t` are lists of bytes. A `User *` is the number of list nodes before it. An
-- uninitialised local (`User user;`) is an argument. Loops over the list take as fuel one more than
-- the number of nodes; running out of it would be `none`.
mod Tests
pub mod Find
pub mod Accounts
pub mod Map
pub mod Passwords
pub mod Laws
pub mod Membership
pub mod Removal
pub mod Listing
use Prim.Native.Nat.{Ordering}
use socks5proxy.Prelude.{
  ℕ, zero, suc, ◌+◌, ◌-◌, Bool, true, false, Option, none, some, List, [], ◌∷◌, ◌++◌, ltb, leb,
  ◌==◌, if◌then◌else◌, length, get_elem?, set, replicate, ◌>>=◌, ◌>>◌, Memory, poke, store,
}
use socks5proxy.CString.{c_str, strlen, strcmp, memcpy, strncpy}
use socks5proxy.ListAdt.{
  ListCdt, list_create, list_add, list_remove, list_begin_iter, list_has_next, list_get_next,
}

abbrev pub users_max_username_length : ℕ
users_max_username_length = 255

abbrev pub users_max_password_length : ℕ
users_max_password_length = 255

-- `UserPrivilegeLevel`: any byte of a request may end up here.
abbrev pub user_privilege_admin : ℕ
user_privilege_admin = 0

abbrev pub user_privilege_default : ℕ
user_privilege_default = 1

-- `struct User`, its arrays `USERS_MAX_..._LENGTH + 1` bytes long
pub record User : Type 0 where
  pub username : List ℕ
  pub password : List ℕ
  pub privilege_level : ℕ

pub data UserStatus : Type 0 where
  user_ok user_alreadyexists user_wrongpassword user_credtoolong user_badusername : UserStatus

-- `usersList` and `totalAdmins`
pub record Users : Type 0 where
  pub users_list : ListCdt User
  pub total_admins : ℕ

unfoldable pub user_cmp : User → User → Ordering
user_cmp a b = strcmp a.username b.username

-- "admin"
abbrev pub admin_name : List ℕ
admin_name = b'a' ∷ b'd' ∷ b'm' ∷ b'i' ∷ b'n' ∷ []

-- An array of 256 bytes, initialised by a string literal.
abbrev array_of : List ℕ → List ℕ
array_of s = s ++ replicate (256 - length s) 0

abbrev pub admin_user : User
admin_user = record {
  username = array_of admin_name;
  password = array_of admin_name;
  privilege_level = user_privilege_admin;
}

-- `none` is `usersList == NULL`; `malloc` succeeds.
pub users_init : ℕ → Option Users → Option Users
users_init garbage (some u) = some u
users_init garbage none = do
  l ← list_create garbage user_cmp true
  some (record { users_list = (list_add l admin_user true).1; total_admins = 1 })

-- `0 == strcmp(a, b)`
unfoldable pub str_equal : List ℕ → List ℕ → Bool
str_equal a b = elim (strcmp a b) [ Ordering.eq ↦ true | _ ↦ false ]

-- The loop of `user_get_if_exists`: the pointer that is returned (`none` for NULL), and the list.
unfoldable pub find_loop : ℕ → ListCdt User → List ℕ → Option (Option ℕ × ListCdt User)
find_loop zero l name = none
find_loop (suc fuel) l name = elim (list_has_next l) [
  | false ↦ some (none, l)
  | true ↦
      let (got, l') = list_get_next l in
      elim got [
        | none ↦ none
        | some (p, user) ↦ elim (str_equal user.username name) [
          | true ↦ some (some p, l')
          | false ↦ find_loop fuel l' name
        ]
      ]
]

unfoldable pub user_get_if_exists : Users → List ℕ → Option (Option ℕ × Users)
user_get_if_exists u name = do
  (p, l) ← find_loop (suc (length u.users_list.head)) (list_begin_iter u.users_list) name
  some (p, record u { users_list = l })

-- `*user`, and `*user = ...`
unfoldable pub deref : Users → ℕ → Option User
deref u p = get_elem? u.users_list.head p

pub assign : Users → ℕ → User → Users
assign u p user = record u {
  users_list = record (u.users_list) { head = set u.users_list.head p user };
}

unfoldable pub user_is_admin : Users → List ℕ → Option (Bool × Users)
unfolding deref
user_is_admin u name = do
  (p, u') ← user_get_if_exists u name
  elim p [
    | none ↦ some (false, u')
    | some i ↦ do user ← deref u' i; some (user.privilege_level == user_privilege_admin, u')
  ]

-- `local` is the uninitialised `User user;`, `alloc` says that `list_add` gets its memory.
pub user_create : Users → User → Bool → List ℕ → List ℕ → ℕ → Option (UserStatus × Users)
user_create u local alloc username password pl =
    if leb users_max_username_length (strlen username)
    then some (user_credtoolong, u)
    else if leb users_max_password_length (strlen password)
    then some (user_credtoolong, u)
    else (do
      (p, u') ← user_get_if_exists u username
      elim p [
        | some _ ↦ some (user_alreadyexists, u')
        | none ↦
            let user : User = record {
              username =
                  set (strncpy (local.username) username (users_max_username_length - 1))
                    (users_max_username_length - 1) 0;
              password =
                  set (strncpy (local.password) password (users_max_password_length - 1))
                    (users_max_password_length - 1) 0;
              privilege_level = pl;
            } in
            some (
              user_ok,
              record {
                users_list = (list_add u'.users_list user alloc).1;
                total_admins =
                    if pl == user_privilege_admin then u'.total_admins + 1 else u'.total_admins;
              },
            )
      ])

pub user_remove : Users → List ℕ → Option (UserStatus × Users)
unfolding deref
user_remove u username = do
  (p, u') ← user_get_if_exists u username
  elim p [
    | none ↦ some (user_badusername, u')
    | some i ↦ do
      user ← deref u' i
      some (user_ok, record u' { users_list = (list_remove u'.users_list user).1 })
  ]

pub user_change_password : Users → List ℕ → List ℕ → Option (UserStatus × Users)
unfolding deref assign
user_change_password u username new_password = do
  (p, u') ← user_get_if_exists u username
  elim p [
    | none ↦ some (user_badusername, u')
    | some i ↦ do
      user ← deref u' i
      let changed = record user {
        password = memcpy (user.password) new_password (strlen new_password);
      }
      some (user_ok, assign u' i changed)
  ]

pub user_change_role : Users → List ℕ → ℕ → Option (UserStatus × Users)
unfolding deref assign
user_change_role u username new_role = do
  (p, u') ← user_get_if_exists u username
  elim p [
    | none ↦ some (user_badusername, u')
    | some i ↦ do
      user ← deref u' i
      some (user_ok, assign u' i (record user { privilege_level = new_role }))
  ]

unfoldable pub user_authenticate : Users → List ℕ → List ℕ → Option (UserStatus × Users)
unfolding deref
user_authenticate u username password = do
  (p, u') ← user_get_if_exists u username
  elim p [
    | none ↦ some (user_badusername, u')
    | some i ↦ do
      user ← deref u' i
      some ((if str_equal user.password password then user_ok else user_wrongpassword), u')
  ]

pub user_total_admins : Users → ℕ
user_total_admins u = u.total_admins
