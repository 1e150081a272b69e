-- ===== src/Users/Tests.antt =====
-- The theorems on the accounts at concrete accounts.
use socks5proxy.Prelude.{
  ℕ, ◌+◌, ◌≤◌, ◌<◌, ◌≡◌, refl, true, none, some, [], ◌∷◌, replicate, length, arith, if◌then◌else◌,
  leb, ◌⊎◌,
}
use socks5proxy.CString.{c_str, strlen, strcmp, compare_bytes}
use socks5proxy.CString.Laws.{NoNul}
use socks5proxy.Users.{
  User, UserStatus, Users, user_ok, user_alreadyexists, user_credtoolong, user_wrongpassword,
  user_cmp, str_equal, user_get_if_exists, user_create, user_remove, user_change_password,
  user_change_role, user_authenticate, user_total_admins, user_privilege_admin,
  user_privilege_default,
}
use socks5proxy.Users.Find.{position, accounts, at_iter, user_get_if_exists_lem}
use socks5proxy.Users.Accounts.{lookup_user}
use socks5proxy.Users.Map.{Differs}
use socks5proxy.Users.Laws.{
  IsValid, Updated, authenticate_spec, user_authenticate_lem, user_change_role-Updated,
  change_password-authenticate,
}
use socks5proxy.Users.Membership.{
  TooLong, Fits, counted_admins, created_user, user_create_status, user_create-authenticate,
}
use socks5proxy.Users.Removal.{count_admins, user_remove_lem}

-- The user "a" with the password "bcd", an administrator.
abbrev first_user : User
first_user = record {
  username = 97 ∷ 0 ∷ 0 ∷ [];
  password = 98 ∷ 99 ∷ 100 ∷ 0 ∷ 0 ∷ [];
  privilege_level = user_privilege_admin;
}

-- The user "b" with the password "e".
abbrev second_user : User
second_user = record {
  username = 98 ∷ 0 ∷ 0 ∷ [];
  password = 101 ∷ 0 ∷ 0 ∷ [];
  privilege_level = user_privilege_default;
}

abbrev two_users : Users
two_users = record {
  users_list = record { head = first_user ∷ second_user ∷ []; iter = 0; size = 2; cmp = user_cmp };
  total_admins = 1;
}

two_users-IsValid : IsValid two_users
unfolding user_cmp strcmp compare_bytes c_str
two_users-IsValid = record {
  by_name = refl;
  sorted = record { ascending = ((refl, tt), (tt, tt)); counted = refl };
}

first_found : lookup_user (97 ∷ 0 ∷ []) (accounts two_users) ≡ some first_user
unfolding lookup_user str_equal strcmp compare_bytes c_str
first_found = refl

none_found : lookup_user (99 ∷ 0 ∷ []) (accounts two_users) ≡ none
unfolding lookup_user str_equal strcmp compare_bytes c_str
none_found = refl

user_get_if_exists_lem_example :
    (k : ℕ) × (user_get_if_exists two_users (98 ∷ 0 ∷ [])
      ≡ some (position (98 ∷ 0 ∷ []) (accounts two_users), at_iter two_users k))
user_get_if_exists_lem_example = user_get_if_exists_lem two_users (98 ∷ 0 ∷ [])

user_authenticate_lem_example :
    (k : ℕ) × (user_authenticate two_users (98 ∷ 0 ∷ []) (101 ∷ 0 ∷ [])
      ≡ some (
        authenticate_spec (lookup_user (98 ∷ 0 ∷ []) (accounts two_users)) (101 ∷ 0 ∷ []),
        at_iter two_users k,
      ))
user_authenticate_lem_example = user_authenticate_lem two_users (98 ∷ 0 ∷ []) (101 ∷ 0 ∷ [])

user_change_role-Updated_example :
    (u' : Users) × (user_change_role two_users (97 ∷ 0 ∷ []) 1 ≡ some (user_ok, u'))
    × Updated two_users u' (97 ∷ 0 ∷ []) (record first_user { privilege_level = 1 })
user_change_role-Updated_example = user_change_role-Updated two_users (97 ∷ 0 ∷ []) 1 first_found

-- The new password "x" is shorter than "bcd".
letters : NoNul (98 ∷ 99 ∷ 100 ∷ [])
letters = (omega arith, (omega arith, (omega arith, tt)))

x-shorter : strlen (120 ∷ 0 ∷ []) < length {A = ℕ} (98 ∷ 99 ∷ 100 ∷ []) + 2
unfolding strlen c_str
x-shorter = omega arith

change_password-authenticate_example :
    (u' : Users) × (k : ℕ) × (user_change_password two_users (97 ∷ 0 ∷ []) (120 ∷ 0 ∷ [])
      ≡ some (user_ok, u'))
    × (user_authenticate u' (97 ∷ 0 ∷ []) (120 ∷ 0 ∷ [])
        ≡ some
            ((if leb 3 (strlen (120 ∷ 0 ∷ [])) then user_ok else user_wrongpassword), at_iter u' k))
change_password-authenticate_example =
    change_password-authenticate two_users (97 ∷ 0 ∷ []) (120 ∷ 0 ∷ []) (98 ∷ 99 ∷ 100 ∷ []) [] 1
      first_found refl letters x-shorter

-- An array of a new `User`, before anything is written.
abbrev unwritten : User
unwritten = record { username = replicate 256 0; password = replicate 256 0; privilege_level = 0 }

user_create_status_example :
    (st : UserStatus) × (u' : Users) × (user_create two_users unwritten true
        (97 ∷ 0 ∷ [])
        (120 ∷ 0 ∷ [])
        0
      ≡ some (st, u'))
    × ((TooLong (97 ∷ 0 ∷ []) (120 ∷ 0 ∷ []) × (st ≡ user_credtoolong) × (u' ≡ two_users))
        ⊎ ((Fits (97 ∷ 0 ∷ []) (120 ∷ 0 ∷ [])
              × ((x : User) × (lookup_user (97 ∷ 0 ∷ []) (accounts two_users) ≡ some x))
              × (st ≡ user_alreadyexists)
              × (accounts u' ≡ accounts two_users)
              × (user_total_admins u' ≡ user_total_admins two_users))
            ⊎ (Fits (97 ∷ 0 ∷ []) (120 ∷ 0 ∷ [])
                × (lookup_user (97 ∷ 0 ∷ []) (accounts two_users) ≡ none)
                × (st ≡ user_ok)
                × (user_total_admins u' ≡ counted_admins 0 (user_total_admins two_users))
                × ((true ≡ true) ⊎ (accounts u' ≡ accounts two_users)))))
user_create_status_example =
    user_create_status two_users unwritten true (97 ∷ 0 ∷ []) (120 ∷ 0 ∷ []) 0

c-short : strlen (99 ∷ 0 ∷ []) < 255
unfolding strlen c_str
c-short = omega arith

array-long : 255 ≤ length {A = ℕ} (replicate 256 0)
array-long = omega arith

user_create-authenticate_example :
    (u' : Users) × (k : ℕ) × (user_create two_users unwritten true (99 ∷ 0 ∷ []) (99 ∷ 0 ∷ []) 0
      ≡ some (user_ok, u'))
    × IsValid u'
    × (user_authenticate u' (99 ∷ 0 ∷ []) (99 ∷ 0 ∷ []) ≡ some (user_ok, at_iter u' k))
    × Differs
        (accounts two_users)
        (accounts u')
        (99 ∷ 0 ∷ [])
        (some (created_user unwritten (99 ∷ 0 ∷ []) (99 ∷ 0 ∷ []) 0))
    × (user_total_admins u' ≡ user_total_admins two_users + 1)
user_create-authenticate_example =
    user_create-authenticate {u = two_users} unwritten (99 ∷ 0 ∷ []) (99 ∷ 0 ∷ []) 0
      two_users-IsValid none_found c-short c-short array-long array-long

user_remove_lem_example :
    (u' : Users) × (user_remove two_users (97 ∷ 0 ∷ []) ≡ some (user_ok, u'))
    × IsValid u'
    × Differs (accounts two_users) (accounts u') (97 ∷ 0 ∷ []) none
    × (user_total_admins u' ≡ user_total_admins two_users)
    × (count_admins (accounts two_users) ≡ 1 + count_admins (accounts u'))
user_remove_lem_example = user_remove_lem (97 ∷ 0 ∷ []) two_users-IsValid first_found
