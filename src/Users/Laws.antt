-- ===== src/Users/Laws.antt =====
-- What the functions of src/server/users.c do to the accounts.
use socks5proxy.Prelude.{
  ℕ, zero, suc, ◌+◌, ◌≤◌, ◌<◌, ◌≡◌, refl, sym, ap, ◌∙◌, Bool, true, false, Option, none, some, List,
  [], ◌∷◌, ◌++◌, leb, ◌==◌, length, get_elem?, set, drop, replicate, arith, Bool-cases, inl, inr,
  if◌then◌else◌, append-nil, length-append, length-drop, leb→gt,
}
use socks5proxy.CString.{c_str, strlen, memcpy}
use socks5proxy.CString.Laws.{NoNul}
use socks5proxy.ListAdt.Order.{IsSorted}
use socks5proxy.Users.{
  User, UserStatus, user_ok, user_wrongpassword, user_badusername, Users, user_privilege_admin,
  user_cmp, str_equal, assign, user_is_admin, user_change_password, user_change_role,
  user_authenticate,
}
use socks5proxy.Users.Find.{position, accounts, at_iter, user_get_if_exists_lem}
use socks5proxy.Users.Accounts.{
  lookup_user, str_equal-eq, eq-str_equal, position-lookup, lookup-set,
}
use socks5proxy.Users.Map.{Differs, differs, Differs-here}
use socks5proxy.Users.Passwords.{c_str-memcpy}

-- The list is sorted by `user_cmp`, without duplicates.
pub record IsValid (u : Users) : Type 0 where
  pub by_name : u.users_list.cmp ≡ user_cmp
  pub sorted : IsSorted u.users_list

unfoldable pub authenticate_spec : Option User → List ℕ → UserStatus
authenticate_spec none password = user_badusername
authenticate_spec (some user) password =
    if str_equal user.password password then user_ok else user_wrongpassword

-- `user_authenticate` answers by the account with that name and its password, for every input, and
-- moves nothing but the iterator.
pub user_authenticate_lem :
    (u : Users) (name password : List ℕ)
    → (k : ℕ) × (user_authenticate u name password
        ≡ some (authenticate_spec (lookup_user name (accounts u)) password, at_iter u k))
unfolding user_authenticate authenticate_spec
user_authenticate_lem u name password =
    let (k, e) = user_get_if_exists_lem u name in
    elim (position-lookup name (accounts u)) [
      | inl (p, l) ↦ (k, ground arith)
      | inr (i, x, p, l, g, t) ↦ (k, ground arith)
    ]

unfoldable pub is_admin_spec : Option User → Bool
is_admin_spec none = false
is_admin_spec (some user) = user.privilege_level == user_privilege_admin

pub user_is_admin_lem :
    (u : Users) (name : List ℕ)
    → (k : ℕ) × (user_is_admin u name
        ≡ some (is_admin_spec (lookup_user name (accounts u)), at_iter u k))
unfolding user_is_admin is_admin_spec
user_is_admin_lem u name =
    let (k, e) = user_get_if_exists_lem u name in
    elim (position-lookup name (accounts u)) [
      | inl (p, l) ↦ (k, ground arith)
      | inr (i, x, p, l, g, t) ↦ (k, ground arith)
    ]

-- What an update of one account leaves: the account changed, every other name as it was.
abbrev pub Updated : Users → Users → List ℕ → User → Type 0
Updated u u' name new = Differs (accounts u) (accounts u') name (some new)

assign_found :
    (u : Users) (name : List ℕ) (i : ℕ) (x y : User) (k : ℕ)
    → position name (accounts u) ≡ some i
    → get_elem? (accounts u) i ≡ some x
    → y.username ≡ x.username
    → str_equal x.username name ≡ true
    → Updated u (assign (at_iter u k) i y) name y
unfolding assign
assign_found u name i x y k p g n t =
    differs (accounts u) (set (accounts u) i y) name (x.username) (some y)
      (str_equal-eq (x.username) name t) (lookup-set name [] (accounts u) i x y p g n).0
      (λ j. (lookup-set name j (accounts u) i x y p g n).1)

found_same : {a : Option User} {x y : User} → a ≡ some y → a ≡ some x → y ≡ x
found_same l found = ground arith

abbrev pub with_password : User → List ℕ → User
with_password x new = record x { password = memcpy (x.password) new (strlen new) }

-- Changing the password of an account that exists returns USER_OK and copies the new password,
-- without its NUL, over the start of the old one; no other account changes.
pub user_change_password-Updated :
    (u : Users) (name new : List ℕ) {x : User}
    → lookup_user name (accounts u) ≡ some x
    → (u' : Users) × (user_change_password u name new ≡ some (user_ok, u'))
      × Updated u u' name (with_password x new)
unfolding user_change_password
user_change_password-Updated u name new {x} found =
    let (k, e) = user_get_if_exists_lem u name in
    elim (position-lookup name (accounts u)) [
      | inl (p, l) ↦ absurd (ground arith)
      | inr (i, y, p, l, g, t) ↦
          let g' : get_elem? (accounts u) i ≡ some x = ground arith in
          let y' : User = with_password x new in
          (
            assign (at_iter u k) i y',
            ground arith,
            assign_found u name i x y' k p g' refl (rw (← (found_same l found)) t),
          )
    ]

-- Changing the role of an account that exists returns USER_OK and sets its privilege level; no other
-- account changes.
pub user_change_role-Updated :
    (u : Users) (name : List ℕ) (role : ℕ) {x : User}
    → lookup_user name (accounts u) ≡ some x
    → (u' : Users) × (user_change_role u name role ≡ some (user_ok, u'))
      × Updated u u' name (record x { privilege_level = role })
unfolding user_change_role
user_change_role-Updated u name role {x} found =
    let (k, e) = user_get_if_exists_lem u name in
    elim (position-lookup name (accounts u)) [
      | inl (p, l) ↦ absurd (ground arith)
      | inr (i, y, p, l, g, t) ↦
          let g' : get_elem? (accounts u) i ≡ some x = ground arith in
          let y' : User = record x { privilege_level = role } in
          (
            assign (at_iter u k) i y',
            ground arith,
            assign_found u name i x y' k p g' refl (rw (← (found_same l found)) t),
          )
    ]

drop-all : (n : ℕ) (xs : List ℕ) → length xs ≤ n → drop n xs ≡ []
drop-all zero [] h = refl
drop-all zero (x ∷ xs) h = absurd (omega arith)
drop-all (suc n) [] h = refl
drop-all (suc n) (x ∷ xs) h = drop-all n xs (omega arith)

-- The string in an array after `user_change_password`, compared with the new password.
changed_password :
    (s new : List ℕ) (m : ℕ) (rest : List ℕ)
    → NoNul s
    → strlen new < length s + suc m
    → str_equal (memcpy (s ++ (replicate (suc m) 0 ++ rest)) new (strlen new)) new
      ≡ leb (length s) (strlen new)
unfolding strlen
changed_password s new m rest h l =
    let c = c_str-memcpy s new m rest h l in
    elim (Bool-cases (leb (length s) (length (c_str new)))) [
      | inl t ↦ rw t (
          eq-str_equal _ new
            (c ∙ rw (drop-all (length (c_str new)) s (ground arith)) (append-nil (c_str new))))
      | inr f ↦
          elim (Bool-cases
            (str_equal (memcpy (s ++ (replicate (suc m) 0 ++ rest)) new (strlen new)) new)) [
              | inl t ↦
                  let q = sym c ∙ str_equal-eq _ new t in
                  absurd (
                    omega (
                      arith,
                      ap length q,
                      length-append (c_str new) (drop (length (c_str new)) s),
                      length-drop (length (c_str new)) s,
                      leb→gt (length s) (length (c_str new)) f,
                    ))
              | inr g ↦ rw (f, g)
            ]
    ]

-- For an account whose array holds an old password `s` and one NUL or more behind it, and a new
-- password that is shorter than both together, `user_change_password` returns USER_OK, and the
-- account then opens with the new password exactly if this is at least as long as the old one: a
-- shorter one leaves the end of the old one behind it.
pub change_password-authenticate :
    (u : Users) (name new s rest : List ℕ) (m : ℕ) {x : User}
    → lookup_user name (accounts u) ≡ some x
    → x.password ≡ s ++ (replicate (suc m) 0 ++ rest)
    → NoNul s
    → strlen new < length s + suc m
    → (u' : Users) × (k : ℕ) × (user_change_password u name new ≡ some (user_ok, u'))
      × (user_authenticate u' name new
          ≡ some
              ((if leb (length s) (strlen new) then user_ok else user_wrongpassword), at_iter u' k))
unfolding authenticate_spec
change_password-authenticate u name new s rest m {x} found pw h l =
    let (u', e, d) = user_change_password-Updated u name new found in
    let upd : lookup_user name (accounts u') ≡ some (with_password x new) =
      Differs-here (accounts u) (accounts u') name (some (with_password x new)) d in
    let (k, a) = user_authenticate_lem u' name new in
    let c = changed_password s new m rest h l in (u', k, e, rw (upd, pw, c) at a)
