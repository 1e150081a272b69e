-- ===== src/Users/Membership.antt =====
-- Creating and removing accounts, and the count of administrators.
use socks5proxy.Prelude.{
  ℕ, ◌+◌, ◌-◌, ◌≤◌, ◌<◌, ◌≡◌, refl, sym, ◌∙◌, Bool, true, false, none, some, List, leb, ◌==◌,
  length, set, arith, Bool-cases, inl, inr, if◌then◌else◌, gt→leb, ◌⊎◌, ap, Option-cases,
}
use socks5proxy.CString.{c_str, strlen, strncpy}
use socks5proxy.ListAdt.{ListCdt, add_node, list_add}
use socks5proxy.ListAdt.Order.{IsLinear, IsSorted, list_add-IsSorted}
use socks5proxy.Users.{
  User, UserStatus, user_ok, user_alreadyexists, user_credtoolong, Users, users_max_username_length,
  users_max_password_length, user_privilege_admin, user_cmp, str_equal, user_create,
  user_authenticate, user_total_admins,
}
use socks5proxy.Users.Find.{position, accounts, at_iter, user_get_if_exists_lem}
use socks5proxy.Users.Accounts.{
  lookup_user, eq-str_equal, user_cmp-IsLinear, position-lookup, lookup-add,
}
use socks5proxy.Users.Map.{lookup_ext, Differs, differs}
use socks5proxy.Users.Passwords.{c_str-strncpy}
use socks5proxy.Users.Laws.{IsValid, authenticate_spec, user_authenticate_lem}

pub unfound :
    (name : List ℕ) (xs : List User) → lookup_user name xs ≡ none → position name xs ≡ none
unfound name xs h = elim (position-lookup name xs) [
  | inl (p, l) ↦ p
  | inr (i, y, p, l, g, t) ↦ absurd (ground arith)
]

-- Too long for `user_create`.
abbrev pub TooLong : List ℕ → List ℕ → Type 0
TooLong name password =
    (users_max_username_length ≤ strlen name) ⊎ (users_max_password_length ≤ strlen password)

-- Neither of them is.
abbrev pub Fits : List ℕ → List ℕ → Type 0
Fits name password =
    (strlen name < users_max_username_length) × (strlen password < users_max_password_length)

abbrev pub counted_admins : ℕ → ℕ → ℕ
counted_admins pl n = if pl == user_privilege_admin then n + 1 else n

-- What `user_create` puts into the list.
abbrev pub created_user : User → List ℕ → List ℕ → ℕ → User
created_user local name password pl = record {
  username =
      set (strncpy (local.username) name (users_max_username_length - 1))
        (users_max_username_length - 1) 0;
  password =
      set (strncpy (local.password) password (users_max_password_length - 1))
        (users_max_password_length - 1) 0;
  privilege_level = pl;
}

-- The list after `list_add`, unless there was memory.
listed :
    (l : ListCdt User) (x : User) (alloc : Bool) → (alloc ≡ true) ⊎ ((list_add l x alloc).1 ≡ l)
unfolding list_add
listed l x true = inl refl
listed l x false = elim (Option-cases (add_node l.cmp x l.head)) [
  | inl n ↦ inr (ground (arith, n))
  | inr (zs, n) ↦ inr (ground (arith, n))
]

-- For any credentials and accounts, `user_create` returns, and one of three things is true. A name or
-- a password of 255 bytes or more is refused with USER_CREDTOOLONG, and nothing changes. One that
-- fits, but is taken, is refused with USER_ALREADYEXISTS, and no account and no count changes. And
-- for one that fits and is free the status is USER_OK, and an administrator is counted, whether
-- `list_add` finds memory or not; without memory no account changes.
pub user_create_status :
    (u : Users) (local : User) (alloc : Bool) (name password : List ℕ) (pl : ℕ)
    → (st : UserStatus) × (u' : Users) × (user_create u local alloc name password pl
        ≡ some (st, u'))
      × ((TooLong name password × (st ≡ user_credtoolong) × (u' ≡ u))
          ⊎ ((Fits name password
                × ((x : User) × (lookup_user name (accounts u) ≡ some x))
                × (st ≡ user_alreadyexists)
                × (accounts u' ≡ accounts u)
                × (user_total_admins u' ≡ user_total_admins u))
              ⊎ (Fits name password
                  × (lookup_user name (accounts u) ≡ none)
                  × (st ≡ user_ok)
                  × (user_total_admins u' ≡ counted_admins pl (user_total_admins u))
                  × ((alloc ≡ true) ⊎ (accounts u' ≡ accounts u)))))
unfolding user_create user_total_admins
user_create_status u local alloc name password pl =
    let (k, e) = user_get_if_exists_lem u name in
    elim (Bool-cases (leb users_max_username_length (strlen name))) [
      | inl t ↦ (user_credtoolong, u, rw t refl, inl (inl (ground arith), refl, refl))
      | inr f ↦ elim (Bool-cases (leb users_max_password_length (strlen password))) [
        | inl t ↦ (user_credtoolong, u, rw (f, t) refl, inl (inr (ground arith), refl, refl))
        | inr g ↦
            let fits : Fits name password = (ground arith, ground arith) in
            elim (position-lookup name (accounts u)) [
              | inr (i, y, p, l, h, t) ↦ (
                user_alreadyexists,
                at_iter u k,
                rw (f, g, e, p) refl,
                inr (inl (fits, (y, l), refl, refl, refl)),
              )
              | inl (p, l) ↦ (
                user_ok,
                record {
                  users_list =
                      (list_add (at_iter u k).users_list (created_user local name password pl)
                        alloc).1;
                  total_admins = counted_admins pl u.total_admins;
                },
                rw (f, g, e, p) refl,
                inr (
                    inr (
                      fits,
                      l,
                      refl,
                      refl,
                      elim (listed (at_iter u k).users_list (created_user local name password pl)
                          alloc) [ inl t ↦ inl t | inr q ↦ inr (ap (λ l. l.head) q) ],
                    )),
              )
            ]
      ]
    ]

created_list :
    (l : ListCdt User) (x : User)
    → l.cmp ≡ user_cmp
    → lookup_user x.username l.head ≡ none
    → (zs : List User) × ((list_add l x true).1 ≡ record l { head = zs; size = l.size + 1 })
      × (lookup_user x.username zs ≡ some x)
      × ((j : List ℕ) → str_equal x.username j ≡ false → lookup_user j zs ≡ lookup_user j l.head)
unfolding list_add
created_list l x by_name h =
    let (zs, e, l₁, r) = lookup-add x l.head h in (zs, ground (arith, by_name, e), l₁, r)

-- On a valid list, with a free name, a name and a password below 255 bytes, arrays of at least 255
-- bytes in the new `User`, and memory for the node, `user_create` returns USER_OK: the account
-- opens with its password, the list stays valid, no other account changes, and `user_total_admins`
-- grows by one for an administrator and stays for another.
pub user_create-authenticate :
    {u : Users} (local : User) (name password : List ℕ) (pl : ℕ)
    → IsValid u
    → lookup_user name (accounts u) ≡ none
    → strlen name < users_max_username_length
    → strlen password < users_max_password_length
    → users_max_username_length ≤ length local.username
    → users_max_password_length ≤ length local.password
    → (u' : Users) × (k : ℕ) × (user_create u local true name password pl ≡ some (user_ok, u'))
      × IsValid u'
      × (user_authenticate u' name password ≡ some (user_ok, at_iter u' k))
      × Differs (accounts u) (accounts u') name (some (created_user local name password pl))
      × (user_total_admins u'
          ≡ (if pl == user_privilege_admin then user_total_admins u + 1 else user_total_admins u))
unfolding user_create user_total_admins authenticate_spec
user_create-authenticate {u} local name password pl v free ln lp lu lw =
    let x : User = created_user local name password pl in
    let (k, e) = user_get_if_exists_lem u name in
    let cn : c_str (x.username) ≡ c_str name =
      c_str-strncpy (local.username) name 254 (omega (arith, ln)) (omega (arith, lu)) in
    let cp : c_str (x.password) ≡ c_str password =
      c_str-strncpy (local.password) password 254 (omega (arith, lp)) (omega (arith, lw)) in
    let free' : lookup_user x.username (accounts u) ≡ none =
      lookup_ext (x.username) name (accounts u) cn ∙ free in
    let l₀ : ListCdt User = (at_iter u k).users_list in
    let (zs, added, found, others) = created_list l₀ x v.by_name free' in
    let lin : IsLinear l₀.cmp = rw v.by_name user_cmp-IsLinear in
    let sorted₀ : IsSorted l₀ = record {
      ascending = v.sorted.ascending;
      counted = v.sorted.counted;
    } in
    let l₁ : ListCdt User = record l₀ { head = zs; size = l₀.size + 1 } in
    let sorted₁ : IsSorted l₁ = rw added at (list_add-IsSorted x true lin sorted₀) in
    let u' : Users = record {
      users_list = l₁;
      total_admins = if pl == user_privilege_admin then u.total_admins + 1 else u.total_admins;
    } in
    let (k', a) = user_authenticate_lem u' name password in
    let found' : lookup_user name zs ≡ some x = sym (lookup_ext (x.username) name zs cn) ∙ found in
    let opens : str_equal (x.password) password ≡ true = eq-str_equal (x.password) password cp in
    let p : position name (accounts u) ≡ none = unfound name (accounts u) free in
    let f = gt→leb users_max_username_length (strlen name) ln in
    let g = gt→leb users_max_password_length (strlen password) lp in
    (
      u',
      k',
      rw (f, g, e, p, added),
      record { by_name = v.by_name; sorted = sorted₁ },
      rw (found', opens) at a,
      differs (accounts u) zs name (x.username) (some x) cn found' others,
      ground arith,
    )
