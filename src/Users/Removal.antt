-- ===== src/Users/Removal.antt =====
-- Removing accounts, and the count of administrators.
use socks5proxy.Prelude.{
  ℕ, ◌+◌, ◌-◌, ◌≡◌, refl, sym, ◌∙◌, true, none, some, List, [], ◌∷◌, ◌==◌, arith, Bool-cases,
  Option-cases, Ordering-cases, inl, inr, if◌then◌else◌,
}
use socks5proxy.CString.{c_str}
use socks5proxy.ListAdt.{ListCdt, list_remove, remove_node}
use socks5proxy.ListAdt.Order.{
  Ascending, IsLinear, IsSorted, list_remove-IsSorted, list_remove_found,
}
use socks5proxy.Users.{
  User, user_ok, Users, user_privilege_admin, user_cmp, str_equal, user_remove, user_total_admins,
}
use socks5proxy.Users.Find.{accounts, at_iter, user_get_if_exists_lem}
use socks5proxy.Users.Accounts.{
  lookup_user, str_equal-eq, user_cmp-IsLinear, position-lookup, lookup-remove, str_equal-cmp,
  cmp-str_equal,
}
use socks5proxy.Users.Laws.{IsValid}
use socks5proxy.Users.Map.{lookup_ext, Differs, differs}

-- How many administrators there are.
unfoldable pub count_admins : List User → ℕ
count_admins [] = 0
count_admins (x ∷ xs) =
    (if x.privilege_level == user_privilege_admin then 1 else 0) + count_admins xs

count-remove :
    (x : User) (xs : List User) {zs : List User}
    → lookup_user x.username xs ≡ some x
    → remove_node user_cmp x xs ≡ some zs
    → count_admins xs
      ≡ (if x.privilege_level == user_privilege_admin then 1 else 0) + count_admins zs
unfolding count_admins lookup_user remove_node
count-remove x [] l r = absurd (ground arith)
count-remove x (y ∷ ys) l r = elim (Bool-cases (str_equal y.username x.username)) [
  | inl t ↦ ground (arith, str_equal-cmp y x t)
  | inr f ↦ elim (Ordering-cases (user_cmp y x)) [
    | inr (inl eq) ↦ absurd (ground (arith, cmp-str_equal y x eq))
    | inl lt ↦ elim (Option-cases (remove_node user_cmp x ys)) [
      | inl n ↦ absurd (ground arith)
      | inr (ys', e) ↦ ground (arith, count-remove x ys {zs = ys'} (ground arith) e)
    ]
    | inr (inr gt) ↦ elim (Option-cases (remove_node user_cmp x ys)) [
      | inl n ↦ absurd (ground arith)
      | inr (ys', e) ↦ ground (arith, count-remove x ys {zs = ys'} (ground arith) e)
    ]
  ]
]

-- On a valid list, removing an account that exists returns USER_OK; the name is free, the list
-- stays valid, and no other account changes. `user_total_admins` stays as it was, also where the
-- number of administrators in the list falls by one.
pub user_remove_lem :
    {u : Users} (name : List ℕ) {x : User}
    → IsValid u
    → lookup_user name (accounts u) ≡ some x
    → (u' : Users) × (user_remove u name ≡ some (user_ok, u'))
      × IsValid u'
      × Differs (accounts u) (accounts u') name none
      × (user_total_admins u' ≡ user_total_admins u)
      × (count_admins (accounts u)
          ≡ (if x.privilege_level == user_privilege_admin then 1 else 0)
            + count_admins (accounts u'))
unfolding user_remove user_total_admins
user_remove_lem {u} name {x} v found =
    let (k, e) = user_get_if_exists_lem u name in
    elim (position-lookup name (accounts u)) [
      | inl (p, l) ↦ absurd (ground arith)
      | inr (i, y, p, l, g, t) ↦
          let yx : y ≡ x = ground arith in
          let t' : str_equal (x.username) name ≡ true = rw (← yx) t in
          let cn : c_str (x.username) ≡ c_str name = str_equal-eq (x.username) name t' in
          let found' : lookup_user x.username (accounts u) ≡ some x =
            lookup_ext (x.username) name (accounts u) cn ∙ found in
          let asc : Ascending user_cmp (accounts u) = rw v.by_name at (v.sorted.ascending) in
          let (zs, r, gone, others) = lookup-remove x (accounts u) asc found' in
          let l₀ : ListCdt User = (at_iter u k).users_list in
          let l₁ : ListCdt User = record l₀ { head = zs; size = l₀.size - 1 } in
          let r' : remove_node l₀.cmp x l₀.head ≡ some zs = rw v.by_name r in
          let removed : list_remove l₀ x ≡ (true, l₁) = list_remove_found l₀ x r' in
          let lin : IsLinear l₀.cmp = rw v.by_name user_cmp-IsLinear in
          let sorted₀ : IsSorted l₀ = record {
            ascending = v.sorted.ascending;
            counted = v.sorted.counted;
          } in
          let sorted₁ : IsSorted l₁ =
            (let s : IsSorted (list_remove l₀ x).1 = list_remove-IsSorted x lin sorted₀ in
              rw removed at s) in
          (
            record u { users_list = l₁ },
            rw (e, p, g, yx, removed),
            record { by_name = v.by_name; sorted = sorted₁ },
            differs (accounts u) zs name (x.username) none cn
                (sym (lookup_ext (x.username) name zs cn) ∙ gone) others,
            refl,
            count-remove x (accounts u) found' r,
          )
    ]
