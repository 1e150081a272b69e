-- ===== src/Users/Find.antt =====
-- `user_get_if_exists` finds the account with the name, and nothing else changes.
use socks5proxy.Prelude.{
  ℕ, zero, suc, ◌+◌, ◌<◌, ◌≡◌, refl, ap, true, false, Option, none, some, List, [], ◌∷◌, length,
  arith, ◌>>=◌, drop, Bool-cases, inl, inr, Option-cases,
}
use socks5proxy.ListAdt.{ListCdt, list_begin_iter}
use socks5proxy.ListAdt.Iterator.{iterator_next, iterator_end}
use socks5proxy.Users.{User, Users, str_equal, find_loop, user_get_if_exists}

-- The number of nodes before the first with the name.
unfoldable pub position : List ℕ → List User → Option ℕ
position name [] = none
position name (x ∷ xs) = elim (str_equal x.username name) [
  | true ↦ some 0
  | false ↦ do i ← position name xs; some (i + 1)
]

-- `position`, counted from the iterator on
abbrev shift : ℕ → Option ℕ → Option ℕ
shift k none = none
shift k (some i) = some (k + i)

shift_zero : (o : Option ℕ) → shift 0 o ≡ o
shift_zero none = refl
shift_zero (some i) = ap some (omega arith)

find_loop_lem :
    (name : List ℕ) (fuel : ℕ) (l : ListCdt User) (rest : List User)
    → drop l.iter l.head ≡ rest
    → length rest < fuel
    → (k : ℕ) × (find_loop fuel l name
        ≡ some (shift l.iter (position name rest), record l { iter = k }))
unfolding find_loop position
find_loop_lem name zero l rest e h = elim h [ ]
find_loop_lem name (suc fuel) l [] e h = (l.iter, ground (arith, iterator_end l e))
find_loop_lem name (suc fuel) l (x ∷ xs) e h =
    let (has, next, left) = iterator_next l e in
    let l' : ListCdt User = record l { iter = l.iter + 1 } in
    let (k, ih) = find_loop_lem name fuel l' xs left (omega arith) in
    elim (Bool-cases (str_equal x.username name)) [
      | inl t ↦ (l.iter + 1, ground (arith, has, next))
      | inr f ↦ elim (Option-cases (position name xs)) [
        | inl n ↦ (k, ground (arith, has, next, ih))
        | inr (i, s) ↦ (k, ground (arith, has, next, ih))
      ]
    ]

-- The accounts, as a list; every function but the iterator's state depends on no more.
abbrev pub accounts : Users → List User
accounts u = u.users_list.head

-- The accounts with the iterator left at `k`.
abbrev pub at_iter : Users → ℕ → Users
at_iter u k = record u { users_list = record (u.users_list) { iter = k } }

-- `user_get_if_exists` returns the first account with the name, or NULL if there is none, within its
-- fuel, and moves nothing but the iterator.
pub user_get_if_exists_lem :
    (u : Users) (name : List ℕ)
    → (k : ℕ) × (user_get_if_exists u name ≡ some (position name (accounts u), at_iter u k))
unfolding user_get_if_exists list_begin_iter
user_get_if_exists_lem u name =
    let (k, e) =
      find_loop_lem name (suc (length (accounts u))) (record (u.users_list) { iter = 0 })
        (accounts u) refl (omega arith) in
    (k, ground (arith, e, shift_zero (position name (accounts u))))
