-- ===== src/Users/Listing.antt =====
-- `users_get_connected_users_list` of src/server/users.c, and what it writes.
use socks5proxy.Prelude.{
  ℕ, zero, suc, ◌+◌, ◌<◌, ◌≡◌, refl, sym, ap, ap₂, ◌∙◌, fun_ext, true, false, Option, none, some,
  List, [], ◌∷◌, ◌++◌, ltb, ◌==◌, if◌then◌else◌, length, take, drop, ◌>>=◌, assert, Memory, poke,
  store, store-poke, store-append, arith, length-append, lt→ltb,
}
use socks5proxy.CString.{c_str, strlen}
use socks5proxy.ListAdt.{ListCdt, list_begin_iter, list_has_next, list_get_next}
use socks5proxy.ListAdt.Iterator.{iterator_next, iterator_end}
use socks5proxy.Users.{User, Users, user_privilege_admin}
use socks5proxy.Users.Find.{accounts, at_iter}
use socks5proxy.Users.Passwords.{take-c_str}

-- The character before a name.
unfoldable pub mark : ℕ → ℕ
mark pl = if pl == user_privilege_admin then b'@' else b'#'

-- The loop, from `copied` bytes on.
unfoldable pub list_loop : ℕ → ListCdt User → Memory → ℕ → Option (Memory × ℕ × ListCdt User)
list_loop zero l buffer copied = none
list_loop (suc fuel) l buffer copied = elim (list_has_next l) [
  | false ↦ some (buffer, copied, l)
  | true ↦
      let (got, l') = list_get_next l in
      elim got [
        | none ↦ none
        | some (p, user) ↦
            let n = strlen user.username in
            let b₁ = poke buffer copied (mark user.privilege_level) in
            let b₂ = store b₁ (copied + 1) (take n user.username) in
            let b₃ = poke b₂ (copied + 1 + n) b'\n' in list_loop fuel l' b₃ (copied + 1 + n + 1)
      ]
]

-- `buffer` has `size` bytes. The terminating NUL stands behind every other byte that is stored.
unfoldable pub users_get_connected_users_list : Users → ℕ → Memory → ℕ → Option (Memory × ℕ × Users)
users_get_connected_users_list u size buffer from = do
  (b, copied, l) ←
      list_loop (suc (length u.users_list.head)) (list_begin_iter u.users_list) buffer from
  _ ← assert (ltb copied size)
  some (poke b copied 0, copied, record u { users_list = l })

-- The line of an account, and of all of them.
unfoldable pub line : User → List ℕ
line x = mark x.privilege_level ∷ c_str x.username ++ b'\n' ∷ []

unfoldable pub listing : List User → List ℕ
listing [] = []
listing (x ∷ xs) = line x ++ listing xs

store-line :
    (m : Memory) (i : ℕ) (x : User)
    → poke
        (store (poke m i (mark x.privilege_level)) (i + 1) (take (strlen x.username) x.username))
        (i + 1 + strlen x.username)
        b'\n'
      ≡ store m i (line x)
unfolding line strlen
store-line m i x =
    let name = c_str x.username in
    rw (take-c_str x.username) (
      ap (λ n. poke n (i + 1 + length name) b'\n')
        (store-poke m i (mark x.privilege_level) (i + 1) name (omega arith))
      ∙ fun_ext (λ k. ground (arith, ap (λ f. f k) (store-append m (i + 1) name (b'\n' ∷ [])))))

length-line : (x : User) → length (line x) ≡ strlen x.username + 2
unfolding line strlen
length-line x = omega (arith, length-append (c_str x.username) (b'\n' ∷ []))

list_loop-step :
    (fuel : ℕ) (l l' : ListCdt User) (p : ℕ) (x : User) (m : Memory) (i : ℕ)
    → list_has_next l ≡ true
    → list_get_next l ≡ (some (p, x), l')
    → list_loop (suc fuel) l m i ≡ list_loop fuel l' (store m i (line x)) (i + length (line x))
unfolding list_loop
list_loop-step fuel l l' p x m i has next =
    let at : i + 1 + strlen x.username + 1 ≡ i + length (line x) = omega (arith, length-line x) in
    rw (sym (store-line m i x), sym at) (ground (arith, has, next))

list_loop_lem :
    (fuel : ℕ) (l : ListCdt User) (rest : List User) (m : Memory) (i : ℕ)
    → drop l.iter l.head ≡ rest
    → length rest < fuel
    → (k : ℕ) × (list_loop fuel l m i
        ≡ some (store m i (listing rest), i + length (listing rest), record l { iter = k }))
unfolding list_loop listing
list_loop_lem zero l rest m i e h = elim h [ ]
list_loop_lem (suc fuel) l [] m i e h =
    let z : i + 0 ≡ i = omega arith in (l.iter, ground (arith, iterator_end l e, z))
list_loop_lem (suc fuel) l (x ∷ xs) m i e h =
    let (has, next, left) = iterator_next l e in
    let l' : ListCdt User = record l { iter = l.iter + 1 } in
    let step = list_loop-step fuel l l' l.iter x m i has next in
    let (k, ih) =
      list_loop_lem fuel l' xs (store m i (line x)) (i + length (line x)) left (omega arith) in
    let split = store-append m i (line x) (listing xs) in
    let end : i + length (line x) + length (listing xs) ≡ i + length (line x ++ listing xs) =
      omega (arith, length-append (line x) (listing xs)) in
    let end_l : ListCdt User = record l { iter = k } in
    (k, step ∙ ih ∙ ap₂ (λ a n. some (a, n, end_l)) (sym split) end)

-- With room for it and the terminating NUL, `users_get_connected_users_list` writes behind `from`,
-- for each account in the order of the list, whether connected or not, a line with its mark and its
-- name, terminates it, returns the index of the NUL, within its fuel, and moves nothing but the
-- iterator.
pub users_get_connected_users_list_lem :
    (u : Users) (size : ℕ) (m : Memory) (from : ℕ)
    → from + length (listing (accounts u)) < size
    → (k : ℕ) × (users_get_connected_users_list u size m from
        ≡ some (
          poke (store m from (listing (accounts u))) (from + length (listing (accounts u))) 0,
          from + length (listing (accounts u)),
          at_iter u k,
        ))
unfolding users_get_connected_users_list list_begin_iter
users_get_connected_users_list_lem u size m from h =
    let (k, e) =
      list_loop_lem (suc (length (accounts u))) (record (u.users_list) { iter = 0 }) (accounts u) m
        from refl (omega arith) in
    let ok = lt→ltb (from + length (listing (accounts u))) size h in (k, rw (e, ok) refl)

-- Whatever room there is, the accounts stay.
pub users_get_connected_users_list-accounts :
    (u : Users) (size : ℕ) (m : Memory) (from : ℕ) {b : Memory} {n : ℕ} {u' : Users}
    → users_get_connected_users_list u size m from ≡ some (b, n, u')
    → accounts u' ≡ accounts u
unfolding users_get_connected_users_list list_begin_iter
users_get_connected_users_list-accounts u size m from h =
    let (k, e) =
      list_loop_lem (suc (length (accounts u))) (record (u.users_list) { iter = 0 }) (accounts u) m
        from refl (omega arith) in
    ground (arith, e)
