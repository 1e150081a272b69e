-- ===== src/Users/Accounts.antt =====
-- The accounts as a map from names to `User`s.
use Prim.Native.Nat.{Ordering}
use socks5proxy.Prelude.{
  ℕ, zero, suc, ◌≡◌, refl, sym, ◌∙◌, true, false, Option, none, some, List, [], ◌∷◌, get_elem?, set,
  arith, Bool-cases, Option-cases, Ordering-cases, inl, inr, ◌⊎◌,
}
use socks5proxy.CString.{c_str, strcmp}
use socks5proxy.CString.Laws.{
  compare_bytes_refl, compare_bytes-eq, compare_bytes_trans, compare_bytes-gt,
}
use socks5proxy.ListAdt.{add_node, remove_node}
use socks5proxy.ListAdt.Order.{IsLinear, Below, Ascending}
use socks5proxy.Users.{User, user_cmp, str_equal}
use socks5proxy.Users.Find.{position}

-- The account with the name.
unfoldable pub lookup_user : List ℕ → List User → Option User
lookup_user name [] = none
lookup_user name (x ∷ xs) = elim (str_equal x.username name) [
  | true ↦ some x
  | false ↦ lookup_user name xs
]

-- `str_equal` decides that two arrays hold the same string.
pub str_equal-eq : (a b : List ℕ) → str_equal a b ≡ true → c_str a ≡ c_str b
unfolding str_equal strcmp
str_equal-eq a b h = elim (Ordering-cases (strcmp a b)) [
  | inl lt ↦ absurd (ground arith)
  | inr (inl eq) ↦ compare_bytes-eq (c_str a) (c_str b) eq
  | inr (inr gt) ↦ absurd (ground arith)
]

pub eq-str_equal : (a b : List ℕ) → c_str a ≡ c_str b → str_equal a b ≡ true
unfolding str_equal strcmp
eq-str_equal a b h = ground (arith, compare_bytes_refl (c_str a))

pub user_cmp-IsLinear : IsLinear user_cmp
unfolding user_cmp strcmp
user_cmp-IsLinear = record {
  cmp_refl = λ x. compare_bytes_refl (c_str (x.username));
  cmp_trans =
      λ x y z. compare_bytes_trans (c_str (x.username)) (c_str (y.username)) (c_str (z.username));
  cmp_eq_left = λ x y z h. cc (compare_bytes-eq (c_str (x.username)) (c_str (y.username)) h);
  cmp_eq_right = λ x y z h. cc (compare_bytes-eq (c_str (x.username)) (c_str (y.username)) h);
  cmp_flip = λ x y. compare_bytes-gt (c_str (x.username)) (c_str (y.username));
}

-- The pointer of `position` points to the account.
pub position-lookup :
    (name : List ℕ) (xs : List User)
    → ((position name xs ≡ none) × (lookup_user name xs ≡ none))
      ⊎ ((i : ℕ) × (x : User) × (position name xs ≡ some i)
          × (lookup_user name xs ≡ some x)
          × (get_elem? xs i ≡ some x)
          × (str_equal x.username name ≡ true))
unfolding position lookup_user
position-lookup name [] = inl (refl, refl)
position-lookup name (x ∷ xs) = elim (Bool-cases (str_equal x.username name)) [
  | inl t ↦ inr (0, x, ground arith, ground arith, ground arith, t)
  | inr f ↦ elim (position-lookup name xs) [
    | inl (p, l) ↦ inl (ground arith, ground arith)
    | inr (i, y, p, l, g, t) ↦ inr (suc i, y, ground arith, ground arith, g, t)
  ]
]

-- Overwriting the account that `position` found, its name kept.
pub lookup-set :
    (name j : List ℕ) (xs : List User) (i : ℕ) (x y : User)
    → position name xs ≡ some i
    → get_elem? xs i ≡ some x
    → y.username ≡ x.username
    → (lookup_user name (set xs i y) ≡ some y)
      × (str_equal x.username j ≡ false → lookup_user j (set xs i y) ≡ lookup_user j xs)
unfolding position lookup_user
lookup-set name j [] i x y p g n = absurd (ground arith)
lookup-set name j (z ∷ xs) zero x y p g n = elim (Bool-cases (str_equal z.username name)) [
  | inl t ↦ (ground arith, λ f. ground arith)
  | inr f ↦ elim (Option-cases (position name xs)) [
    | inl e ↦ absurd (ground arith)
    | inr (k, e) ↦ absurd (ground arith)
  ]
]
lookup-set name j (z ∷ xs) (suc i) x y p g n = elim (Bool-cases (str_equal z.username name)) [
  | inl t ↦ absurd (ground arith)
  | inr f ↦
      let q : position name xs ≡ some i = ground arith in
      let (a, b) = lookup-set name j xs i x y q g n in (ground arith, λ h. ground (arith, b h))
]

pub cmp-str_equal :
    (x y : User) → user_cmp x y ≡ Ordering.eq → str_equal x.username y.username ≡ true
unfolding user_cmp str_equal
cmp-str_equal x y h = ground arith

-- A new name goes in at its place, and no other account moves out of sight.
pub lookup-add :
    (x : User) (xs : List User)
    → lookup_user x.username xs ≡ none
    → (zs : List User) × (add_node user_cmp x xs ≡ some zs)
      × (lookup_user x.username zs ≡ some x)
      × ((j : List ℕ) → str_equal x.username j ≡ false → lookup_user j zs ≡ lookup_user j xs)
unfolding add_node lookup_user
lookup-add x [] h =
    let t : str_equal x.username x.username ≡ true = eq-str_equal x.username x.username refl in
    (x ∷ [], refl, ground arith, λ j f. ground arith)
lookup-add x (y ∷ ys) h = elim (Ordering-cases (user_cmp y x)) [
  | inl lt ↦
      let (zs, e, l, r) = lookup-add x ys (ground arith) in
      (y ∷ zs, ground arith, ground arith, λ j f. ground (arith, r j f))
  | inr (inl eq) ↦ absurd (ground (arith, cmp-str_equal y x eq))
  | inr (inr gt) ↦
      let t : str_equal x.username x.username ≡ true = eq-str_equal x.username x.username refl in
      (x ∷ y ∷ ys, ground arith, ground arith, λ j f. ground arith)
]

-- With the names ascending, what `remove_node` unlinks was the only account of that name.
Below-lookup :
    (x : User) (j : List ℕ) (xs : List User)
    → str_equal x.username j ≡ true
    → Below user_cmp x xs
    → lookup_user j xs ≡ none
unfolding lookup_user user_cmp strcmp
Below-lookup x j [] t b = refl
Below-lookup x j (y ∷ ys) t b = elim (Bool-cases (str_equal y.username j)) [
  | inl u ↦
      let q : c_str (x.username) ≡ c_str (y.username) =
        str_equal-eq (x.username) j t ∙ sym (str_equal-eq (y.username) j u) in
      cc (b.0, q, compare_bytes_refl (c_str (y.username)))
  | inr f ↦ ground (arith, Below-lookup x j ys t b.1)
]

pub str_equal-cmp :
    (x y : User) → str_equal x.username y.username ≡ true → user_cmp x y ≡ Ordering.eq
unfolding user_cmp strcmp
str_equal-cmp x y t =
    cc (str_equal-eq (x.username) (y.username) t, compare_bytes_refl (c_str (y.username)))

pub lookup-remove :
    (x : User) (xs : List User)
    → Ascending user_cmp xs
    → lookup_user x.username xs ≡ some x
    → (zs : List User) × (remove_node user_cmp x xs ≡ some zs)
      × (lookup_user x.username zs ≡ none)
      × ((j : List ℕ) → str_equal x.username j ≡ false → lookup_user j zs ≡ lookup_user j xs)
unfolding remove_node lookup_user
lookup-remove x [] s h = absurd (ground arith)
lookup-remove x (y ∷ ys) s h = elim (Bool-cases (str_equal y.username x.username)) [
  | inl t ↦ (
    ys,
    ground (arith, str_equal-cmp y x t),
    Below-lookup y (x.username) ys t s.0,
    λ j f. ground arith,
  )
  | inr f ↦
      let (zs, e, l, r) = lookup-remove x ys s.1 (ground arith) in
      elim (Ordering-cases (user_cmp y x)) [
        | inl lt ↦ (y ∷ zs, ground arith, ground arith, λ j g. ground (arith, r j g))
        | inr (inl eq) ↦ absurd (ground (arith, cmp-str_equal y x eq))
        | inr (inr gt) ↦ (y ∷ zs, ground arith, ground arith, λ j g. ground (arith, r j g))
      ]
]
