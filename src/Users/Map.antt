-- ===== src/Users/Map.antt =====
-- One account changed, and no other name: how the functions of src/server/users.c are specified.
use socks5proxy.Prelude.{
  ℕ, ◌≡◌, refl, sym, ap, ◌∙◌, true, false, Option, List, [], ◌∷◌, arith, Bool-cases, inl, inr,
  if◌then◌else◌,
}
use socks5proxy.CString.{c_str, strcmp}
use socks5proxy.Users.{User, str_equal}
use socks5proxy.Users.Accounts.{lookup_user, str_equal-eq, eq-str_equal}

pub lookup_ext :
    (a b : List ℕ) (xs : List User) → c_str a ≡ c_str b → lookup_user a xs ≡ lookup_user b xs
unfolding lookup_user str_equal strcmp
lookup_ext a b [] h = refl
lookup_ext a b (x ∷ xs) h = ground (arith, lookup_ext a b xs h)

pub str_equal_left : (a b j : List ℕ) → c_str a ≡ c_str b → str_equal a j ≡ str_equal b j
unfolding str_equal strcmp
str_equal_left a b j h = ground arith

-- The accounts `zs` are the accounts `xs`, but for what the name stands for.
abbrev pub Differs : List User → List User → List ℕ → Option User → Type 0
Differs xs zs name r =
    (j : List ℕ) → lookup_user j zs ≡ (if str_equal name j then r else lookup_user j xs)

pub differs :
    (xs zs : List User) (name own : List ℕ) (r : Option User)
    → c_str own ≡ c_str name
    → lookup_user name zs ≡ r
    → ((j : List ℕ) → str_equal own j ≡ false → lookup_user j zs ≡ lookup_user j xs)
    → Differs xs zs name r
differs xs zs name own r c here others j = elim (Bool-cases (str_equal name j)) [
  | inl t ↦ rw t (sym (lookup_ext name j zs (str_equal-eq name j t)) ∙ here)
  | inr f ↦ rw f (others j (str_equal_left own name j c ∙ f))
]

pub Differs-here :
    (xs zs : List User) (name : List ℕ) (r : Option User)
    → Differs xs zs name r
    → lookup_user name zs ≡ r
Differs-here xs zs name r d =
    let t : str_equal name name ≡ true = eq-str_equal name name refl in
    d name ∙ ap (λ b. if b then r else lookup_user name xs) t
