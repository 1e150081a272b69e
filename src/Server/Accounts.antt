-- ===== src/Server/Accounts.antt =====
-- The part of `main` in src/server/server.c that creates the users of the command line.
use socks5proxy.Prelude.{
  ℕ, ◌<◌, ◌≤◌, ◌≡◌, refl, sym, ap, ◌∙◌, Bool, true, false, Option, none, some, List, [], ◌∷◌,
  length, map, if◌then◌else◌, arith, Bool-cases, inl, inr, ◌>>=◌,
}
use socks5proxy.CString.{strlen}
use socks5proxy.Users.{
  User, Users, UserStatus, user_ok, str_equal, user_create, user_authenticate, user_total_admins,
  user_privilege_default, users_max_username_length, users_max_password_length,
}
use socks5proxy.Users.Find.{accounts, at_iter}
use socks5proxy.Users.Accounts.{lookup_user, str_equal-eq, eq-str_equal}
use socks5proxy.Users.Map.{Differs, Differs-here}
use socks5proxy.Users.Laws.{IsValid, authenticate_spec, user_authenticate_lem}
use socks5proxy.Users.Membership.{created_user, user_create-authenticate}
use socks5proxy.Server.Args.{ok, Long, Credentials, Socks5Args, max_users, defaults, parse_args}
use socks5proxy.Server.Args.Laws.{All, NoColon, option_of, parse_args-users}

-- `!= USER_OK`
unfoldable pub is_ok : UserStatus → Bool
is_ok user_ok = true
is_ok _ = false

-- The loop over `args.users`: whether every `user_create` returned USER_OK. `local` is what the new
-- `User` of a call holds before it is written; `malloc` succeeds.
pub create_users : Users → (List ℕ → User) → List Credentials → Option (Bool × Users)
create_users u local [] = some (true, u)
create_users u local (x ∷ xs) = do
  (st, u') ← user_create u (local x.name) true x.name x.pass user_privilege_default
  let rest = create_users u' local xs
  if is_ok st then rest else some (false, u')

-- No user of the list has this name.
abbrev pub Apart : List ℕ → List Credentials → Type 0
Apart name = All (λ x. str_equal x.name name ≡ false)

-- The names are free, and all different.
abbrev pub Free : List User → List Credentials → Type 0
Free accounts [] = Unit
Free accounts (x ∷ xs) = (lookup_user x.name accounts ≡ none) × Apart x.name xs × Free accounts xs

abbrev pub Short : Credentials → Type 0
Short x = (strlen x.name < users_max_username_length) × (strlen x.pass < users_max_password_length)

abbrev pub Opens : Users → Credentials → Type 0
Opens u x = (k : ℕ) × (user_authenticate u x.name x.pass ≡ some (user_ok, at_iter u k))

-- The account of a user, with its password.
abbrev Holds : Users → Credentials → Type 0
Holds u x =
    (y : User) × (lookup_user x.name (accounts u) ≡ some y) × (str_equal y.password x.pass ≡ true)

str_equal_sym : (a b : List ℕ) → str_equal a b ≡ false → str_equal b a ≡ false
str_equal_sym a b h = elim (Bool-cases (str_equal b a)) [
  | inl t ↦ absurd (cc (h, eq-str_equal a b (sym (str_equal-eq b a t))))
  | inr f ↦ f
]

-- Another name that is looked up finds what it found before.
untouched :
    (u u' : Users) (name j : List ℕ) (r : Option User)
    → Differs (accounts u) (accounts u') name r
    → str_equal name j ≡ false
    → lookup_user j (accounts u') ≡ lookup_user j (accounts u)
untouched u u' name j r d f = d j ∙ ap (λ b. if b then r else lookup_user j (accounts u)) f

Free-after :
    (u u' : Users) (name : List ℕ) (r : Option User) (xs : List Credentials)
    → Differs (accounts u) (accounts u') name r
    → Apart name xs
    → Free (accounts u) xs
    → Free (accounts u') xs
Free-after u u' name r [] d a f = tt
Free-after u u' name r (x ∷ xs) d a f = (
  untouched u u' name x.name r d (str_equal_sym x.name name a.0) ∙ f.0,
  f.1,
  Free-after u u' name r xs d a.1 f.2,
)

-- A `User` whose arrays have room, as those of `user_create` have.
abbrev pub HasRoom : (List ℕ → User) → Type 0
HasRoom local =
    (name : List ℕ)
    → (users_max_username_length ≤ length (local name).username)
      × (users_max_password_length ≤ length (local name).password)

Opens-Holds :
    (u : Users) (x : Credentials) (y : User)
    → lookup_user x.name (accounts u) ≡ some y
    → Opens u x
    → Holds u x
unfolding authenticate_spec
Opens-Holds u x y l (k, e) =
    let (k', e') = user_authenticate_lem u x.name x.pass in (y, l, ground (arith, e, e', l))

Holds-Opens : (u : Users) (x : Credentials) → Holds u x → Opens u x
unfolding authenticate_spec
Holds-Opens u x (y, l, s) =
    let (k, e) = user_authenticate_lem u x.name x.pass in (k, rw (l, s) at e)

-- The loop, with an account of another name that stays as it is.
create_users-Holds :
    (u : Users) (local : List ℕ → User) (xs : List Credentials)
    → HasRoom local
    → IsValid u
    → Free (accounts u) xs
    → All Short xs
    → (u' : Users) × (create_users u local xs ≡ some (true, u'))
      × IsValid u'
      × All (Holds u') xs
      × (user_total_admins u' ≡ user_total_admins u)
      × ((j : List ℕ) → Apart j xs → lookup_user j (accounts u') ≡ lookup_user j (accounts u))
unfolding create_users is_ok
create_users-Holds u local [] room v f s = (u, refl, v, tt, refl, λ j a. refl)
create_users-Holds u local (x ∷ xs) room v f s =
    let (u₁, k, e₁, v₁, a₁, d₁, t₁) =
      user_create-authenticate {u = u} (local x.name) x.name x.pass user_privilege_default v f.0
        s.0.0 s.0.1 (room x.name).0 (room x.name).1 in
    let y = created_user (local x.name) x.name x.pass user_privilege_default in
    let here : lookup_user x.name (accounts u₁) ≡ some y =
      Differs-here (accounts u) (accounts u₁) x.name (some y) d₁ in
    let (y', l, p) = Opens-Holds u₁ x y here (k, a₁) in
    let f₁ = Free-after u u₁ x.name (some y) xs d₁ f.1 f.2 in
    let (u', e, v', hs, t, keep) = create_users-Holds u₁ local xs room v₁ f₁ s.1 in
    (
      u',
      rw e₁ e,
      v',
      ((y', keep x.name f.1 ∙ l, p), hs),
      t ∙ t₁,
      λ j a. keep j a.1 ∙ untouched u u₁ x.name j (some y) d₁ a.0,
    )

All-Opens : (u : Users) (xs : List Credentials) → All (Holds u) xs → All (Opens u) xs
All-Opens u [] h = tt
All-Opens u (x ∷ xs) h = (Holds-Opens u x h.0, All-Opens u xs h.1)

-- Up to MAX_USERS options `-u name:pass`, whose names hold no colon, are free and all different, and
-- are below 255 bytes, as the passwords are: `parse_args` accepts them, the loop of `main` then
-- creates every user, and each account opens with its password. The list stays valid, there is no
-- new administrator, and no other account changes.
pub parse_args-create_users :
    (strtol : List ℕ → Long) (u : Users) (local : List ℕ → User) (xs : List Credentials)
    → length xs ≤ max_users
    → All NoColon xs
    → HasRoom local
    → IsValid u
    → Free (accounts u) xs
    → All Short xs
    → (args : Socks5Args) × (u' : Users) × (parse_args strtol (map option_of xs) false ≡ ok args)
      × (create_users u local args.users ≡ some (true, u'))
      × IsValid u'
      × All (Opens u') xs
      × (user_total_admins u' ≡ user_total_admins u)
      × ((j : List ℕ) → Apart j xs → lookup_user j (accounts u') ≡ lookup_user j (accounts u))
parse_args-create_users strtol u local xs l c room v f s =
    let (u', e, v', hs, t, keep) = create_users-Holds u local xs room v f s in
    (
      record defaults { users = xs },
      u',
      parse_args-users strtol xs l c,
      e,
      v',
      All-Opens u' xs hs,
      t,
      keep,
    )
