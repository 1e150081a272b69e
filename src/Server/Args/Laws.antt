-- ===== src/Server/Args/Laws.antt =====
-- What an accepted command line of the server gives (src/server/args.c).
use socks5proxy.Prelude.{
  ℕ, ◌+◌, ◌≤◌, ◌≡◌, refl, sym, ap, subst, ◌∙◌, ◌⊎◌, Bool, false, some, List, [], ◌∷◌, ◌++◌, leb,
  ◌==◌, length, map, arith, Bool-cases, Option-cases, inl, inr, length-append, append_assoc,
  append-nil, gt→leb,
}
use socks5proxy.Server.Args.{
  Parsed, ok, exits, Long, Credentials, Socks5Args, max_users, Found, defaults, port, strchr, user,
  handle_option, parse_options, parse_args,
}

-- No byte of the list is `c`.
abbrev pub Lacks : ℕ → List ℕ → Type 0
Lacks c [] = Unit
Lacks c (x ∷ xs) = ((x == c) ≡ false) × Lacks c xs

abbrev pub All : (Credentials → Type 0) → List Credentials → Type 0
All P [] = Unit
All P (x ∷ xs) = P x × All P xs

All-append :
    (P : Credentials → Type 0) (xs : List Credentials) (y : Credentials)
    → All P xs
    → P y
    → All P (xs ++ y ∷ [])
All-append P [] y a p = (p, tt)
All-append P (x ∷ xs) y a p = (a.0, All-append P xs y a.1 p)

abbrev pub NoColon : Credentials → Type 0
NoColon x = Lacks b':' x.name

-- The ranges of the ports, the bound of the array, and that a name ends before the first colon.
pub record InRange (args : Socks5Args) : Type 0 where
  pub socks : args.socks_port ≤ 65535
  pub mng : args.mng_port ≤ 65535
  pub room : length args.users ≤ max_users
  pub names : All NoColon args.users

port-le : (strtol : List ℕ → Long) (s : List ℕ) {n : ℕ} → port strtol s ≡ ok n → n ≤ 65535
unfolding port
port-le strtol s e = ground arith

strchr-Lacks : (c : ℕ) (s : List ℕ) {l r : List ℕ} → strchr c s ≡ some (l, r) → Lacks c l
unfolding strchr
strchr-Lacks c [] e = absurd (ground arith)
strchr-Lacks c (x ∷ xs) {l} {r} e = elim (Bool-cases (x == c)) [
  | inl t ↦ let q : [] ≡ l = ground arith in subst (Lacks c) q tt
  | inr f ↦ elim (Option-cases (strchr c xs)) [
    | inl n ↦ absurd (ground arith)
    | inr ((l', r'), m) ↦
        let q : x ∷ l' ≡ l = ground arith in subst (Lacks c) q (f, strchr-Lacks c xs m)
  ]
]

strchr-append : (c : ℕ) (l r : List ℕ) → Lacks c l → strchr c (l ++ c ∷ r) ≡ some (l, r)
unfolding strchr
strchr-append c [] r h = ground arith
strchr-append c (x ∷ l) r h = rw (h.0, strchr-append c l r h.1) refl

user-NoColon : (s : List ℕ) {x : Credentials} → user s ≡ ok x → NoColon x
unfolding user
user-NoColon s {x} e = elim (Option-cases (strchr b':' s)) [
  | inl n ↦ absurd (ground arith)
  | inr ((l, r), m) ↦
      let q : l ≡ x.name = ground arith in subst (Lacks b':') q (strchr-Lacks b':' s m)
]

-- The text that stands for the credentials on the command line.
abbrev pub argument : Credentials → List ℕ
argument x = x.name ++ b':' ∷ x.pass

user_lem : (x : Credentials) → NoColon x → user (argument x) ≡ ok x
unfolding user
user_lem x h = rw (strchr-append b':' x.name x.pass h, user) refl

Parsed-cases : {A : Type 0} (r : Parsed A) → ((a : A) × (r ≡ ok a)) ⊎ ((n : ℕ) × (r ≡ exits n))
Parsed-cases (ok a) = inl (a, refl)
Parsed-cases (exits n) = inr (n, refl)

-- The case `u` of the loop, and the two that read a port.
with_user-InRange :
    (args : Socks5Args) (x : Credentials)
    → InRange args
    → leb max_users (length args.users) ≡ false
    → NoColon x
    → InRange (record args { users = args.users ++ x ∷ [] })
with_user-InRange args x v l h = record {
  socks = v.socks;
  mng = v.mng;
  room = ground (arith, length-append args.users (x ∷ []));
  names = All-append NoColon args.users x v.names h;
}

handle_option-InRange :
    (strtol : List ℕ → Long) (args : Socks5Args) (o : Found) {args' : Socks5Args}
    → InRange args
    → handle_option strtol args o ≡ ok args'
    → InRange args'
unfolding handle_option
handle_option-InRange strtol args o {args'} v e = elim (Bool-cases (o.c == b'u')) [
  | inl is_u ↦ elim (Bool-cases (leb max_users (length args.users))) [
    | inl full ↦ absurd (ground arith)
    | inr room ↦ elim (Parsed-cases (user o.optarg)) [
      | inr (m, q) ↦ absurd (ground arith)
      | inl (x, q) ↦
          let same : record args { users = args.users ++ x ∷ [] } ≡ args' = ground arith in
          subst InRange same (with_user-InRange args x v room (user-NoColon o.optarg q))
    ]
  ]
  | inr not_u ↦ elim (Parsed-cases (port strtol o.optarg)) [
    | inl (n, p) ↦
        let le = port-le strtol o.optarg p in ground (arith, v.socks, v.mng, v.room, v.names)
    | inr (n, p) ↦ ground (arith, v.socks, v.mng, v.room, v.names)
  ]
]

parse_options-InRange :
    (strtol : List ℕ → Long) (args : Socks5Args) (os : List Found) {args' : Socks5Args}
    → InRange args
    → parse_options strtol args os ≡ ok args'
    → InRange args'
unfolding parse_options
parse_options-InRange strtol args [] v e =
    let same : args ≡ _ = ground arith in subst InRange same v
parse_options-InRange strtol args (o ∷ os) v e = elim (Parsed-cases (handle_option strtol args o)) [
  | inl (a, q) ↦
      parse_options-InRange strtol a os (handle_option-InRange strtol args o v q) (ground arith)
  | inr (n, q) ↦ absurd (ground arith)
]

-- Whatever the options and the arguments that were found, when `parse_args` returns, both ports fit
-- 16 bits, there are at most MAX_USERS users, and no name holds a colon.
pub parse_args-InRange :
    (strtol : List ℕ → Long) (options : List Found) (leftover : Bool) {args : Socks5Args}
    → parse_args strtol options leftover ≡ ok args
    → InRange args
unfolding parse_args defaults
parse_args-InRange strtol options leftover {args} e =
    let start : InRange defaults = record {
      socks = omega arith;
      mng = omega arith;
      room = omega arith;
      names = tt;
    } in
    elim (Parsed-cases (parse_options strtol defaults options)) [
      | inl (a, q) ↦
          let same : a ≡ args = ground arith in
          subst InRange same (parse_options-InRange strtol defaults options start q)
      | inr (n, q) ↦ absurd (ground arith)
    ]

-- `-u name:pass`
abbrev pub option_of : Credentials → Found
option_of x = record { c = b'u'; optarg = argument x }

parse_options-users :
    (strtol : List ℕ → Long) (args : Socks5Args) (xs : List Credentials)
    → length args.users + length xs ≤ max_users
    → All NoColon xs
    → parse_options strtol args (map option_of xs) ≡ ok (record args { users = args.users ++ xs })
unfolding parse_options handle_option
parse_options-users strtol args [] l h =
    ap (λ us. ok (record args { users = us })) (sym (append-nil args.users))
parse_options-users strtol args (x ∷ xs) l h =
    let room : leb max_users (length args.users) ≡ false =
      gt→leb max_users (length args.users) (omega (arith, l)) in
    let l' = length-append args.users (x ∷ []) in
    rw (room, user_lem x h.0)
      (parse_options-users strtol (record args { users = args.users ++ x ∷ [] }) xs
          (omega (arith, l, l')) h.1
        ∙ ap (λ us. ok (record args { users = us })) (append_assoc args.users (x ∷ []) xs))

-- Up to MAX_USERS options `-u name:pass`, whose names hold no colon, give these users in this order,
-- whatever the passwords are, and the defaults otherwise.
pub parse_args-users :
    (strtol : List ℕ → Long) (xs : List Credentials)
    → length xs ≤ max_users
    → All NoColon xs
    → parse_args strtol (map option_of xs) false ≡ ok (record defaults { users = xs })
unfolding parse_args defaults
parse_args-users strtol xs l h =
    rw (parse_options-users strtol defaults xs (omega (arith, l)) h) refl
