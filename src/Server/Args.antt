-- ===== src/Server/Args.antt =====
-- src/server/args.c: the command line of the server. `getopt_long` is the C library's: its answers
-- are a list of options, each with its argument if it takes one.
pub mod Laws
use socks5proxy.Prelude.{
  ℕ, suc, ◌%◌, ◌^◌, Bool, true, false, ◌||◌, not, Option, none, some, List, [], ◌∷◌, ◌++◌, ltb, leb,
  ◌==◌, if◌then◌else◌, length, get_or,
}
use socks5proxy.Buffer.{Ssize, pos, neg}

-- `exit` with a code, or a result.
pub data Parsed (A : Type 0) : Type 0 where
  ok : A → Parsed A
  exits : ℕ → Parsed A

infixl 5 ◌>>=◌
abbrev pub ◌>>=◌ : {A B : Type 0} → Parsed A → (A → Parsed B) → Parsed B
ok a >>= f = f a
exits n >>= f = exits n

-- What `strtol` found: the number, how many bytes it read, and whether it set ERANGE.
pub record Long : Type 0 where
  pub value : Ssize
  pub consumed : ℕ
  pub out_of_range : Bool

-- `struct users`
pub record Credentials : Type 0 where
  pub name : List ℕ
  pub pass : List ℕ

-- `struct socks5args`, with the first `nusers` entries of `users`.
pub record Socks5Args : Type 0 where
  pub socks_addr : List ℕ
  pub socks_port : ℕ
  pub mng_addr : List ℕ
  pub mng_port : ℕ
  pub disectors_enabled : Bool
  pub users : List Credentials

abbrev pub max_users : ℕ
max_users = 10

-- One answer of `getopt_long`.
pub record Found : Type 0 where
  pub c : ℕ
  pub optarg : List ℕ

-- "0.0.0.0"
abbrev any_address : List ℕ
any_address = b'0' ∷ b'.' ∷ b'0' ∷ b'.' ∷ b'0' ∷ b'.' ∷ b'0' ∷ []

-- What `parse_args` sets before the loop.
unfoldable pub defaults : Socks5Args
defaults = record {
  socks_addr = any_address;
  socks_port = 1080;
  mng_addr = any_address;
  mng_port = 8080;
  disectors_enabled = true;
  users = [];
}

unfoldable pub port : (List ℕ → Long) → List ℕ → Parsed ℕ
port strtol s =
    let sl = strtol s in
    if sl.consumed == 0 || not (get_or s sl.consumed 0 == 0) || sl.out_of_range
    then exits 1
    else elim sl.value [
      | neg _ ↦ exits 1
      | pos n ↦ if ltb 65535 n then exits 1 else ok (n % 2 ^ 16)
    ]

-- `strchr(s, c)`: what stands before the byte and behind it.
unfoldable pub strchr : ℕ → List ℕ → Option (List ℕ × List ℕ)
strchr c [] = none
strchr c (x ∷ xs) =
    let rest = strchr c xs in
    if x == c then some ([], xs) else elim rest [ none ↦ none | some (l, r) ↦ some (x ∷ l, r) ]

unfoldable pub user : List ℕ → Parsed Credentials
user s = elim (strchr b':' s) [
  | none ↦ exits 1
  | some (name, pass) ↦ ok (record { name = name; pass = pass })
]

-- The `switch` of the loop.
unfoldable pub handle_option : (List ℕ → Long) → Socks5Args → Found → Parsed Socks5Args
handle_option strtol args o =
    if o.c == b'h'
    then exits 1
    else if o.c == b'l'
    then ok (record args { socks_addr = o.optarg })
    else if o.c == b'L'
    then ok (record args { mng_addr = o.optarg })
    else if o.c == b'N'
    then ok (record args { disectors_enabled = false })
    else if o.c == b'p'
    then (port strtol o.optarg >>= λ n. ok (record args { socks_port = n }))
    else if o.c == b'P'
    then (port strtol o.optarg >>= λ n. ok (record args { mng_port = n }))
    else if o.c == b'u'
    then (if leb max_users (length args.users)
        then exits 1
        else user o.optarg >>= λ x. ok (record args { users = args.users ++ (x ∷ []) }))
    else if o.c == b'v'
    then exits 0
    else exits 1

unfoldable pub parse_options : (List ℕ → Long) → Socks5Args → List Found → Parsed Socks5Args
parse_options strtol args [] = ok args
parse_options strtol args (o ∷ os) =
    handle_option strtol args o >>= λ args'. parse_options strtol args' os

-- `leftover` is `optind < argc`.
unfoldable pub parse_args : (List ℕ → Long) → List Found → Bool → Parsed Socks5Args
parse_args strtol options leftover =
    parse_options strtol defaults options >>= λ args. if leftover then exits 1 else ok args
