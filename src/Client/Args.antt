-- ===== src/Client/Args.antt =====
-- src/client/client_args.c: the command line. The arguments behind the name of the program are a
-- list; one that has been taken is NULL, `none`.
pub mod Laws
pub mod Command
use socks5proxy.Prelude.{
  ℕ, zero, suc, ◌+◌, ◌*◌, ◌-◌, Bool, true, false, not, ◌&&◌, ◌||◌, Option, none, some, List, [],
  ◌∷◌, ◌++◌, ltb, leb, ◌==◌, if◌then◌else◌, length, replicate, set, get_elem?,
}
use socks5proxy.CString.{c_str, strncpy}
use socks5proxy.Users.{str_equal}
use socks5proxy.Client.{ClientArgs}
use socks5proxy.Client.Words.{
  flag_h, flag_v, flag_l, flag_p, flag_u, word_users, word_metrics, word_add_user, word_remove_user,
  word_change_password, word_change_role, local_host,
}

-- What `parse_client_args` returns when it does not go on: 1 and -1.
pub data Stop : Type 0 where
  printed invalid : Stop

-- What it returns: 0, or one of these.
pub data ParseCode : Type 0 where
  parsed : ParseCode
  stopped : Stop → ParseCode

abbrev is_digit : ℕ → Bool
is_digit c = leb b'0' c && leb c b'9'

unfoldable all_digits : List ℕ → Bool
all_digits [] = true
all_digits (c ∷ cs) = is_digit c && all_digits cs

unfoldable pub is_number : List ℕ → Bool
unfolding all_digits
is_number s = elim (c_str s) [ [] ↦ false | c ∷ cs ↦ all_digits (c ∷ cs) ]

-- `strtol` on digits. What it does on overflow makes no difference to the caller.
unfoldable pub decimal : ℕ → List ℕ → ℕ
decimal n [] = n
decimal n (c ∷ cs) = decimal (n * 10 + (c - b'0')) cs

-- `strtok` with the delimiter ':': the token, if there is one, and what is behind it.
unfoldable skip_colons : List ℕ → List ℕ
skip_colons [] = []
skip_colons (c ∷ cs) = elim (c == b':') [ true ↦ skip_colons cs | false ↦ c ∷ cs ]

unfoldable until_colon : List ℕ → List ℕ × List ℕ
until_colon [] = ([], [])
until_colon (c ∷ cs) = elim (c == b':') [
  | true ↦ ([], cs)
  | false ↦ let (token, rest) = until_colon cs in (c ∷ token, rest)
]

unfoldable pub strtok : List ℕ → Option (List ℕ × List ℕ)
unfolding skip_colons until_colon
strtok s = elim (skip_colons s) [ [] ↦ none | c ∷ cs ↦ some (until_colon (c ∷ cs)) ]

-- `out`, and whether the argument had both parts.
unfoldable pub parse_password : ClientArgs → List ℕ → Bool × ClientArgs
parse_password out usr_pass =
    let buffer = set (strncpy (replicate 256 0) usr_pass 256) 255 0 in
    elim (strtok (c_str buffer)) [
      | none ↦ (false, out)
      | some (token, rest) ↦
          let out' = record out { user = some token } in
          elim (strtok rest) [
            | none ↦ (false, out')
            | some (token', rest') ↦ (true, record out' { password = some token' })
          ]
    ]

-- What the loop over the flags leaves: the code if the function returned, the arguments, and `out`.
abbrev pub Scanned : Type 0
Scanned = Option Stop × List (Option (List ℕ)) × ClientArgs

abbrev pub stop : Stop → ClientArgs → Scanned
stop code out = (some code, [], out)

-- The arguments that the loop has passed come first.
abbrev pub behind : List (Option (List ℕ)) → Scanned → Scanned
behind passed (code, rest, out) = (code, passed ++ rest, out)

abbrev taken : List (Option (List ℕ))
taken = none ∷ none ∷ []

-- What the loop does with the argument of `-P` and of `-u`: the code if it returns, and `out`.
unfoldable pub take_port : ClientArgs → List ℕ → Option Stop × ClientArgs
take_port out arg =
    if not (is_number arg)
    then (some invalid, out)
    else (let p = decimal 0 (c_str arg) in
        if ltb p 1 || ltb 65535 p then (some invalid, out) else (none, record out { port = p }))

unfoldable pub take_user : ClientArgs → List ℕ → Option Stop × ClientArgs
take_user out arg =
    if leb 32 out.usr_count
    then (some invalid, out)
    else (let (ok, out') = parse_password out arg in
        if ok then (none, out') else (some invalid, out'))

unfoldable pub scan_flags : List (List ℕ) → ClientArgs → Scanned
scan_flags [] out = (none, [], out)
scan_flags (a ∷ []) out =
    if str_equal a flag_h || str_equal a flag_v
    then stop printed out
    else if str_equal a flag_l || str_equal a flag_p || str_equal a flag_u
    then stop invalid out
    else (none, some a ∷ [], out)
scan_flags (a ∷ b ∷ rest) out = elim (str_equal a flag_h || str_equal a flag_v) [
  | true ↦ stop printed out
  | false ↦ elim (str_equal a flag_l) [
    | true ↦ behind taken (scan_flags rest (record out { host = b }))
    | false ↦ elim (str_equal a flag_p) [
      | true ↦
          let (code, out') = take_port out b in
          elim code [ some c ↦ stop c out' | none ↦ behind taken (scan_flags rest out') ]
      | false ↦ elim (str_equal a flag_u) [
        | true ↦
            let (code, out') = take_user out b in
            elim code [ some c ↦ stop c out' | none ↦ behind taken (scan_flags rest out') ]
        | false ↦ behind (some a ∷ []) (scan_flags (b ∷ rest) out)
      ]
    ]
  ]
]

-- How many arguments a command needs, `none` for -1.
unfoldable pub need_args : List ℕ → Option ℕ
need_args opt =
    if str_equal opt word_users
    then some 0
    else if str_equal opt word_metrics
    then some 0
    else if str_equal opt word_remove_user
    then some 1
    else if str_equal opt word_change_role
    then some 2
    else if str_equal opt word_change_password
    then some 2
    else if str_equal opt word_add_user
    then some 3
    else none

-- The first argument that is not NULL, and those behind it.
unfoldable pub find_command : List (Option (List ℕ)) → Option (List ℕ × List (Option (List ℕ)))
find_command [] = none
find_command (none ∷ argv) = find_command argv
find_command (some a ∷ argv) = some (a, argv)

-- The arguments that are not NULL.
unfoldable pub remaining : List (Option (List ℕ)) → List (List ℕ)
remaining [] = []
remaining (none ∷ argv) = remaining argv
remaining (some a ∷ argv) = a ∷ remaining argv

-- `arg1`, `arg2` and `arg3`, as many as the command needs.
unfoldable pub assign_args : ℕ → List (List ℕ) → ClientArgs → ClientArgs
assign_args n args out =
    let at : ℕ → Option (List ℕ) = λ i. if ltb i n then get_elem? args i else none in
    record out { arg1 = at 0; arg2 = at 1; arg3 = at 2 }

-- `argv` without the name of the program.
unfoldable pub parse_client_args : List (List ℕ) → ClientArgs → ParseCode × ClientArgs
parse_client_args argv out =
    let start = record out { usr_count = 0; port = 8080; host = local_host } in
    elim argv [
      | [] ↦ (stopped invalid, start)
      | a ∷ rest ↦
          let (code, argv', out₁) = scan_flags (a ∷ rest) start in
          elim code [
            | some c ↦ (stopped c, out₁)
            | none ↦ elim (find_command argv') [
              | none ↦ (stopped invalid, out₁)
              | some (command, behind_it) ↦
                  let out₂ = record out₁ { option = some command } in
                  elim (need_args command) [
                    | none ↦ (stopped invalid, out₂)
                    | some n ↦
                        let args = remaining behind_it in
                        if ltb (length args) n
                        then (stopped invalid, out₂)
                        else (parsed, assign_args n args out₂)
                  ]
            ]
          ]
    ]
