-- ===== src/Client/Messages.antt =====
-- src/client/client_utils.c and src/client/main.c: the bytes of each message to the server. A null
-- pointer that is read is `none`.
pub mod Framing
pub mod Sends
pub mod Served
use socks5proxy.Prelude.{
  ℕ, ◌+◌, ◌/◌, ◌%◌, ◌^◌, Bool, true, false, ◌||◌, Option, none, some, List, [], ◌∷◌, ◌++◌, ltb, leb,
  ◌==◌, if◌then◌else◌, length, take, ◌>>=◌, ◌>>◌, assert,
}
use socks5proxy.CString.{strlen}
use socks5proxy.Users.{str_equal}
use socks5proxy.Client.Words.{
  word_users, word_metrics, word_add_user, word_remove_user, word_change_password, word_change_role,
}
use socks5proxy.Client.{
  protocol_version, method_users, method_add_user, method_remove_user, method_change_password,
  method_change_role, method_metrics, ClientArgs,
}

-- The two bytes of `htons(n)`.
abbrev pub htons : ℕ → List ℕ
htons n = n / 256 % 256 ∷ n % 256 ∷ []

-- `memcpy(dst, src, n)` from an array that holds at least `n` bytes.
unfoldable pub copied : ℕ → List ℕ → Option (List ℕ)
copied n src = do _ ← assert (leb n (length src)); some (take n src)

-- The bytes that `send_request` sends.
unfoldable pub send_request : ℕ → ℕ → ℕ → Option (List ℕ) → Option (List ℕ)
send_request ver method n_body body = do
  rest ← (elim body [
    | some src ↦ if ltb 0 n_body then copied n_body src else some []
    | none ↦ copied n_body []
  ])
  some (ver ∷ 0x00 ∷ htons method ++ htons n_body ++ rest)

-- A length in one byte, and that many bytes of the string.
unfoldable pub counted : List ℕ → Option (List ℕ)
counted arg = do let n = strlen arg % 256; bytes ← copied n arg; some (n ∷ bytes)

unfoldable pub get_users : Option (List ℕ)
get_users = send_request protocol_version method_users 0 none

-- `atoi` is the C library's, its result as an `unsigned`.
unfoldable pub add_user : (List ℕ → ℕ) → ClientArgs → Option (List ℕ)
add_user atoi args = do
  arg1 ← args.arg1
  arg2 ← args.arg2
  arg3 ← args.arg3
  name ← counted arg1
  password ← counted arg2
  let body = name ++ password ++ atoi arg3 % 256 ∷ []
  send_request protocol_version method_add_user (length body % 2 ^ 16) (some body)

unfoldable pub remove_user : ClientArgs → Option (List ℕ)
remove_user args = do
  arg1 ← args.arg1
  body ← counted arg1
  send_request protocol_version method_remove_user (length body % 2 ^ 16) (some body)

unfoldable pub change_password : ClientArgs → Option (List ℕ)
change_password args = do
  arg1 ← args.arg1
  arg2 ← args.arg2
  name ← counted arg1
  password ← counted arg2
  let body = name ++ password
  send_request protocol_version method_change_password (length body % 2 ^ 16) (some body)

unfoldable pub change_role : (List ℕ → ℕ) → ClientArgs → Option (List ℕ)
change_role atoi args = do
  arg1 ← args.arg1
  arg2 ← args.arg2
  name ← counted arg1
  let body = name ++ atoi arg2 % 256 ∷ []
  send_request protocol_version method_change_role (length body % 2 ^ 16) (some body)

unfoldable pub get_metrics : Option (List ℕ)
get_metrics = send_request protocol_version method_metrics 0 none

-- The part of `main` that sends the name and the password; within, `none` if they are too long.
unfoldable pub auth_message : ClientArgs → Option (Option (List ℕ))
auth_message args = do
  user ← args.user
  pass ← args.password
  let ulen = strlen user
  let plen = strlen pass
  if ltb 255 ulen || ltb 255 plen then some none else (do
    u ← copied ulen user
    p ← copied plen pass
    some (some (0x01 ∷ ulen ∷ plen ∷ u ++ p)))

-- What `main` sends for the command; nothing for another word.
unfoldable pub run_command : (List ℕ → ℕ) → ClientArgs → Option (List ℕ)
run_command atoi args = do
  option ← args.option
  if str_equal option word_users
      then get_users
      else if str_equal option word_add_user
      then add_user atoi args
      else if str_equal option word_remove_user
      then remove_user args
      else if str_equal option word_change_password
      then change_password args
      else if str_equal option word_change_role
      then change_role atoi args
      else if str_equal option word_metrics
      then get_metrics
      else some []
