-- ===== src/Client/Messages/Sends.antt =====
-- Each message of src/client/client_utils.c, byte by byte, whatever the length of its arguments.
use socks5proxy.Prelude.{
  ℕ, ◌%◌, ◌≤◌, ◌≡◌, refl, some, List, [], ◌∷◌, ◌++◌, arith, length, le→leb, take, length-append,
  length-take, ◌+◌,
}
use socks5proxy.CString.{strlen}
use socks5proxy.Client.{ClientArgs}
use socks5proxy.Client.Messages.{
  copied, send_request, counted, get_users, add_user, remove_user, change_password, change_role,
  get_metrics,
}
use socks5proxy.Client.Messages.Framing.{strlen-le, request_of, send_request_lem}

-- A string with its length in front, which is cut to one byte, and the string with it.
abbrev pub field : List ℕ → List ℕ
field arg = strlen arg % 256 ∷ take (strlen arg % 256) arg

counted-field : (arg : List ℕ) → counted arg ≡ some (field arg)
unfolding counted copied
counted-field arg = rw (le→leb (strlen arg % 256) (length arg) (omega (arith, strlen-le arg))) refl

field-length : (arg : List ℕ) → length (field arg) ≤ 256
field-length arg = let h = length-take (strlen arg % 256) arg in omega (arith, h)

joined-length :
    (xs ys : List ℕ) (m n : ℕ) → length xs ≤ m → length ys ≤ n → length (xs ++ ys) ≤ m + n
joined-length xs ys m n h k = omega (arith, h, k, length-append xs ys)

module _ (atoi : List ℕ → ℕ) (args : ClientArgs) where
  pub add_user-request :
      (x y z : List ℕ)
      → args.arg1 ≡ some x
      → args.arg2 ≡ some y
      → args.arg3 ≡ some z
      → add_user atoi args ≡ some (request_of 2 (field x ++ field y ++ atoi z % 256 ∷ []))
  unfolding add_user
  add_user-request x y z e₁ e₂ e₃ =
      let body = field x ++ field y ++ atoi z % 256 ∷ [] in
      let small : length body ≤ 513 =
        joined-length (field x ++ field y) (atoi z % 256 ∷ []) 512 1
          (joined-length (field x) (field y) 256 256 (field-length x) (field-length y))
          (omega arith) in
      let m = send_request_lem 2 body (omega arith) (omega (arith, small)) in
      rw (e₁, e₂, e₃, counted-field x, counted-field y) m

  pub remove_user-request :
      (x : List ℕ) → args.arg1 ≡ some x → remove_user args ≡ some (request_of 3 (field x))
  unfolding remove_user
  remove_user-request x e₁ =
      let m = send_request_lem 3 (field x) (omega arith) (omega (arith, field-length x)) in
      rw (e₁, counted-field x) m

  pub change_password-request :
      (x y : List ℕ)
      → args.arg1 ≡ some x
      → args.arg2 ≡ some y
      → change_password args ≡ some (request_of 4 (field x ++ field y))
  unfolding change_password
  change_password-request x y e₁ e₂ =
      let body = field x ++ field y in
      let small : length body ≤ 512 =
        joined-length (field x) (field y) 256 256 (field-length x) (field-length y) in
      let m = send_request_lem 4 body (omega arith) (omega (arith, small)) in
      rw (e₁, e₂, counted-field x, counted-field y) m

  pub change_role-request :
      (x y : List ℕ)
      → args.arg1 ≡ some x
      → args.arg2 ≡ some y
      → change_role atoi args ≡ some (request_of 5 (field x ++ atoi y % 256 ∷ []))
  unfolding change_role
  change_role-request x y e₁ e₂ =
      let body = field x ++ atoi y % 256 ∷ [] in
      let small : length body ≤ 257 =
        joined-length (field x) (atoi y % 256 ∷ []) 256 1 (field-length x) (omega arith) in
      let m = send_request_lem 5 body (omega arith) (omega (arith, small)) in
      rw (e₁, e₂, counted-field x) m

pub get_users-request : get_users ≡ some (request_of 1 [])
unfolding get_users send_request copied
get_users-request = refl

pub get_metrics-request : get_metrics ≡ some (request_of 6 [])
unfolding get_metrics send_request copied
get_metrics-request = refl
