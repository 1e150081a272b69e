-- ===== src/Client/Messages/Framing.antt =====
-- The messages of the client, byte by byte.
use socks5proxy.Prelude.{
  ℕ, ◌/◌, ◌%◌, ◌^◌, ◌≤◌, ◌<◌, ◌≡◌, refl, sym, ap, ◌∙◌, some, List, [], ◌∷◌, ltb, ◌==◌, arith,
  length, take, take_append_left, append-nil, le→leb, Bool-cases, inl, inr, if◌then◌else◌,
}
use socks5proxy.CString.{c_str, strlen}
use socks5proxy.Users.Passwords.{take-c_str}
use socks5proxy.Client.{protocol_version}
use socks5proxy.Client.Messages.{copied, send_request, counted}
use socks5proxy.Pam.Request.Laws.{request_bytes}

take-length : (xs : List ℕ) → take (length xs) xs ≡ xs
take-length xs = ap (take (length xs)) (sym (append-nil xs)) ∙ take_append_left xs []

-- A request for `method` with this body.
abbrev pub request_of : ℕ → List ℕ → List ℕ
request_of method body =
    request_bytes (method / 256) (method % 256) (length body / 256) (length body % 256) body

sent_body :
    (body : List ℕ)
    → (if ltb 0 (length body) then copied (length body) body else some []) ≡ some body
unfolding copied
sent_body [] = refl
sent_body (x ∷ xs) =
    let n = length (x ∷ xs) in ground (arith, le→leb n n (omega arith), take-length (x ∷ xs))

pub send_request_lem :
    (method : ℕ) (body : List ℕ)
    → method < 65536
    → length body < 65536
    → send_request protocol_version method (length body % 2 ^ 16) (some body)
      ≡ some (request_of method body)
unfolding send_request
send_request_lem method body m l =
    let n : length body % 2 ^ 16 ≡ length body = omega (arith, l) in
    let a : method / 256 % 256 ≡ method / 256 = omega (arith, m) in
    let b : length body / 256 % 256 ≡ length body / 256 = omega (arith, l) in
    rw (n, a, b) (ground (arith, sent_body body))

pub strlen-le : (xs : List ℕ) → strlen xs ≤ length xs
unfolding strlen c_str
strlen-le [] = omega arith
strlen-le (x ∷ xs) =
    let h = strlen-le xs in
    elim (Bool-cases (x == 0)) [ inl t ↦ rw t (omega arith) | inr f ↦ rw f (omega (arith, h)) ]

pub copied_lem : (arg : List ℕ) → copied (strlen arg) arg ≡ some (c_str arg)
unfolding copied strlen
copied_lem arg = rw (le→leb (length (c_str arg)) (length arg) (strlen-le arg), take-c_str arg) refl

pub counted_lem :
    (arg : List ℕ) → strlen arg < 256 → counted arg ≡ some (length (c_str arg) ∷ c_str arg)
unfolding counted strlen
counted_lem arg h =
    let n : length (c_str arg) % 256 ≡ length (c_str arg) = omega (arith, h) in
    rw (n, copied_lem arg) refl
