-- ===== src/Pam/Methods/Strings.antt =====
-- A string of a request, as the methods of src/server/pam/pamMethods.c read it.
use socks5proxy.Prelude.{
  ℕ, suc, ◌+◌, ◌-◌, ◌<◌, ◌≡◌, refl, ap, ap₂, ◌∙◌, some, List, ◌∷◌, ◌++◌, arith, length, Memory,
  poke, store, slice, slice-append, slice_ext, slice-store, lt→ltb,
}
use socks5proxy.Buffer.{Buffer}
use socks5proxy.CString.{c_str}
use socks5proxy.CString.Laws.{NoNul, c_str-append}
use socks5proxy.Pam.{terminate, array_255}
use socks5proxy.Pam.Bytes.{Held, buffer_read-Held, read_into_lem}
use socks5proxy.Pam.Methods.{read_string}

-- What the array holds once the bytes and the NUL are in it.
pub c_str-array :
    (garbage : Memory) (xs : List ℕ)
    → NoNul xs
    → length xs < 255
    → c_str (array_255 (poke (store garbage 0 xs) (length xs) 0)) ≡ xs
unfolding array_255
c_str-array garbage xs h lt =
    let n = length xs in
    let m : Memory = poke (store garbage 0 xs) n 0 in
    let whole : 255 ≡ n + suc (254 - n) = omega (arith, lt) in
    let front : slice m 0 n ≡ xs =
      slice_ext m (store garbage 0 xs) 0 0 n (λ k p. ground arith) ∙ slice-store garbage 0 xs in
    let nul : m (0 + n) ≡ 0 = ground arith in
    let split : slice m 0 255 ≡ xs ++ 0 ∷ slice m (0 + n + 1) (254 - n) =
      ap (slice m 0) whole
      ∙ slice-append m 0 n (suc (254 - n))
      ∙ ap₂ (λ a b. a ++ b ∷ slice m (0 + n + 1) (254 - n)) front nul in
    ap c_str split ∙ c_str-append xs (slice m (0 + n + 1) (254 - n)) h

-- A length below 255, and a string of that length, are read back.
pub read_string_lem :
    (garbage : Memory) (xs ys : List ℕ) (b : Buffer) {l w : ℕ}
    → Held b (length xs ∷ xs ++ ys) l w
    → NoNul xs
    → length xs < 255
    → (s : List ℕ) × (b' : Buffer) × (read_string garbage b ≡ some (s, b'))
      × (c_str s ≡ xs)
      × Held b' ys l w
unfolding read_string terminate
read_string_lem garbage xs ys b h n lt =
    let (b₁, e₁, k₁) = buffer_read-Held h in
    let (b₂, e₂, k₂) = read_into_lem xs ys 0 b₁ garbage k₁ in
    (
      array_255 (poke (store garbage 0 xs) (length xs) 0),
      b₂,
      rw (e₁, e₂, lt→ltb (length xs) 255 lt) refl,
      c_str-array garbage xs n lt,
      k₂,
    )
