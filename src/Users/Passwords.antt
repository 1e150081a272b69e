-- ===== src/Users/Passwords.antt =====
-- What `strncpy` and `memcpy`, as src/server/users.c calls them, leave in an array.
use socks5proxy.Prelude.{
  ℕ, zero, suc, ◌+◌, ◌-◌, ◌≤◌, ◌<◌, ◌≡◌, refl, ap, ◌∙◌, List, [], ◌∷◌, ◌++◌, length, take, drop,
  replicate, set, arith, ◌==◌, Bool-cases, inl, inr,
}
use socks5proxy.CString.{c_str, strlen, memcpy, strncpy}
use socks5proxy.CString.Laws.{NoNul, c_str-NoNul, c_str-append}

take-all : (n : ℕ) (xs : List ℕ) → length xs ≤ n → take n xs ≡ xs
take-all zero [] h = refl
take-all zero (x ∷ xs) h = absurd (omega arith)
take-all (suc n) [] h = refl
take-all (suc n) (x ∷ xs) h = ap (λ t. x ∷ t) (take-all n xs (omega arith))

set-append :
    (xs ys : List ℕ) (i v : ℕ) → length xs ≤ i → set (xs ++ ys) i v ≡ xs ++ set ys (i - length xs) v
set-append [] ys i v h = let e : i - 0 ≡ i = omega arith in rw e
set-append (x ∷ xs) ys zero v h = absurd (omega arith)
set-append (x ∷ xs) ys (suc i) v h =
    let e : suc i - suc (length xs) ≡ i - length xs = omega arith in
    rw e (ap (λ t. x ∷ t) (set-append xs ys i v (omega arith)))

-- The terminator that is set just behind the padding.
set-padding :
    (m : ℕ) (rest : List ℕ)
    → 0 < length rest
    → (ys : List ℕ) × (set (replicate m 0 ++ rest) m 0 ≡ 0 ∷ ys)
set-padding zero [] h = elim h [ ]
set-padding zero (r ∷ rs) h = (rs, refl)
set-padding (suc m) rest h = (set (replicate m 0 ++ rest) m 0, refl)

length-drop-pos : (n : ℕ) (xs : List ℕ) → n < length xs → 0 < length (drop n xs)
length-drop-pos n [] h = absurd (omega arith)
length-drop-pos zero (x ∷ xs) h = omega arith
length-drop-pos (suc n) (x ∷ xs) h = length-drop-pos n xs (omega arith)

-- A string of at most `n` bytes, copied into an array of more than `n`, is the string that the array
-- then holds.
pub c_str-strncpy :
    (dst src : List ℕ) (n : ℕ)
    → strlen src ≤ n
    → n < length dst
    → c_str (set (strncpy dst src n) n 0) ≡ c_str src
unfolding strncpy strlen
c_str-strncpy dst src n h l =
    let t : take n (c_str src) ≡ c_str src = take-all n (c_str src) h in
    let (ys, e) = set-padding (n - length (c_str src)) (drop n dst) (length-drop-pos n dst l) in
    rw (t, set-append (c_str src) (replicate (n - length (c_str src)) 0 ++ drop n dst) n 0 h, e)
      (c_str-append (c_str src) ys (c_str-NoNul src))

pub take-c_str : (xs : List ℕ) → take (length (c_str xs)) xs ≡ c_str xs
unfolding c_str
take-c_str [] = refl
take-c_str (x ∷ xs) = elim (Bool-cases (x == 0)) [
  | inl t ↦ rw t
  | inr f ↦ rw f (ap (λ t. x ∷ t) (take-c_str xs))
]

c_str-append_NoNul : (xs ys : List ℕ) → NoNul xs → c_str (xs ++ ys) ≡ xs ++ c_str ys
unfolding c_str
c_str-append_NoNul [] ys h = refl
c_str-append_NoNul (x ∷ xs) ys h = ground (arith, c_str-append_NoNul xs ys h.1)

drop-nil : (n : ℕ) → drop {A = ℕ} n [] ≡ []
drop-nil zero = refl
drop-nil (suc n) = refl

c_str-drop :
    (s : List ℕ) (m n : ℕ) (rest : List ℕ)
    → NoNul s
    → n < length s + suc m
    → c_str (drop n (s ++ (replicate (suc m) 0 ++ rest))) ≡ drop n s
unfolding c_str
c_str-drop [] m zero rest h l = refl
c_str-drop [] zero (suc n) rest h l = absurd (omega arith)
c_str-drop [] (suc m) (suc n) rest h l = c_str-drop [] m n rest h (omega arith) ∙ drop-nil n
c_str-drop (x ∷ s) m zero rest h l = c_str-append (x ∷ s) (replicate m 0 ++ rest) h
c_str-drop (x ∷ s) m (suc n) rest h l = c_str-drop s m n rest h.1 (omega arith)

-- `memcpy` of a string without its terminator keeps the end of a longer old string.
pub c_str-memcpy :
    (s new : List ℕ) (m : ℕ) (rest : List ℕ)
    → NoNul s
    → strlen new < length s + suc m
    → c_str (memcpy (s ++ (replicate (suc m) 0 ++ rest)) new (strlen new))
      ≡ c_str new ++ drop (strlen new) s
unfolding memcpy strlen
c_str-memcpy s new m rest h l = rw (take-c_str new) (
    c_str-append_NoNul (c_str new) (drop (length (c_str new)) (s ++ (replicate (suc m) 0 ++ rest)))
      (c_str-NoNul new)
    ∙ ap (λ t. c_str new ++ t) (c_str-drop s m (length (c_str new)) rest h l))
