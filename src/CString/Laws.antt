-- ===== src/CString/Laws.antt =====
-- Laws of the C strings: `strcmp` is a linear order of what the arrays hold.
use socks5proxy.Prelude.{ℕ, ◌<◌, ◌≡◌, refl, List, [], ◌∷◌, ◌++◌, arith}
use Prim.Native.Nat.{Ordering}
use socks5proxy.CString.{c_str, compare_bytes}

pub compare_bytes_refl : (xs : List ℕ) → compare_bytes xs xs ≡ Ordering.eq
unfolding compare_bytes
compare_bytes_refl [] = refl
compare_bytes_refl (x ∷ xs) = ground (arith, compare_bytes_refl xs)

pub compare_bytes-eq : (xs ys : List ℕ) → compare_bytes xs ys ≡ Ordering.eq → xs ≡ ys
unfolding compare_bytes
compare_bytes-eq [] [] h = refl
compare_bytes-eq [] (y ∷ ys) h = cc
compare_bytes-eq (x ∷ xs) [] h = cc
compare_bytes-eq (x ∷ xs) (y ∷ ys) h = ground (arith, compare_bytes-eq xs ys)

pub compare_bytes_trans :
    (xs ys zs : List ℕ)
    → compare_bytes xs ys ≡ Ordering.lt
    → compare_bytes ys zs ≡ Ordering.lt
    → compare_bytes xs zs ≡ Ordering.lt
unfolding compare_bytes
compare_bytes_trans [] [] zs h k = cc
compare_bytes_trans [] (y ∷ ys) [] h k = cc
compare_bytes_trans [] (y ∷ ys) (z ∷ zs) h k = refl
compare_bytes_trans (x ∷ xs) [] zs h k = cc
compare_bytes_trans (x ∷ xs) (y ∷ ys) [] h k = cc
compare_bytes_trans (x ∷ xs) (y ∷ ys) (z ∷ zs) h k = ground (arith, compare_bytes_trans xs ys zs)

pub compare_bytes-gt :
    (xs ys : List ℕ) → compare_bytes xs ys ≡ Ordering.gt → compare_bytes ys xs ≡ Ordering.lt
unfolding compare_bytes
compare_bytes-gt [] [] h = cc
compare_bytes-gt [] (y ∷ ys) h = cc
compare_bytes-gt (x ∷ xs) [] h = refl
compare_bytes-gt (x ∷ xs) (y ∷ ys) h = ground (arith, compare_bytes-gt xs ys)

-- No NUL among the bytes: what `c_str` returns.
abbrev pub NoNul : List ℕ → Type 0
NoNul [] = Unit {0}
NoNul (x ∷ xs) = (0 < x) × NoNul xs

pub c_str-NoNul : (xs : List ℕ) → NoNul (c_str xs)
unfolding c_str
c_str-NoNul [] = tt
c_str-NoNul (x ∷ xs) = ground (arith, c_str-NoNul xs)

-- A string followed by NUL is read back, whatever stands behind.
pub c_str-append : (xs ys : List ℕ) → NoNul xs → c_str (xs ++ 0 ∷ ys) ≡ xs
unfolding c_str
c_str-append [] ys h = refl
c_str-append (x ∷ xs) ys h = ground (arith, c_str-append xs ys h.1)

pub c_str_of_NoNul : (xs : List ℕ) → NoNul xs → c_str xs ≡ xs
unfolding c_str
c_str_of_NoNul [] h = refl
c_str_of_NoNul (x ∷ xs) h = ground (arith, c_str_of_NoNul xs h.1)
