-- ===== src/CString.antt =====
-- The functions of <string.h> that the program calls, over byte arrays as lists of bytes.
pub mod Laws
use socks5proxy.Prelude.{
  ℕ, zero, suc, ◌-◌, List, [], ◌∷◌, ◌++◌, ◌==◌, if◌then◌else◌, length, take, drop, replicate, set,
}
use Prim.Native.Nat.{Ordering, compare}

-- The string that an array holds: its bytes before the first NUL.
unfoldable pub c_str : List ℕ → List ℕ
c_str [] = []
c_str (x ∷ xs) = if x == 0 then [] else x ∷ c_str xs

unfoldable pub strlen : List ℕ → ℕ
strlen s = length (c_str s)

-- The order of two strings without NUL, byte by byte.
unfoldable pub compare_bytes : List ℕ → List ℕ → Ordering
compare_bytes [] [] = Ordering.eq
compare_bytes [] (y ∷ ys) = Ordering.lt
compare_bytes (x ∷ xs) [] = Ordering.gt
compare_bytes (x ∷ xs) (y ∷ ys) = elim (compare x y) [
  | Ordering.lt ↦ Ordering.lt
  | Ordering.gt ↦ Ordering.gt
  | Ordering.eq ↦ compare_bytes xs ys
]

-- The sign of what `strcmp` returns.
unfoldable pub strcmp : List ℕ → List ℕ → Ordering
strcmp a b = compare_bytes (c_str a) (c_str b)

-- `memcpy(dst, src, n)`
unfoldable pub memcpy : List ℕ → List ℕ → ℕ → List ℕ
memcpy dst src n = take n src ++ drop n dst

-- `strncpy(dst, src, n)`: the string, then NULs up to `n` bytes.
unfoldable pub strncpy : List ℕ → List ℕ → ℕ → List ℕ
strncpy dst src n = let s = take n (c_str src) in s ++ (replicate (n - length s) 0 ++ drop n dst)
