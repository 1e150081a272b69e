-- ===== src/Server/Logger/Lines.antt =====
-- A line of the log is cut to the size of its array, and still ends (src/server/logger.c).
use socks5proxy.Prelude.{
  ℕ, suc, ◌+◌, ◌-◌, ◌≤◌, ◌<◌, ◌≡◌, refl, sym, ap, ◌∙◌, Bool, true, false, some, List, [], ◌∷◌, ◌++◌,
  ltb, leb, if◌then◌else◌, length, take, arith, Bool-cases, inl, inr, lt→ltb, ltb→lt, gt→leb,
  le→leb, length-append, length-take, zero,
}
use socks5proxy.Server.Logger.{max_log_size, format_log_message}

ltb→le : (a b : ℕ) → ltb a b ≡ false → b ≤ a
ltb→le a b h = ground arith

if-some : (b : Bool) (x y : List ℕ) → (if b then some x else some y) ≡ some (if b then x else y)
if-some true x y = refl
if-some false x y = refl

-- What `format_log_message` is to do with a line: leave it, if it fits, or end it by "...".
unfoldable pub shortened : List ℕ → List ℕ
shortened line =
    if ltb (length line) (max_log_size - 1)
    then line
    else take (max_log_size - 5) line ++ b'.' ∷ b'.' ∷ b'.' ∷ b'\n' ∷ []

take-append_left : (n : ℕ) (xs ys : List ℕ) → n ≤ length xs → take n (xs ++ ys) ≡ take n xs
take-append_left zero xs ys h = refl
take-append_left (suc n) [] ys h = absurd (omega arith)
take-append_left (suc n) (x ∷ xs) ys h = ap (λ t. x ∷ t) (take-append_left n xs ys (omega arith))

take-append_right : (n : ℕ) (xs ys : List ℕ) → take (length xs + n) (xs ++ ys) ≡ xs ++ take n ys
take-append_right n [] ys = let e : 0 + n ≡ n = omega arith in rw e
take-append_right n (x ∷ xs) ys =
    let e : suc (length xs) + n ≡ suc (length xs + n) = omega arith in
    rw e (ap (λ t. x ∷ t) (take-append_right n xs ys))

take-take : (n k : ℕ) (xs : List ℕ) → n ≤ k → take n (take k xs) ≡ take n xs
take-take zero k xs h = refl
take-take (suc n) zero xs h = absurd (omega arith)
take-take (suc n) (suc k) [] h = refl
take-take (suc n) (suc k) (x ∷ xs) h = ap (λ t. x ∷ t) (take-take n k xs (omega arith))

take_long : (n : ℕ) (xs : List ℕ) → length xs ≤ n → take n xs ≡ xs
take_long zero [] h = refl
take_long zero (x ∷ xs) h = absurd (omega arith)
take_long (suc n) [] h = refl
take_long (suc n) (x ∷ xs) h = ap (λ t. x ∷ t) (take_long n xs (omega arith))

-- What the second `snprintf` leaves of the whole line.
abbrev stored : List ℕ → List ℕ → List ℕ
stored prefix text =
    prefix ++ take (max_log_size - length prefix - 1) (take (max_log_size - 1) text ++ b'\n' ∷ [])

cut_body :
    (k : ℕ) (text tail : List ℕ)
    → k ≤ max_log_size - 1
    → take k (take (max_log_size - 1) text ++ tail) ≡ take k (text ++ tail)
cut_body k text tail h = elim (Bool-cases (leb (length text) (max_log_size - 1))) [
  | inl t ↦ ap (λ b. take k (b ++ tail)) (take_long (max_log_size - 1) text (ground arith))
  | inr f ↦
      let long : max_log_size - 1 ≤ length text = ground arith in
      let size = length-take (max_log_size - 1) text in
      take-append_left k (take (max_log_size - 1) text) tail (omega (arith, size, long, h))
      ∙ take-take k (max_log_size - 1) text h
      ∙ sym (take-append_left k text tail (omega (arith, long, h)))
]

-- It is the first 1023 bytes of the line, since the body is only cut where the line is too long.
stored_lem :
    (prefix text : List ℕ)
    → length prefix < max_log_size
    → stored prefix text ≡ take (max_log_size - 1) (prefix ++ (text ++ b'\n' ∷ []))
stored_lem prefix text h =
    let k : ℕ = max_log_size - length prefix - 1 in
    let e : max_log_size - 1 ≡ length prefix + k = omega arith in
    ap (λ r. prefix ++ r) (cut_body k text (b'\n' ∷ []) (omega arith))
    ∙ sym (take-append_right k prefix (text ++ b'\n' ∷ []))
    ∙ ap (λ n. take n (prefix ++ (text ++ b'\n' ∷ []))) (sym e)

cut_line :
    (line : List ℕ)
    → (if leb (max_log_size - 1) (length (take (max_log_size - 1) line))
        then take (max_log_size - 5) (take (max_log_size - 1) line)
          ++ b'.' ∷ b'.' ∷ b'.' ∷ b'\n' ∷ []
        else take (max_log_size - 1) line)
      ≡ shortened line
unfolding shortened
cut_line line =
    let size = length-take (max_log_size - 1) line in
    elim (Bool-cases (ltb (length line) (max_log_size - 1))) [
      | inl t ↦
          let short : length line < max_log_size - 1 = ltb→lt (length line) (max_log_size - 1) t in
          let no : leb (max_log_size - 1) (length (take (max_log_size - 1) line)) ≡ false =
            gt→leb _ _ (omega (arith, size, short)) in
          rw (t, no) (take_long (max_log_size - 1) line (omega (arith, short)))
      | inr f ↦
          let long : max_log_size - 1 ≤ length line = ltb→le (length line) (max_log_size - 1) f in
          let yes_cut : leb (max_log_size - 1) (length (take (max_log_size - 1) line)) ≡ true =
            le→leb _ _ (omega (arith, size, long)) in
          rw (f, yes_cut)
            (ap (λ r. r ++ b'.' ∷ b'.' ∷ b'.' ∷ b'\n' ∷ [])
              (take-take (max_log_size - 5) (max_log_size - 1) line (omega arith)))
    ]

shortened-length : (line : List ℕ) → length (shortened line) ≤ max_log_size - 1
unfolding shortened
shortened-length line =
    let size = length-take (max_log_size - 5) line in
    let cut = length-append (take (max_log_size - 5) line) (b'.' ∷ b'.' ∷ b'.' ∷ b'\n' ∷ []) in
    elim (Bool-cases (ltb (length line) (max_log_size - 1))) [
      | inl t ↦
          let short : length line < max_log_size - 1 = ltb→lt (length line) (max_log_size - 1) t in
          rw t (omega (arith, short))
      | inr f ↦ rw f (omega (arith, size, cut))
    ]

-- For every prefix that fits in the array, `format_log_message` gives the prefix and the body with a
-- newline, as it is if this is shorter than 1023 bytes, and else its first 1019 bytes with "..." and
-- a newline: never more than 1023 bytes, which leaves room for the NUL.
pub format_log_message_lem :
    (prefix text : List ℕ)
    → length prefix < max_log_size
    → (format_log_message prefix text ≡ some (shortened (prefix ++ (text ++ b'\n' ∷ []))))
      × (length (shortened (prefix ++ (text ++ b'\n' ∷ []))) ≤ max_log_size - 1)
unfolding format_log_message
format_log_message_lem prefix text h =
    let line = prefix ++ (text ++ b'\n' ∷ []) in
    let s = stored_lem prefix text h in
    (
      rw (lt→ltb (length prefix) max_log_size h) (
          ap
            (λ (o : List ℕ).
              if leb (max_log_size - 1) (length o)
              then some (take (max_log_size - 5) o ++ b'.' ∷ b'.' ∷ b'.' ∷ b'\n' ∷ [])
              else some o)
            s
          ∙ if-some _ _ _
          ∙ ap (λ o. some o) (cut_line line)),
      shortened-length line,
    )
