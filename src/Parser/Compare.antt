-- ===== src/Parser/Compare.antt =====
-- The parser of `parser_utils_strcmpi` decides whether two strings are equal but for their case
-- (src/shared/parser.c, src/shared/parser_utils.c).
use socks5proxy.Prelude.{
  ℕ, suc, ◌+◌, ◌≤◌, ◌≡◌, refl, sym, ap, ◌∙◌, true, false, ◌||◌, Option, some, List, [], ◌∷◌, length,
  ◌==◌, if◌then◌else◌, get_elem?, ◌>>=◌, arith, Bool-cases, inl, inr, ◌<◌, lt→ltb, le→leb, Bool,
}
use socks5proxy.Buffer.{Ssize, pos, neg}
use socks5proxy.Parser.{
  ParserEvent, Parser, parser_init, parser_feed, scan, matches, any, blank_event,
}
use socks5proxy.Parser.Utils.{
  string_cmp_mayeq, string_cmp_eq, string_cmp_neq, may_eq, eq, neq, on, as_char, letter, letters,
  parser_utils_strcmpi,
}

-- Feed the bytes of a string.
unfoldable pub feed_all : Parser → List ℕ → Option Parser
feed_all p [] = some p
feed_all p (c ∷ cs) = do p' ← parser_feed p c; feed_all p' cs

-- The byte is this `int`.
unfoldable pub is_byte : Ssize → ℕ → Bool
is_byte (pos n) c = c == n
is_byte (neg n) c = false

-- What the C standard promises of `tolower` and `toupper` for a character of ASCII: a value of an
-- `unsigned char`.
abbrev pub GivesByte : (Ssize → Ssize) → Type 0
GivesByte f = (x : ℕ) → x < 128 → (y : ℕ) × (f (pos x) ≡ pos y) × (y ≤ 255)

abbrev pub Ascii : List ℕ → Type 0
Ascii [] = Unit {0}
Ascii (x ∷ xs) = (x < 128) × Ascii xs

as_char-ascii : (x : ℕ) → x < 128 → as_char x ≡ pos x
unfolding as_char
as_char-ascii x h = rw (lt→ltb x 128 h) refl

matches-letter :
    (f : Ssize → Ssize) (x c type : ℕ)
    → GivesByte f
    → x < 128
    → matches (f (as_char x)) c type ≡ is_byte (f (pos x)) c
unfolding matches is_byte
matches-letter f x c type gives h =
    let (y, e, b) = gives x h in rw (as_char-ascii x h, e, le→leb y 255 b) refl

module _ (tolower toupper : Ssize → Ssize) where
  -- The character of the string and the byte are the same letter.
  abbrev pub same_letter : ℕ → ℕ → Bool
  same_letter x c = is_byte (tolower (pos x)) c || is_byte (toupper (pos x)) c

  -- The last event, when `w` is fed to compare it with `s`: "may be equal" while it is a proper
  -- prefix of `s`, "equal" when it is all of it, and "not equal" from the first difference on.
  unfoldable pub verdict : List ℕ → List ℕ → ℕ
  verdict [] [] = string_cmp_eq
  verdict (x ∷ xs) [] = string_cmp_mayeq
  verdict [] (c ∷ cs) = string_cmp_neq
  verdict (x ∷ xs) (c ∷ cs) =
      let rest = verdict xs cs in if same_letter x c then rest else string_cmp_neq

  -- The parser stands before the characters `xs` of the string.
  record At (p : Parser) (xs : List ℕ) : Type 0 where
    table :
        (k : ℕ)
        → get_elem? p.def.states (p.state + k)
          ≡ get_elem? (letters tolower toupper (p.state + length xs) p.state xs) k
    event : p.e1.type ≡ verdict xs []

  -- The parser has seen a difference.
  record Sunk (p : Parser) : Type 0 where
    row : get_elem? p.def.states p.state ≡ some (on (pos any) p.state neq ∷ [])
    event : p.e1.type ≡ string_cmp_neq

  feed-any :
      (p : Parser) (d c : ℕ)
      → get_elem? p.def.states p.state ≡ some (on (pos any) d neq ∷ [])
      → parser_feed p c ≡ some (record p { state = d; e1 = neq p.e1 c; chained = false })
  unfolding parser_feed scan matches on
  feed-any p d c e = ground (arith, e)

  letters-sink :
      (n i : ℕ) (xs : List ℕ)
      → get_elem? (letters tolower toupper n i xs) (suc (length xs))
        ≡ some (on (pos any) (n + 1) neq ∷ [])
  unfolding letters
  letters-sink n i [] = refl
  letters-sink n i (x ∷ xs) = letters-sink n (i + 1) xs

  row-letter :
      (p : Parser) (x : ℕ) (xs : List ℕ)
      → At p (x ∷ xs)
      → get_elem? p.def.states p.state
        ≡ some (letter tolower toupper (p.state + length (x ∷ xs)) p.state x)
  unfolding letters
  row-letter p x xs a =
      let z : p.state + 0 ≡ p.state = omega arith in ap (get_elem? p.def.states) (sym z) ∙ a.table 0

  row-sink :
      (p : Parser) (xs : List ℕ) (n : ℕ)
      → At p xs
      → n ≡ p.state + length xs
      → get_elem? p.def.states (n + 1) ≡ some (on (pos any) (n + 1) neq ∷ [])
  row-sink p xs n a e =
      let z : n + 1 ≡ p.state + suc (length xs) = omega (arith, e) in
      ap (get_elem? p.def.states) z
      ∙ a.table (suc (length xs))
      ∙ letters-sink (p.state + length xs) (p.state) xs
      ∙ ap (λ m. some (on (pos any) (m + 1) neq ∷ [])) (sym e)

  neq_type : (ret : ParserEvent) (c : ℕ) → (neq ret c).type ≡ string_cmp_neq
  unfolding neq
  neq_type ret c = refl

  Sunk-feed_all :
      (p : Parser) (w : List ℕ)
      → Sunk p
      → (p' : Parser) × (feed_all p w ≡ some p') × (p'.e1.type ≡ string_cmp_neq)
  unfolding feed_all neq
  Sunk-feed_all p [] s = (p, refl, s.event)
  Sunk-feed_all p (c ∷ cs) s =
      let p₁ = record p { e1 = neq p.e1 c; chained = false } in
      let e = feed-any p (p.state) c s.row in
      let (p', e', t) = Sunk-feed_all p₁ cs (record { row = s.row; event = refl }) in
      (p', ground (arith, e, e'), t)

  module _ (lower : GivesByte tolower) (upper : GivesByte toupper) where
    scan-letter :
        (n i x c type : ℕ) (p : Parser)
        → x < 128
        → same_letter x c ≡ true
        → scan (letter tolower toupper n i x) c type p ≡ record p {
          state = i + 1;
          e1 = (if i + 1 == n then eq p.e1 c else may_eq p.e1 c);
          chained = false;
        }
    unfolding scan letter on
    scan-letter n i x c type p h e =
        let l₁ = matches-letter tolower x c type lower h in
        let u₁ = matches-letter toupper x c type upper h in
        elim (Bool-cases (i + 1 == n)) [
          | inl l ↦ let q : i + 1 ≡ n = ground arith in ground arith
          | inr l ↦ ground arith
        ]

    scan-difference :
        (n i x c type : ℕ) (p : Parser)
        → x < 128
        → same_letter x c ≡ false
        → scan (letter tolower toupper n i x) c type p
          ≡ record p { state = n + 1; e1 = neq p.e1 c; chained = false }
    unfolding scan matches letter on
    scan-difference n i x c type p h e =
        let l₁ = matches-letter tolower x c type lower h in
        let u₁ = matches-letter toupper x c type upper h in ground arith

    At-next :
        (p : Parser) (x : ℕ) (xs : List ℕ) (c : ℕ)
        → At p (x ∷ xs)
        → At
            (record p {
              state = p.state + 1;
              e1 = (if p.state + 1 == p.state + length (x ∷ xs) then eq p.e1 c else may_eq p.e1 c);
              chained = false;
            })
            xs
    unfolding letters eq may_eq verdict
    At-next p x xs c a = record {
      table = λ k.
          let z : p.state + 1 + k ≡ p.state + suc k = omega arith in
          let m : p.state + length (x ∷ xs) ≡ p.state + 1 + length xs = omega arith in
          ap (get_elem? p.def.states) z
          ∙ a.table (suc k)
          ∙ ap (λ j. get_elem? (letters tolower toupper j (p.state + 1) xs) k) m;
      event = at-event xs;
    }
      where
        at-event :
            (ys : List ℕ)
            → (if p.state + 1 == p.state + length (x ∷ ys) then eq p.e1 c else may_eq p.e1 c).type
              ≡ verdict ys []
        at-event [] = ground arith
        at-event (y ∷ ys) = ground arith

    feed-letter :
        (p : Parser) (x : ℕ) (xs : List ℕ) (c : ℕ)
        → At p (x ∷ xs)
        → x < 128
        → same_letter x c ≡ true
        → (p' : Parser) × (parser_feed p c ≡ some p') × At p' xs
    unfolding parser_feed
    feed-letter p x xs c a h e =
        let n = p.state + length (x ∷ xs) in
        let r = row-letter p x xs a in
        let p₀ = record p { chained = false } in
        let s = scan-letter n (p.state) x c (p.classes c) p₀ h e in
        (_, ground (arith, r, s), At-next p x xs c a)

    feed-difference :
        (p : Parser) (x : ℕ) (xs : List ℕ) (c : ℕ)
        → At p (x ∷ xs)
        → x < 128
        → same_letter x c ≡ false
        → (p' : Parser) × (parser_feed p c ≡ some p') × Sunk p'
    unfolding parser_feed neq
    feed-difference p x xs c a h e =
        let n = p.state + length (x ∷ xs) in
        let r = row-letter p x xs a in
        let p₀ = record p { chained = false } in
        let s = scan-difference n (p.state) x c (p.classes c) p₀ h e in
        (
          record p₀ { state = n + 1; e1 = neq p.e1 c },
          ground (arith, r, s),
          record { row = row-sink p (x ∷ xs) n a refl; event = refl },
        )

    first_sink :
        (n : ℕ)
        → get_elem? (letters tolower toupper (n + 0) n []) 0 ≡ some (on (pos any) (n + 1) neq ∷ [])
    unfolding letters
    first_sink n =
        let z : n + 0 + 1 ≡ n + 1 = omega arith in ap (λ m. some (on (pos any) m neq ∷ [])) z

    verdict_lem :
        (p : Parser) (xs w : List ℕ)
        → At p xs
        → Ascii xs
        → (p' : Parser) × (feed_all p w ≡ some p') × (p'.e1.type ≡ verdict xs w)
    unfolding feed_all verdict
    verdict_lem p xs [] a h = (p, refl, a.event)
    verdict_lem p [] (c ∷ cs) a h =
        let n = p.state in
        let z : n + 0 ≡ n = omega arith in
        let r : get_elem? p.def.states n ≡ some (on (pos any) (n + 1) neq ∷ []) =
          ap (get_elem? p.def.states) (sym z) ∙ a.table 0 ∙ first_sink n in
        let e = feed-any p (n + 1) c r in
        let p₁ = record p { state = n + 1; e1 = neq p.e1 c; chained = false } in
        let (p', e', t) =
          Sunk-feed_all p₁ cs
            (record { row = row-sink p [] n a (sym z); event = neq_type (p.e1) c }) in
        (p', ground (arith, e, e'), t)
    verdict_lem p (x ∷ xs) (c ∷ cs) a h = elim (Bool-cases (same_letter x c)) [
      | inl e ↦
          let (p₁, f, a₁) = feed-letter p x xs c a h.0 e in
          let (p', f', t) = verdict_lem p₁ xs cs a₁ h.1 in (p', ground (arith, f, f'), rw e t)
      | inr e ↦
          let (p₁, f, s) = feed-difference p x xs c a h.0 e in
          let (p', f', t) = Sunk-feed_all p₁ cs s in (p', ground (arith, f, f'), rw e t)
    ]

    -- If `tolower` and `toupper` give bytes for the characters of ASCII, a parser made for a string
    -- of ASCII of one character or more, and fed any bytes, never stops at a state without an
    -- entry. The type of its last event is "equal" if the bytes are the string up to case, "may be
    -- equal" if they are a proper prefix of it, and "not equal" otherwise.
    pub parser_utils_strcmpi_lem :
        (classes : ℕ → ℕ) (x : ℕ) (xs w : List ℕ)
        → Ascii (x ∷ xs)
        → (p p' : Parser) × (parser_init classes
              (parser_utils_strcmpi tolower toupper (x ∷ xs) true)
              true
            ≡ some p)
          × (feed_all p w ≡ some p')
          × (p'.e1.type ≡ verdict (x ∷ xs) w)
    unfolding parser_init parser_utils_strcmpi verdict
    parser_utils_strcmpi_lem classes x xs w h =
        let p : Parser = record {
          classes = classes;
          def = parser_utils_strcmpi tolower toupper (x ∷ xs) true;
          state = 0;
          e1 = blank_event;
          e2 = blank_event;
          chained = false;
        } in
        let m : 0 + length (x ∷ xs) ≡ length (x ∷ xs) = omega arith in
        let a : At p (x ∷ xs) = record {
          table = λ k.
              let z : 0 + k ≡ k = omega arith in
              ap (get_elem? p.def.states) z
              ∙ ap (λ j. get_elem? (letters tolower toupper j 0 (x ∷ xs)) k) (sym m);
          event = refl;
        } in
        let (p', e, t) = verdict_lem p (x ∷ xs) w a h in (p, p', refl, e, t)
