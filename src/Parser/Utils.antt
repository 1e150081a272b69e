-- ===== src/Parser/Utils.antt =====
-- src/shared/parser_utils.c: a table that compares what is fed with a string, whatever its case.
-- `tolower` and `toupper` of the C library are parameters.
use socks5proxy.Prelude.{
  ℕ, ◌+◌, Bool, true, false, none, List, [], ◌∷◌, set, length, ltb, ◌-◌, ◌==◌, if◌then◌else◌,
}
use socks5proxy.Buffer.{Ssize, pos, neg}
use socks5proxy.Parser.{ParserEvent, ParserStateTransition, ParserDefinition, any}

-- `enum string_cmp_event_types`
abbrev pub string_cmp_mayeq : ℕ
string_cmp_mayeq = 0

abbrev pub string_cmp_eq : ℕ
string_cmp_eq = 1

abbrev pub string_cmp_neq : ℕ
string_cmp_neq = 2

unfoldable pub may_eq : ParserEvent → ℕ → ParserEvent
may_eq ret c = record { type = string_cmp_mayeq; chars = set ret.chars 0 c; n = 1 }

unfoldable pub eq : ParserEvent → ℕ → ParserEvent
eq ret c = record { type = string_cmp_eq; chars = set ret.chars 0 c; n = 1 }

unfoldable pub neq : ParserEvent → ℕ → ParserEvent
neq ret c = record { type = string_cmp_neq; chars = set ret.chars 0 c; n = 1 }

-- A transition with one action.
unfoldable pub on : Ssize → ℕ → (ParserEvent → ℕ → ParserEvent) → ParserStateTransition
on when dest act = record { when = when; dest = dest; act1 = act; act2 = none }

-- A byte of the string as a `char`, which is signed.
unfoldable pub as_char : ℕ → Ssize
as_char x = if ltb x 128 then pos x else neg (255 - x)

module _ (tolower toupper : Ssize → Ssize) where
  -- The three transitions of the state for character `x` at index `i`, of `n`.
  unfoldable pub letter : ℕ → ℕ → ℕ → List ParserStateTransition
  letter n i x =
      let last = i + 1 == n in
      let dest = if last then n else i + 1 in
      let act = if last then eq else may_eq in
      on (tolower (as_char x)) dest act
      ∷ on (toupper (as_char x)) dest act
      ∷ on (pos any) (n + 1) neq
      ∷ []

  -- The states of the characters from index `i` on, and the two fixed states.
  unfoldable pub letters : ℕ → ℕ → List ℕ → List (List ParserStateTransition)
  letters n i [] = (on (pos any) (n + 1) neq ∷ []) ∷ (on (pos any) (n + 1) neq ∷ []) ∷ []
  letters n i (x ∷ xs) = letter n i x ∷ letters n (i + 1) xs

  -- If one of the three `calloc` fails, the table is empty.
  unfoldable pub parser_utils_strcmpi : List ℕ → Bool → ParserDefinition
  parser_utils_strcmpi s false = record { states_count = 0; states = []; start_state = 0 }
  parser_utils_strcmpi s true = record {
    states_count = length s + 2;
    states = letters (length s) 0 s;
    start_state = 0;
  }
