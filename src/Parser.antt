-- ===== src/Parser.antt =====
-- src/shared/parser.c: an engine for table-driven lexers, which is fed one byte at a time.
mod Tests
pub mod Utils
pub mod Compare
use socks5proxy.Prelude.{
  ℕ, zero, suc, ◌+◌, ◌%◌, ◌/◌, Bool, true, false, ◌&&◌, ◌||◌, Option, none, some, List, [], ◌∷◌,
  leb, ◌==◌, if◌then◌else◌, get_elem?, ◌>>=◌, replicate,
}
use socks5proxy.Buffer.{Ssize, pos, neg}

-- `struct parser_event`, whose `data` is `chars`, but for `next`, which is kept with the parser.
pub record ParserEvent : Type 0 where
  pub type : ℕ
  pub chars : List ℕ
  pub n : ℕ

-- `struct parser_state_transition`; `when` is an `int`, and `act2` may be null.
pub record ParserStateTransition : Type 0 where
  pub when : Ssize
  pub dest : ℕ
  pub act1 : ParserEvent → ℕ → ParserEvent
  pub act2 : Option (ParserEvent → ℕ → ParserEvent)

abbrev pub any : ℕ
any = 512

-- `struct parser_definition`: the entry of a state is its `states_n` transitions.
pub record ParserDefinition : Type 0 where
  pub states_count : ℕ
  pub states : List (List ParserStateTransition)
  pub start_state : ℕ

-- `struct parser`; `chained` says that `e1.next` points to `e2`.
pub record Parser : Type 0 where
  pub classes : ℕ → ℕ
  pub def : ParserDefinition
  pub state : ℕ
  pub e1 : ParserEvent
  pub e2 : ParserEvent
  pub chained : Bool

-- What `memset` leaves in an event.
abbrev pub blank_event : ParserEvent
blank_event = record { type = 0; chars = 0 ∷ 0 ∷ 0 ∷ []; n = 0 }

-- `none` if `malloc` fails.
pub parser_init : (ℕ → ℕ) → ParserDefinition → Bool → Option Parser
parser_init classes def false = none
parser_init classes def true = some (record {
  classes = classes;
  def = def;
  state = def.start_state;
  e1 = blank_event;
  e2 = blank_event;
  chained = false;
})

pub parser_reset : Parser → Parser
parser_reset p = record p { state = p.def.start_state }

-- `type & when` is not 0, on the lowest `n` bits
pub share_bit : ℕ → ℕ → ℕ → Bool
share_bit zero a b = false
share_bit (suc n) a b = ((a % 2 == 1) && (b % 2 == 1)) || share_bit n (a / 2) (b / 2)

-- `matched`, for the transition's condition, the byte, and its class; an `unsigned` has 32 bits. A
-- condition below 0 is at most 0xFF, and no byte is it.
unfoldable pub matches : Ssize → ℕ → ℕ → Bool
matches (neg n) c type = false
matches (pos when) c type =
    if leb when 0xFF then c == when else if when == any then true else share_bit 32 type when

-- The loop over the transitions of a state: the first that matches is taken.
unfoldable pub scan : List ParserStateTransition → ℕ → ℕ → Parser → Parser
scan [] c type p = p
scan (t ∷ ts) c type p =
    let rest = scan ts c type p in
    if matches t.when c type
    then record p {
      state = t.dest;
      e1 = t.act1 p.e1 c;
      e2 = elim t.act2 [ none ↦ p.e2 | some act ↦ act p.e2 c ];
      chained = elim t.act2 [ none ↦ false | some act ↦ true ];
    }
    else rest

-- `none` if the state has no entry in the table; the event that is returned is `e1`.
unfoldable pub parser_feed : Parser → ℕ → Option Parser
parser_feed p c = do
  row ← get_elem? p.def.states p.state
  some (scan row c (p.classes c) (record p { chained = false }))
