-- ===== src/Stm.antt =====
-- src/shared/stm.c: the state machine that drives a connection. A handler's `struct selector_key`,
-- with all that it reaches, is a state `K` that the hooks and the handlers transform.
mod Tests
pub mod Steps
pub mod Driver
use socks5proxy.Prelude.{
  ℕ, zero, suc, ◌+◌, Bool, true, false, ◌&&◌, not, Option, none, some, ltb, leb, ◌==◌,
  if◌then◌else◌, ◌>>=◌, ◌>>◌, assert,
}

-- `struct state_definition`: a null pointer is `none`.
pub record StateDefinition (K : Type 0) : Type 0 where
  pub state : ℕ
  pub on_arrival : Option (ℕ → K → K)
  pub on_departure : Option (ℕ → K → K)
  pub on_read_ready : Option (K → ℕ × K)
  pub on_write_ready : Option (K → ℕ × K)
  pub on_block_ready : Option (K → ℕ × K)

-- `struct state_machine`: `current` is the index in `states` that it points to.
pub record StateMachine (K : Type 0) : Type 0 where
  pub initial : ℕ
  pub states : ℕ → StateDefinition K
  pub max_state : ℕ
  pub current : Option ℕ

-- The loop of `stm_init` over the states below `n`.
unfoldable pub consecutive : {K : Type 0} → (ℕ → StateDefinition K) → ℕ → Bool
consecutive states zero = true
consecutive states (suc n) = consecutive states n && ((states n).state == n)

unfoldable pub stm_init : {K : Type 0} → StateMachine K → Option (StateMachine K)
stm_init stm = do
  _ ← assert (consecutive stm.states (suc stm.max_state))
  if ltb stm.initial stm.max_state then some (record stm { current = none }) else none

-- A hook that may be null.
unfoldable pub call : {K : Type 0} → Option (ℕ → K → K) → ℕ → K → K
call none i k = k
call (some hook) i k = hook i k

unfoldable pub handle_first : {K : Type 0} → StateMachine K → K → StateMachine K × K
handle_first stm k = elim stm.current [
  | none ↦
      let d = stm.states stm.initial in
      (record stm { current = some stm.initial }, call d.on_arrival d.state k)
  | some _ ↦ (stm, k)
]

-- `stm->current != NULL && stm->current->on_departure != NULL`
unfoldable pub depart : {K : Type 0} → StateMachine K → K → K
depart stm k = elim stm.current [
  | none ↦ k
  | some i ↦ let d = stm.states i in call d.on_departure d.state k
]

-- `stm->current != stm->states + next`
unfoldable pub is_current : Option ℕ → ℕ → Bool
is_current none next = false
is_current (some i) next = i == next

unfoldable pub jump : {K : Type 0} → StateMachine K → ℕ → K → Option (StateMachine K × K)
jump stm next k = do
  _ ← assert (leb next stm.max_state)
  if is_current stm.current next
      then some (stm, k)
      else (let k' = depart stm k in
          let d = stm.states next in
          some (record stm { current = some next }, call d.on_arrival d.state k'))

-- The common body of the three handlers, for the pointer that `ready` reads.
unfoldable pub stm_handler :
    {K : Type 0}
    → (StateDefinition K → Option (K → ℕ × K))
    → StateMachine K
    → K
    → Option (ℕ × StateMachine K × K)
stm_handler ready stm k = do
  let (stm', k') = handle_first stm k
  i ← stm'.current
  handler ← ready (stm'.states i)
  let (ret, k'') = handler k'
  (stm'', k''') ← jump stm' ret k''
  some (ret, stm'', k''')

unfoldable pub stm_handler_read :
    {K : Type 0} → StateMachine K → K → Option (ℕ × StateMachine K × K)
stm_handler_read = stm_handler (λ d. d.on_read_ready)

unfoldable pub stm_handler_write :
    {K : Type 0} → StateMachine K → K → Option (ℕ × StateMachine K × K)
stm_handler_write = stm_handler (λ d. d.on_write_ready)

unfoldable pub stm_handler_block :
    {K : Type 0} → StateMachine K → K → Option (ℕ × StateMachine K × K)
stm_handler_block = stm_handler (λ d. d.on_block_ready)

pub stm_handler_close : {K : Type 0} → StateMachine K → K → K
stm_handler_close stm k = depart stm k

unfoldable pub stm_state : {K : Type 0} → StateMachine K → ℕ
stm_state stm = elim stm.current [ none ↦ stm.initial | some i ↦ (stm.states i).state ]
