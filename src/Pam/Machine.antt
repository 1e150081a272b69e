-- ===== src/Pam/Machine.antt =====
-- src/server/pam/pam.c: the table of states of a management connection, how an event of the selector
-- runs it, how it is accepted and how it ends. The copy of the peer's address and the logging are
-- left out.
pub mod Accounts
pub mod Lifetime
pub mod Reading
pub mod Reach
mod Tests
use socks5proxy.Prelude.{
  ℕ, zero, suc, Bool, ◌||◌, not, Option, none, some, List, [], ◌∷◌, ◌==◌, if◌then◌else◌, ◌>>=◌,
  ◌>>◌, assert,
}
use socks5proxy.Buffer.{Ssize, buffer_init}
use socks5proxy.Selector.{op_read, FdSelector}
use socks5proxy.Selector.Table.{succeeded, selector_register, selector_unregister_fd}
use socks5proxy.Socket.{Recv}
use socks5proxy.Users.{Users}
use socks5proxy.Stm.{StateDefinition, StateMachine, stm_init, stm_handler_read, stm_handler_write}
use socks5proxy.Stm.Driver.{ready, arrival, driven}
use socks5proxy.Pam.{PamState, Pam, pam_buffer_size}
use socks5proxy.Pam.Auth.{pam_auth_arrival, pam_auth_read, pam_auth_write}
use socks5proxy.Pam.Dispatch.{Inputs}
use socks5proxy.Pam.Request.{pam_request_arrival, pam_request_read, pam_request_write}

-- What an event has from outside: the answers of `recv` and `send`, and what the methods use.
pub record PamOutcomes : Type 0 where
  pub received : Recv
  pub sent : Ssize
  pub inputs : Inputs

-- A connection with the accounts that its methods reach.
pub record Managed : Type 0 where
  pub pam : Pam
  pub users : Users
  pub outcomes : PamOutcomes

abbrev pub PamHandler : Type 0
PamHandler = Managed → Option (PamState × Managed)

unfoldable pub with_accounts :
    Managed → Option (PamState × Pam × Users) → Option (PamState × Managed)
with_accounts k r = do (st, c, u) ← r; some (st, record k { pam = c; users = u })

unfoldable pub with_pam : Managed → Option (PamState × Pam) → Option (PamState × Managed)
with_pam k r = do (st, c) ← r; some (st, record k { pam = c })

unfoldable pub pam_auth_reading : PamHandler
pam_auth_reading k = with_accounts k (pam_auth_read k.pam k.users k.outcomes.received)

unfoldable pub pam_auth_writing : PamHandler
pam_auth_writing k = with_pam k (pam_auth_write k.pam k.outcomes.sent)

unfoldable pub pam_request_reading : PamHandler
pam_request_reading k =
    with_accounts k (pam_request_read k.outcomes.inputs k.pam k.users k.outcomes.received)

unfoldable pub pam_request_writing : PamHandler
pam_request_writing k = with_pam k (pam_request_write k.pam k.outcomes.sent)

-- The number of a state in `enum pam_state`.
unfoldable pub pam_index : PamState → ℕ
pam_index PamState.pam_auth = 0
pam_index PamState.pam_request = 1
pam_index PamState.pam_done = 2
pam_index PamState.pam_error = 3

abbrev pub PamKey : Type 0
PamKey = Option Managed

unfoldable pub pam_ready : PamHandler → PamKey → ℕ × PamKey
pam_ready h key = ready pam_index (pam_index PamState.pam_error) h key

-- An entry with nothing but its state.
abbrev pub pam_bare : PamState → StateDefinition PamKey
pam_bare st = record {
  state = pam_index st;
  on_arrival = none;
  on_departure = none;
  on_read_ready = none;
  on_write_ready = none;
  on_block_ready = none;
}

unfoldable pub pam_definition : PamState → StateDefinition PamKey
pam_definition PamState.pam_auth = record (pam_bare PamState.pam_auth) {
  on_arrival = some (arrival (λ k. some (record k { pam = pam_auth_arrival k.pam })));
  on_read_ready = some (pam_ready pam_auth_reading);
  on_write_ready = some (pam_ready pam_auth_writing);
}
pam_definition PamState.pam_request = record (pam_bare PamState.pam_request) {
  on_arrival = some (arrival (λ k. some (record k { pam = pam_request_arrival k.pam })));
  on_read_ready = some (pam_ready pam_request_reading);
  on_write_ready = some (pam_ready pam_request_writing);
}
pam_definition PamState.pam_done = pam_bare PamState.pam_done
pam_definition PamState.pam_error = pam_bare PamState.pam_error

-- The entry with a number; there are four, and PAM_ERROR's answers for all others.
unfoldable pub pam_states : ℕ → StateDefinition PamKey
unfolding pam_definition pam_index
pam_states zero = pam_definition PamState.pam_auth
pam_states (suc zero) = pam_definition PamState.pam_request
pam_states (suc (suc zero)) = pam_definition PamState.pam_done
pam_states (suc (suc (suc n))) = pam_definition PamState.pam_error

abbrev pub PamMachine : Type 0
PamMachine = StateMachine PamKey

-- `pam_new`, with the memory `new` that `malloc` gave.
unfoldable pub pam_new : Pam → Option (PamMachine × Pam)
pam_new new = do
  m ← stm_init (record {
    initial = pam_index PamState.pam_auth;
    states = pam_states;
    max_state = pam_index PamState.pam_error;
    current = none;
  })
  some (m, record new { client_buffer = buffer_init pam_buffer_size new.client_buffer.mem })

-- `PAM_ERROR == st || PAM_DONE == st`
unfoldable pub pam_is_over : ℕ → Bool
pam_is_over st = st == pam_index PamState.pam_error || st == pam_index PamState.pam_done

-- An event: whether `pam_done` is called, and what is left.
abbrev pub PamDriven : Type 0
PamDriven = Option (Bool × PamMachine × Managed)

unfoldable pub pam_read : PamMachine → Managed → PamDriven
pam_read m k = driven pam_is_over (stm_handler_read m (some k))

unfoldable pub pam_write : PamMachine → Managed → PamDriven
pam_write m k = driven pam_is_over (stm_handler_write m (some k))

-- What accepting has from the system: the descriptor of accept(2), whether it was made non-blocking,
-- the memory that `malloc` gave for the connection, and whether the selector gets its memory.
pub record Accepting : Type 0 where
  pub client_fd : Option ℕ
  pub nio : Bool
  pub new : Option Pam
  pub alloc : Bool

abbrev pub Connection : Type 0
Connection = PamMachine × Pam

-- The selector after the call, and the descriptors that it closed.
unfoldable pub pam_passive_accept :
    Accepting → FdSelector Connection → Option (FdSelector Connection × List ℕ)
pam_passive_accept o s = elim o.client_fd [
  | none ↦ some (s, [])
  | some fd ↦ if not o.nio then some (s, fd ∷ []) else elim o.new [
    | none ↦ some (s, fd ∷ [])
    | some new ↦ do
      connection ← pam_new new
      (st, s') ← selector_register s fd op_read connection o.alloc
      some (s', if succeeded st then [] else fd ∷ [])
  ]
]

-- `pam_close` releases the connection and does nothing to the selector.
unfoldable pub pam_close : FdSelector Connection → FdSelector Connection
pam_close s = s

-- `pam_done` for the descriptor of the connection: the selector, and the descriptors that it closed.
unfoldable pub pam_done : FdSelector Connection → ℕ → Option (FdSelector Connection × List ℕ)
pam_done s fd = do
  (st, s') ← selector_unregister_fd (λ item. some pam_close) s fd
  _ ← assert (succeeded st)
  some (s', fd ∷ [])
