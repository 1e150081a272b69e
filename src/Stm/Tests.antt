-- ===== src/Stm/Tests.antt =====
-- The theorems on src/shared/stm.c at a concrete machine.
use socks5proxy.Prelude.{ℕ, ◌+◌, ◌≡◌, refl, none, some, arith}
use socks5proxy.Stm.{StateDefinition, StateMachine, consecutive, stm_init, stm_handler, stm_state}
use socks5proxy.Stm.Steps.{IsValid, move, started, stm_init-IsValid, stm_handler_lem}

-- Three states, whose hooks and handlers count in the key.
abbrev counting : ℕ → StateDefinition ℕ
counting i = record {
  state = i;
  on_arrival = some (λ s k. k + 1);
  on_departure = some (λ s k. k + 10);
  on_read_ready = some (λ k. (1, k + 100));
  on_write_ready = none;
  on_block_ready = none;
}

abbrev machine : StateMachine ℕ
machine = record { initial = 0; states = counting; max_state = 2; current = none }

machine-init : stm_init machine ≡ some machine
unfolding stm_init consecutive
machine-init = refl

machine-state : some (counting (stm_state machine)).on_read_ready ≡ some (some (λ k. (1, k + 100)))
machine-state = refl

stm_handler_lem_example :
    (stm' : StateMachine ℕ) × (stm_handler (λ d. d.on_read_ready) machine 0
      ≡ some (1, stm', move machine (stm_state machine) 1 (started machine 0 + 100)))
    × IsValid stm'
    × (stm_state stm' ≡ 1)
stm_handler_lem_example =
    stm_handler_lem (λ d. d.on_read_ready) machine 0 (λ k. (1, k + 100))
      (stm_init-IsValid machine machine-init) refl (omega arith)
