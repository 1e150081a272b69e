-- ===== src/Stm/Driver.antt =====
-- How a table of handlers that may fail an assert becomes a machine of src/shared/stm.c: its keys are
-- connections, `none` once an assert has failed.
use socks5proxy.Prelude.{ℕ, Bool, Option, none, some, ◌>>=◌}
use socks5proxy.Stm.{StateMachine}

module _ {S X : Type 0} where
  -- A handler, given the numbers of the states, and the number that stands for a failure.
  unfoldable pub ready : (S → ℕ) → ℕ → (X → Option (S × X)) → Option X → ℕ × Option X
  ready index failed h none = (failed, none)
  ready index failed h (some k) = elim (h k) [
    | none ↦ (failed, none)
    | some (st, k') ↦ (index st, some k')
  ]

module _ {X : Type 0} where
  unfoldable pub arrival : (X → Option X) → ℕ → Option X → Option X
  arrival f i none = none
  arrival f i (some k) = f k

  -- An event: whether the connection is over, and what is left of it.
  unfoldable pub driven :
      (ℕ → Bool)
      → Option (ℕ × StateMachine (Option X) × Option X)
      → Option (Bool × StateMachine (Option X) × X)
  driven is_over r = do (st, m, key) ← r; k ← key; some (is_over st, m, k)
