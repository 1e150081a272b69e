-- ===== src/Selector/Events/Calls.antt =====
-- Which handlers a call of `selector_select` calls, and in what order (src/shared/selector.c).
use socks5proxy.Prelude.{
  ℕ, zero, suc, ◌+◌, ◌<◌, Bool, true, false, ◌&&◌, Option, none, some, List, [], ◌∷◌, ◌++◌,
  if◌then◌else◌, length,
}
use socks5proxy.Selector.{op_read, op_write, Item}
use socks5proxy.Selector.Table.{wants}
use socks5proxy.Selector.Table.Slots.{item_at}
use socks5proxy.Selector.Events.{
  SelectorKey, Served, Callback, FdHandler, Pselect, ready, interrupted, bad_descriptor,
  other_failure,
}

-- The three functions of a handler that `selector_select` calls.
pub data CallKind : Type 0 where
  to_read to_write to_notify : CallKind

abbrev pub Call : Type 0 → Type 0
Call A = CallKind × SelectorKey A

-- Every descriptor of the list is below the number.
abbrev pub AllBelow : ℕ → List ℕ → Type 0
AllBelow n [] = Unit {0}
AllBelow n (fd ∷ fds) = (fd < n) × AllBelow n fds

module _ {A : Type 0} where
  abbrev pub key_of : ℕ → Item A → SelectorKey A
  key_of fd x = record { fd = fd; attachment = x.attachment }

  -- The calls for descriptor `i`, which are for reading first: those that are ready and wanted.
  unfoldable pub due : (ℕ → Bool) → (ℕ → Bool) → ℕ → Option (Item A) → List (Call A)
  due r w i none = []
  due r w i (some x) =
      (if r i && wants op_read x.interest then (to_read, key_of i x) ∷ [] else [])
      ++ (if w i && wants op_write x.interest then (to_write, key_of i x) ∷ [] else [])

  -- Those for `n` descriptors from `i` on.
  unfoldable pub due_from : (ℕ → Bool) → (ℕ → Bool) → List (Option (Item A)) → ℕ → ℕ → List (Call A)
  due_from r w items zero i = []
  due_from r w items (suc n) i = due r w i (item_at items i) ++ due_from r w items n (i + 1)

  -- The jobs whose descriptor is in use.
  unfoldable pub notices : List (Option (Item A)) → List ℕ → List (Call A)
  notices items [] = []
  notices items (fd ∷ jobs) = elim (item_at items fd) [
    | none ↦ notices items jobs
    | some x ↦ (to_notify, key_of fd x) ∷ notices items jobs
  ]

  module _ {W : Type 0} (act : CallKind → SelectorKey A → W → W) where
    -- Handlers that change what they reach, and leave the selector and its list of jobs alone.
    abbrev pub does : CallKind → Callback A W
    does kind key s = some (record s { world = act kind key s.world })

    abbrev pub acting : FdHandler A W
    acting = record {
      handle_read = λ a. some (does to_read);
      handle_write = λ a. some (does to_write);
      handle_block = λ a. some (does to_notify);
    }

    -- One call after the other.
    unfoldable pub run_calls : List (Call A) → W → W
    run_calls [] world = world
    run_calls (c ∷ cs) world = run_calls cs (act c.0 c.1 world)

    abbrev pub ran : List (Call A) → Served A W → Served A W
    ran cs s = record s { world = run_calls cs s.world }

    module _ (items : List (Option (Item A))) where
      -- The calls for what `pselect` found, the jobs of the list behind them.
      abbrev pub calls_for : Pselect → List ℕ → List (Call A)
      calls_for (ready r w) jobs = due_from r w items (length items) 0 ++ notices items jobs
      calls_for interrupted jobs = notices items jobs
      calls_for bad_descriptor jobs = []
      calls_for other_failure jobs = []

      -- Whether the call ended in a way that `selector_select` takes for a success.
      abbrev pub answered : Pselect → Bool
      answered (ready r w) = true
      answered interrupted = true
      answered bad_descriptor = false
      answered other_failure = false
