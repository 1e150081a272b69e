-- ===== src/Stm/Steps.antt =====
-- Each handler moves the machine to the state that it returns (src/shared/stm.c).
use socks5proxy.Prelude.{
  ℕ, zero, suc, ◌≡◌, refl, true, Option, none, some, ◌==◌, if◌then◌else◌, arith, ap, ◌∙◌,
  Option-cases, Bool-cases, inl, inr, ◌≤◌, ◌<◌, leb, false,
}
use socks5proxy.Stm.{
  StateDefinition, StateMachine, consecutive, stm_init, call, handle_first, depart, is_current,
  jump, stm_handler, stm_state,
}

-- What `stm_init` verifies: the states are consecutive, and the current one exists.
pub record IsValid {K : Type 0} (stm : StateMachine K) : Type 0 where
  pub ordered : (i : ℕ) → i ≤ stm.max_state → (stm.states i).state ≡ i
  pub initial_exists : stm.initial < stm.max_state
  pub current_exists : (i : ℕ) → stm.current ≡ some i → i ≤ stm.max_state

-- Arrive at the initial state, if the machine has no current state.
abbrev pub started : {K : Type 0} → StateMachine K → K → K
started stm k = elim stm.current [
  | none ↦ call (stm.states stm.initial).on_arrival stm.initial k
  | some _ ↦ k
]

-- Leave state `i` for state `j`: its departure, and then the arrival at the other.
abbrev pub move : {K : Type 0} → StateMachine K → ℕ → ℕ → K → K
move stm i j k =
    if i == j then k else call (stm.states j).on_arrival j (call (stm.states i).on_departure i k)

consecutive_lem :
    {K : Type 0} (states : ℕ → StateDefinition K) (n i : ℕ)
    → consecutive states n ≡ true
    → i < n
    → (states i).state ≡ i
unfolding consecutive
consecutive_lem states zero i e h = absurd (omega arith)
consecutive_lem states (suc n) i e h =
    let now : ((states n).state == n) ≡ true = ground arith in
    let before : consecutive states n ≡ true = ground arith in
    elim (Bool-cases (i == n)) [
      | inl q ↦ let p : i ≡ n = ground arith in rw p (ground arith)
      | inr q ↦ consecutive_lem states n i before (ground arith)
    ]

-- `stm_init` returns a machine only if its states are consecutive and its initial state is below the
-- last one; the machine then is valid.
pub stm_init-IsValid :
    {K : Type 0} (stm : StateMachine K) {stm' : StateMachine K}
    → stm_init stm ≡ some stm'
    → IsValid stm'
unfolding stm_init
stm_init-IsValid stm {stm'} e =
    let c : consecutive stm.states (suc stm.max_state) ≡ true = ground arith in
    let q : stm' ≡ record stm { current = none } = ground arith in
    rw q (record {
      ordered = λ i h. consecutive_lem (stm.states) (suc stm.max_state) i c (ground arith);
      initial_exists = ground arith;
      current_exists = λ i h. ground arith;
    })

jump_lem :
    {K : Type 0} (stm : StateMachine K) (i next : ℕ) (k : K)
    → IsValid stm
    → stm.current ≡ some i
    → next ≤ stm.max_state
    → jump stm next k ≡ some (record stm { current = some next }, move stm i next k)
unfolding jump depart is_current
jump_lem stm i next k v c le =
    let oi : (stm.states i).state ≡ i = v.ordered i (v.current_exists i c) in
    let on : (stm.states next).state ≡ next = v.ordered next le in
    elim (Bool-cases (i == next)) [
      | inl q ↦
          let p : i ≡ next = ground arith in
          let r : stm ≡ record stm { current = some next } =
            ap (λ z. record stm { current = z }) (c ∙ ap some p) in
          ground arith
      | inr q ↦ ground arith
    ]

jump-none :
    {K : Type 0} (stm : StateMachine K) (next : ℕ) (k : K)
    → leb next stm.max_state ≡ false
    → jump stm next k ≡ none
unfolding jump
jump-none stm next k e = rw e

handle_first_lem :
    {K : Type 0} (stm : StateMachine K) (k : K)
    → IsValid stm
    → handle_first stm k ≡ (record stm { current = some (stm_state stm) }, started stm k)
unfolding handle_first stm_state
handle_first_lem stm k v =
    let o : (stm.states stm.initial).state ≡ stm.initial = v.ordered (stm.initial) (ground arith) in
    elim (Option-cases (stm.current)) [
      | inl c ↦ ground arith
      | inr (i, c) ↦
          let oi : (stm.states i).state ≡ i = v.ordered i (v.current_exists i c) in ground arith
    ]

stm_state-le : {K : Type 0} (stm : StateMachine K) → IsValid stm → stm_state stm ≤ stm.max_state
unfolding stm_state
stm_state-le stm v = elim (Option-cases (stm.current)) [
  | inl c ↦ ground arith
  | inr (i, c) ↦
      let le = v.current_exists i c in
      let oi : (stm.states i).state ≡ i = v.ordered i le in ground arith
]

state_at :
    {K : Type 0} (stm : StateMachine K) (i : ℕ)
    → stm_state (record stm { current = some i }) ≡ (stm.states i).state
unfolding stm_state
state_at stm i = refl

set_current-IsValid :
    {K : Type 0} (stm : StateMachine K) (i : ℕ)
    → IsValid stm
    → i ≤ stm.max_state
    → IsValid (record stm { current = some i })
set_current-IsValid stm i v le = record {
  ordered = v.ordered;
  initial_exists = v.initial_exists;
  current_exists = λ j h. ground arith;
}

-- On a valid machine whose current state has a handler, and whose handler returns a state that
-- exists, `stm_handler` arrives at the initial state if there was no current one, runs the handler,
-- leaves the old state and arrives at the returned one, in this order, unless both are the same. The
-- machine stays valid, and its state is the one that is returned.
pub stm_handler_lem :
    {K : Type 0} (ready : StateDefinition K → Option (K → ℕ × K)) (stm : StateMachine K) (k : K)
    (handler : K → ℕ × K)
    → IsValid stm
    → ready (stm.states (stm_state stm)) ≡ some handler
    → (handler (started stm k)).0 ≤ stm.max_state
    → let (ret, k') = handler (started stm k) in
      (stm' : StateMachine K) × (stm_handler ready stm k
        ≡ some (ret, stm', move stm (stm_state stm) ret k'))
      × IsValid stm'
      × (stm_state stm' ≡ ret)
unfolding stm_handler
stm_handler_lem {K} ready stm k handler v h le =
    let i = stm_state stm in
    let first : StateMachine K = record stm { current = some i } in
    let vi = set_current-IsValid stm i v (stm_state-le stm v) in
    let (ret, k') = handler (started stm k) in
    let e₁ = handle_first_lem stm k v in
    let e₂ = jump_lem first i ret k' vi refl le in
    (
      record stm { current = some ret },
      ground (arith, e₁, e₂, h),
      set_current-IsValid stm ret v le,
      state_at stm ret ∙ v.ordered ret le,
    )

-- Conversely: a result of `stm_handler` on a valid machine comes from the handler of its state, and
-- the state that is returned exists.
pub stm_handler-eq-some :
    {K : Type 0} (ready : StateDefinition K → Option (K → ℕ × K)) (stm : StateMachine K) (k : K)
    {ret : ℕ} {stm' : StateMachine K} {k' : K}
    → IsValid stm
    → stm_handler ready stm k ≡ some (ret, stm', k')
    → (handler : K → ℕ × K) × (ready (stm.states (stm_state stm)) ≡ some handler)
      × ((handler (started stm k)).0 ≡ ret)
      × (ret ≤ stm.max_state)
      × (stm' ≡ record stm { current = some ret })
      × (move stm (stm_state stm) ret (handler (started stm k)).1 ≡ k')
unfolding stm_handler
stm_handler-eq-some {K} ready stm k {ret} {stm'} {k'} v e =
    let i = stm_state stm in
    let first : StateMachine K = record stm { current = some i } in
    let vi = set_current-IsValid stm i v (stm_state-le stm v) in
    let f = handle_first_lem stm k v in
    elim (Option-cases (ready (stm.states i))) [
      | inl n ↦ absurd (ground (arith, f, n))
      | inr (handler, h) ↦
          let r = (handler (started stm k)).0 in
          elim (Bool-cases (leb r stm.max_state)) [
            | inl t ↦
                let le : r ≤ stm.max_state = ground arith in
                let j = jump_lem first i r (handler (started stm k)).1 vi refl le in
                (
                  handler,
                  h,
                  ground (arith, f, h, j),
                  ground (arith, f, h, j),
                  ground (arith, f, h, j),
                  ground (arith, f, h, j),
                )
            | inr g ↦
                let j : jump first r (handler (started stm k)).1 ≡ none = jump-none first r _ g in
                absurd (ground (arith, f, h, j))
          ]
    ]
