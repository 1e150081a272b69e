-- ===== src/Pam/Machine/Accounts.antt =====
-- Who changes the accounts through a management connection, whatever happens on its descriptor
-- (src/server/pam/pam.c).
use socks5proxy.Prelude.{
  ℕ, zero, suc, ◌≡◌, ◌⊎◌, refl, ap, ◌∙◌, true, false, Option, none, some, arith, Option-cases,
  Bool-cases, inl, inr, ◌==◌, >>=-eq-some,
}
use socks5proxy.Stm.{stm_state, call, stm_handler, StateDefinition}
use socks5proxy.Stm.Driver.{ready, arrival}
use socks5proxy.Stm.Steps.{IsValid, started, move, stm_handler-eq-some}
use socks5proxy.Users.Find.{accounts}
use socks5proxy.Pam.{PamState}
use socks5proxy.Pam.Auth.{pam_auth_arrival, pam_auth_read}
use socks5proxy.Pam.Request.{pam_request_arrival, pam_request_read}
use socks5proxy.Pam.Methods.Authorisation.{is_authorised}
use socks5proxy.Pam.Machine.{
  Managed, PamHandler, PamKey, PamMachine, with_accounts, with_pam, pam_auth_reading,
  pam_auth_writing, pam_request_reading, pam_request_writing, pam_index, pam_ready, pam_definition,
  pam_states,
}
use socks5proxy.Pam.Machine.Lifetime.{pam_machine_at}
use socks5proxy.Pam.Machine.Reading.{pam_auth_read-accounts, pam_request_read-accounts}

-- The accounts are as before, or the state was PAM_REQUEST and the name an administrator's.
abbrev pub Permitted : ℕ → Managed → Managed → Type 0
Permitted i k k' =
    (accounts k'.users ≡ accounts k.users)
    ⊎ ((i ≡ pam_index PamState.pam_request) × (is_authorised k.pam k.users ≡ true))

-- The events that a management connection has.
pub data PamKind : Type 0 where
  reading writing : PamKind

abbrev pub pointer : PamKind → StateDefinition PamKey → Option (PamKey → ℕ × PamKey)
pointer reading d = d.on_read_ready
pointer writing d = d.on_write_ready

module _ (k : Managed) {st : PamState} {k' : Managed} where
  pam_auth_reading-accounts :
      pam_auth_reading k ≡ some (st, k') → accounts k'.users ≡ accounts k.users
  unfolding pam_auth_reading with_accounts
  pam_auth_reading-accounts e =
      let ((s, c, u), e₁, k₁) = >>=-eq-some (pam_auth_read k.pam k.users k.outcomes.received) _ e in
      let h = pam_auth_read-accounts k.pam k.users k.outcomes.received e₁ in ground arith

  pam_request_reading-accounts :
      is_authorised k.pam k.users ≡ false
      → pam_request_reading k ≡ some (st, k')
      → accounts k'.users ≡ accounts k.users
  unfolding pam_request_reading with_accounts
  pam_request_reading-accounts n e =
      let env = k.outcomes.inputs in
      let ((s, c, u), e₁, k₁) =
        >>=-eq-some (pam_request_read env k.pam k.users k.outcomes.received) _ e in
      let h = pam_request_read-accounts env k.pam k.users k.outcomes.received n e₁ in ground arith

  pam_auth_writing-accounts :
      pam_auth_writing k ≡ some (st, k') → accounts k'.users ≡ accounts k.users
  unfolding pam_auth_writing with_pam
  pam_auth_writing-accounts e = ground arith

  pam_request_writing-accounts :
      pam_request_writing k ≡ some (st, k') → accounts k'.users ≡ accounts k.users
  unfolding pam_request_writing with_pam
  pam_request_writing-accounts e = ground arith

-- A result of an entry's handler is one of the handler.
pam_ready_lem :
    (h : PamHandler) (k k' : Managed) (f : PamKey → ℕ × PamKey) (n : ℕ)
    → some (pam_ready h) ≡ some f
    → f (some k) ≡ (n, some k')
    → (st : PamState) × (h k ≡ some (st, k'))
unfolding pam_ready ready
pam_ready_lem h k k' f n q e =
    let q' : pam_ready h ≡ f = cc q in
    let p : pam_ready h (some k) ≡ (n, some k') = ap (λ g. g (some k)) q' ∙ e in
    elim (Option-cases (h k)) [
      | inl m ↦ absurd (ground arith)
      | inr ((st, k₁), m) ↦ (st, ground arith)
    ]

-- What a handler of an entry does to the accounts.
handler-Permitted :
    (i : ℕ) (kind : PamKind) (f : PamKey → ℕ × PamKey) (k k' : Managed) (n : ℕ)
    → pointer kind (pam_states i) ≡ some f
    → f (some k) ≡ (n, some k')
    → Permitted i k k'
unfolding pam_states pam_definition pam_index
handler-Permitted zero reading f k k' n h e =
    let (st, r) = pam_ready_lem pam_auth_reading k k' f n h e in inl (pam_auth_reading-accounts k r)
handler-Permitted zero writing f k k' n h e =
    let (st, r) = pam_ready_lem pam_auth_writing k k' f n h e in inl (pam_auth_writing-accounts k r)
handler-Permitted (suc zero) reading f k k' n h e =
    let (st, r) = pam_ready_lem pam_request_reading k k' f n h e in
    elim (Bool-cases (is_authorised k.pam k.users)) [
      | inl t ↦ inr (refl, t)
      | inr m ↦ inl (pam_request_reading-accounts k m r)
    ]
handler-Permitted (suc zero) writing f k k' n h e =
    let (st, r) = pam_ready_lem pam_request_writing k k' f n h e in
    inl (pam_request_writing-accounts k r)
handler-Permitted (suc (suc zero)) reading f k k' n h e = absurd (ground arith)
handler-Permitted (suc (suc zero)) writing f k k' n h e = absurd (ground arith)
handler-Permitted (suc (suc (suc i))) reading f k k' n h e = absurd (ground arith)
handler-Permitted (suc (suc (suc i))) writing f k k' n h e = absurd (ground arith)

-- An arrival or a departure leaves the accounts and the name of the connection alone.
abbrev Unmoved : Managed → Managed → Type 0
Unmoved k k' = (k'.users ≡ k.users) × (k'.pam.auth.username ≡ k.pam.auth.username)

arrive-Unmoved :
    (i j : ℕ) (key : PamKey) {k' : Managed}
    → call (pam_states i).on_arrival j key ≡ some k'
    → (k : Managed) × (key ≡ some k) × Unmoved k k'
unfolding pam_states pam_definition call arrival pam_auth_arrival pam_request_arrival
arrive-Unmoved zero j none e = absurd (ground arith)
arrive-Unmoved zero j (some k) e = (k, refl, (ground arith, ground arith))
arrive-Unmoved (suc zero) j none e = absurd (ground arith)
arrive-Unmoved (suc zero) j (some k) e = (k, refl, (ground arith, ground arith))
arrive-Unmoved (suc (suc zero)) j key {k'} e = (k', e, (refl, refl))
arrive-Unmoved (suc (suc (suc i))) j key {k'} e = (k', e, (refl, refl))

depart_none : (i j : ℕ) (key : PamKey) → call (pam_states i).on_departure j key ≡ key
unfolding pam_states pam_definition pam_index call
depart_none zero j key = refl
depart_none (suc zero) j key = refl
depart_none (suc (suc zero)) j key = refl
depart_none (suc (suc (suc i))) j key = refl

started-Unmoved :
    (c : Option ℕ) (k : Managed)
    → (k₁ : Managed) × (started (pam_machine_at c) (some k) ≡ some k₁) × Unmoved k k₁
unfolding pam_states pam_definition call arrival pam_auth_arrival
started-Unmoved none k = (record k { pam = pam_auth_arrival k.pam }, refl, (refl, refl))
started-Unmoved (some i) k = (k, refl, (refl, refl))

moved-Unmoved :
    (c : Option ℕ) (i j : ℕ) (key : PamKey) {k' : Managed}
    → move (pam_machine_at c) i j key ≡ some k'
    → (k : Managed) × (key ≡ some k) × Unmoved k k'
moved-Unmoved c i j key {k'} e = elim (Bool-cases (i == j)) [
  | inl t ↦ (k', rw t at e, (refl, refl))
  | inr f ↦ arrive-Unmoved j j key (rw (f, depart_none i i key) at e)
]

-- A connection whose machine is one of pam.c.
pub record Standing (m : PamMachine) : Type 0 where
  pub machine : m ≡ pam_machine_at m.current
  pub valid : IsValid m

-- One event: the machine stays one of pam.c, and the accounts are left alone or it was permitted.
pub event_at :
    (kind : PamKind) (c : Option ℕ) (k k' : Managed) (ret : ℕ) {m' : PamMachine}
    → IsValid (pam_machine_at c)
    → stm_handler (pointer kind) (pam_machine_at c) (some k) ≡ some (ret, m', some k')
    → Standing m' × Permitted (stm_state (pam_machine_at c)) k k'
event_at kind c k k' ret {m'} v e =
    let m = pam_machine_at c in
    let (f, h, r, le, q, mv) = stm_handler-eq-some (pointer kind) m (some k) v e in
    let (k₁, s, (us, ns)) = started-Unmoved c k in
    let (k₂, e₂, (us', ns')) = moved-Unmoved c (stm_state m) ret (f (started m (some k))).1 mv in
    let p : f (some k₁) ≡ (ret, some k₂) = cc (s, r, e₂) in
    let permitted = handler-Permitted (stm_state m) kind f k₁ k₂ ret h p in
    (
      rw q (record {
        machine = refl;
        valid = record {
          ordered = v.ordered;
          initial_exists = v.initial_exists;
          current_exists = λ j x. ground arith;
        };
      }),
      elim permitted [
        | inl same ↦ inl (cc (same, us, us'))
        | inr (i, t) ↦ inr (i, rw (us, ns) at t)
      ],
    )
