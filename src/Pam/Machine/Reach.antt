-- ===== src/Pam/Machine/Reach.antt =====
-- What can happen to a management connection (src/server/pam/pam.c), and who changes the accounts.
use socks5proxy.Prelude.{
  ◌≡◌, ◌⊎◌, refl, sym, ap, ◌∙◌, Bool, true, none, some, arith, Option-cases, inl, inr, subst,
}
use socks5proxy.Stm.{stm_state, stm_handler, stm_handler_read, stm_handler_write}
use socks5proxy.Stm.Driver.{driven}
use socks5proxy.Stm.Steps.{IsValid, stm_init-IsValid}
use socks5proxy.Users.{Users}
use socks5proxy.Users.Find.{accounts}
use socks5proxy.Pam.{PamState, Pam}
use socks5proxy.Pam.Methods.Authorisation.{is_authorised}
use socks5proxy.Pam.Machine.{
  PamOutcomes, Managed, PamMachine, pam_index, pam_is_over, pam_new, pam_read, pam_write,
}
use socks5proxy.Pam.Machine.Lifetime.{pam_machine_at, pam_machine_lem, pam_new_lem}
use socks5proxy.Pam.Machine.Accounts.{
  Permitted, PamKind, reading, writing, pointer, Standing, event_at,
}

-- An event on the descriptor of the connection.
pub data PamEvent (m : PamMachine) (k : Managed) : PamMachine → Managed → Type 0 where
  reads :
      (o : PamOutcomes) (over : Bool) {m' : PamMachine} {k' : Managed}
      → pam_read m (record k { outcomes = o }) ≡ some (over, m', k')
      → PamEvent m k m' k'
  writes :
      (o : PamOutcomes) (over : Bool) {m' : PamMachine} {k' : Managed}
      → pam_write m (record k { outcomes = o }) ≡ some (over, m', k')
      → PamEvent m k m' k'

-- Events of the connection, among changes of the accounts by others.
pub data PamReach (m₀ : PamMachine) (k₀ : Managed) : PamMachine → Managed → Type 0 where
  here : PamReach m₀ k₀ m₀ k₀
  event :
      {m m' : PamMachine} {k k' : Managed}
      → PamReach m₀ k₀ m k
      → PamEvent m k m' k'
      → PamReach m₀ k₀ m' k'
  elsewhere :
      {m : PamMachine} {k : Managed} (u : Users)
      → PamReach m₀ k₀ m k
      → PamReach m₀ k₀ m (record k { users = u })

driven-Standing :
    (kind : PamKind) (m m' : PamMachine) (k k' : Managed) (over : Bool)
    → Standing m
    → driven pam_is_over (stm_handler (pointer kind) m (some k)) ≡ some (over, m', k')
    → Standing m' × Permitted (stm_state m) k k'
unfolding driven
driven-Standing kind m m' k k' over s e =
    elim (Option-cases (stm_handler (pointer kind) m (some k))) [
      | inl n ↦ absurd (ground arith)
      | inr ((ret, m₁, none), p) ↦ absurd (ground arith)
      | inr ((ret, m₁, some k₁), p) ↦
          let q : m₁ ≡ m' = ground arith in
          let q' : k₁ ≡ k' = ground arith in
          let shape = s.machine in
          let (after, permitted) =
            event_at kind m.current k k' ret (subst IsValid shape s.valid)
              (ap (λ z. stm_handler (pointer kind) z (some k)) (sym shape) ∙ cc (p, q, q')) in
          (after, subst (λ z. Permitted (stm_state z) k k') (sym shape) permitted)
    ]

PamEvent-Standing :
    {m m' : PamMachine} {k k' : Managed}
    → PamEvent m k m' k'
    → Standing m
    → Standing m' × Permitted (stm_state m) k k'
unfolding pam_read pam_write stm_handler_read stm_handler_write
PamEvent-Standing {m} {m'} {k} {k'} (reads o over e) s =
    driven-Standing reading m m' (record k { outcomes = o }) k' over s e
PamEvent-Standing {m} {m'} {k} {k'} (writes o over e) s =
    driven-Standing writing m m' (record k { outcomes = o }) k' over s e

PamReach-Standing :
    {m₀ : PamMachine} {k₀ : Managed} {m : PamMachine} {k : Managed}
    → PamReach m₀ k₀ m k
    → Standing m₀
    → Standing m
PamReach-Standing here s = s
PamReach-Standing (event r e) s = (PamEvent-Standing e (PamReach-Standing r s)).0
PamReach-Standing (elsewhere u r) s = PamReach-Standing r s

new-Standing : {m : PamMachine} (new : Pam) {c : Pam} → pam_new new ≡ some (m, c) → Standing m
new-Standing {m} new e =
    let q : m ≡ pam_machine_at none = ground (arith, pam_new_lem new) in
    rw q (record { machine = refl; valid = stm_init-IsValid (pam_machine_at none) pam_machine_lem })

-- A connection that `pam_new` has set up, after any sequence of events on its descriptor, with any
-- outcomes of the calls to the system, among any changes of the accounts by others: an event
-- leaves the accounts as they were, unless its state was PAM_REQUEST and the name of the connection
-- was an administrator's before it.
pub PamReach-Permitted :
    {m₀ m m' : PamMachine} {c : Pam} {k₀ k k' : Managed} (new : Pam)
    → pam_new new ≡ some (m₀, c)
    → PamReach m₀ k₀ m k
    → PamEvent m k m' k'
    → (accounts k'.users ≡ accounts k.users)
      ⊎ ((stm_state m ≡ pam_index PamState.pam_request) × (is_authorised k.pam k.users ≡ true))
PamReach-Permitted new e r step =
    (PamEvent-Standing step (PamReach-Standing r (new-Standing new e))).1
