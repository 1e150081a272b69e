-- ===== src/Pam/Machine/Lifetime.antt =====
-- How src/server/pam/pam.c accepts a management connection and how it ends.
use socks5proxy.Prelude.{ℕ, ◌≡◌, ◌<◌, refl, Bool, true, Option, none, some, [], ◌∷◌}
use socks5proxy.Buffer.{buffer_init}
use socks5proxy.Selector.{items_max_size, op_read, FdSelector}
use socks5proxy.Selector.Table.{item_of, succeeded}
use socks5proxy.Selector.Table.Invariant.{IsValid}
use socks5proxy.Selector.Table.Sequence.{unregister_inert, register-unregister}
use socks5proxy.Stm.{stm_init, consecutive}
use socks5proxy.Pam.{Pam, pam_buffer_size}
use socks5proxy.Pam.Machine.{
  PamMachine, pam_index, pam_definition, pam_states, pam_new, Connection, pam_passive_accept,
  pam_close, pam_done,
}

-- The machine of a connection, with its current state.
abbrev pub pam_machine_at : Option ℕ → PamMachine
pam_machine_at c = record { initial = 0; states = pam_states; max_state = 3; current = c }

pub pam_machine_lem : stm_init (pam_machine_at none) ≡ some (pam_machine_at none)
unfolding stm_init consecutive pam_states pam_definition pam_index
pam_machine_lem = refl

abbrev pub pam_started : Pam → Pam
pam_started new = record new { client_buffer = buffer_init pam_buffer_size new.client_buffer.mem }

pub pam_new_lem : (new : Pam) → pam_new new ≡ some (pam_machine_at none, pam_started new)
unfolding pam_new pam_index
pam_new_lem new = rw pam_machine_lem refl

-- When accept(2) gives a descriptor of the table that is not in use, and there is memory for the
-- connection, `pam_passive_accept` registers it and closes nothing; `pam_done` then closes that
-- descriptor, and the selector is exactly what it was before.
pub pam_passive_accept-pam_done :
    (s : FdSelector Connection) (fd : ℕ) (new : Pam) (alloc : Bool)
    → IsValid s
    → item_of s fd ≡ some none
    → fd < items_max_size
    → (s' : FdSelector Connection) × (pam_passive_accept
          (record { client_fd = some fd; nio = true; new = some new; alloc = alloc })
          s
        ≡ some (s', []))
      × (pam_done s' fd ≡ some (s, fd ∷ []))
unfolding pam_passive_accept pam_done pam_close succeeded
pam_passive_accept-pam_done s fd new alloc v free h =
    let (s', e, back) =
      register-unregister s fd op_read (pam_machine_at none, pam_started new) alloc v free h in
    (s', rw (pam_new_lem new, e) refl, rw (unregister_inert s' fd, back) refl)
