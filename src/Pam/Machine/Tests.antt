-- ===== src/Pam/Machine/Tests.antt =====
-- The theorems on whole management connections at concrete ones.
use socks5proxy.Prelude.{
  ℕ, zero, suc, ◌≡◌, ◌⊎◌, refl, inl, arith, true, false, Option, none, some, List, [], ◌∷◌, Memory,
}
use socks5proxy.Buffer.{
  pos, buffer_can_read, buffer_can_write, buffer_write_ptr, buffer_read_ptr, buffer_write_adv,
  buffer_read_adv, buffer_read, buffer_write, buffer_compact, buffer_reset, buffer_init,
}
use socks5proxy.CString.{c_str, strcmp, compare_bytes}
use socks5proxy.ListAdt.{list_begin_iter, list_has_next, list_get_next}
use socks5proxy.Socket.{Recv, recv_into}
use socks5proxy.Metrics.{metrics_init}
use socks5proxy.Users.{
  User, user_cmp, str_equal, deref, find_loop, user_get_if_exists, user_authenticate, user_is_admin,
}
use socks5proxy.Users.Find.{accounts}
use socks5proxy.Stm.{
  call, handle_first, depart, is_current, jump, stm_handler, stm_handler_read, stm_handler_write,
  stm_state,
}
use socks5proxy.Stm.Driver.{ready, arrival, driven}
use socks5proxy.Pam.{PamState, PamAuthState, PamRequestState, Pam, array_255, read_into, terminate}
use socks5proxy.Pam.Auth.{
  pam_auth_arrival, block_lengths, block_username, block_pass, read_available, answer,
  pam_auth_read, pam_auth_write,
}
use socks5proxy.Pam.Methods.{read_string, handle_add_user}
use socks5proxy.Pam.Methods.Authorisation.{is_authorised}
use socks5proxy.Pam.Dispatch.{handle_pam_request_method}
use socks5proxy.Pam.Request.{
  pam_request_arrival, block_version, block_method, block_nbody, block_body, body_buffer, reply,
  write_from, pam_request_read,
}
use socks5proxy.Pam.Machine.{
  PamOutcomes, Managed, PamMachine, PamDriven, with_accounts, with_pam, pam_auth_reading,
  pam_auth_writing, pam_request_reading, pam_index, pam_ready, pam_definition, pam_states, pam_read,
  pam_write, pam_is_over, pam_passive_accept, pam_done, Connection,
}
use socks5proxy.Pam.Machine.Lifetime.{
  pam_machine_at, pam_started, pam_new_lem, pam_passive_accept-pam_done,
}
use socks5proxy.Pam.Machine.Reach.{here, event, reads, writes, PamReach-Permitted}
use socks5proxy.Selector.{Item, FdSelector}
use socks5proxy.Selector.Table.{item_of}
use socks5proxy.Selector.Table.Slots.{item_at}
use socks5proxy.Selector.Table.Invariant.{IsValid}

abbrev blank : Memory
blank i = 0

-- What `malloc` gave for a connection.
abbrev fresh : Pam
fresh = record {
  client_buffer = record { mem = blank; limit = 0; read = 0; write = 0 };
  auth = record {
    state = PamAuthState.pass;
    status = 7;
    n_user = 0;
    n_pass = 0;
    username = blank;
    pass = blank;
  };
  request = record {
    state = PamRequestState.write;
    reserved = 9;
    method = 0;
    read_nbody = 0;
    read_body = blank;
    status = 0;
    write_nbody = 0;
    write_body = blank;
  };
  client_interest = 1;
}

-- "a" with the password "b", which is not an administrator's.
abbrev plain_user : User
plain_user = record { username = 97 ∷ 0 ∷ []; password = 98 ∷ 0 ∷ []; privilege_level = 1 }

-- `recv` delivers these bytes, and `send` takes two.
abbrev delivering : List ℕ → PamOutcomes
delivering bytes = record {
  received = Recv.received bytes;
  sent = pos 2;
  inputs = record {
    local = plain_user;
    alloc = true;
    garbage = blank;
    metrics = metrics_init;
    snprintf = λ m. none;
  };
}

abbrev accepted : Managed
accepted = record {
  pam = pam_started fresh;
  users = record {
    users_list = record { head = plain_user ∷ []; iter = 0; size = 1; cmp = user_cmp };
    total_admins = 0;
  };
  outcomes = delivering [];
}

abbrev Point : Type 0
Point = PamMachine × Managed

-- What an event leaves, with an arbitrary answer where it has none.
abbrev reached : PamDriven → Point
reached none = (pam_machine_at none, accepted)
reached (some (over, m, k)) = (m, k)

abbrev reading : Point → List ℕ → PamDriven
reading p bytes = pam_read p.0 (record (p.1) { outcomes = delivering bytes })

abbrev writing : Point → PamDriven
writing p = pam_write p.0 (record (p.1) { outcomes = delivering [] })

abbrev p₁ : Point
p₁ = reached (reading (pam_machine_at none, accepted) (1 ∷ 1 ∷ 1 ∷ 97 ∷ 98 ∷ []))

abbrev p₂ : Point
p₂ = reached (writing p₁)

-- The request to add the user "x" with the password "y".
abbrev p₃ : Point
p₃ = reached (reading p₂ (1 ∷ 0 ∷ 0 ∷ 2 ∷ 0 ∷ 5 ∷ 1 ∷ 120 ∷ 1 ∷ 121 ∷ 0 ∷ []))

run :
    (reading (pam_machine_at none, accepted) (1 ∷ 1 ∷ 1 ∷ 97 ∷ 98 ∷ []) ≡ some (false, p₁.0, p₁.1))
    × (writing p₁ ≡ some (false, p₂.0, p₂.1))
    × (reading p₂ (1 ∷ 0 ∷ 0 ∷ 2 ∷ 0 ∷ 5 ∷ 1 ∷ 120 ∷ 1 ∷ 121 ∷ 0 ∷ []) ≡ some (false, p₃.0, p₃.1))
unfolding pam_read pam_write stm_handler_read stm_handler_write stm_handler handle_first depart
    is_current jump call driven ready arrival pam_ready pam_index pam_definition pam_states
    pam_is_over with_accounts with_pam pam_auth_reading pam_auth_writing pam_request_reading
    pam_auth_arrival pam_request_arrival pam_auth_read pam_auth_write pam_request_read recv_into
    buffer_init buffer_write_ptr buffer_write_adv buffer_read_ptr block_lengths block_username
    block_pass read_available buffer_read buffer_can_read buffer_can_write buffer_read_adv
    buffer_compact buffer_reset buffer_write user_authenticate user_is_admin user_get_if_exists
    find_loop list_begin_iter list_has_next list_get_next str_equal strcmp compare_bytes c_str
    array_255 terminate answer deref read_into read_string handle_add_user handle_pam_request_method
    block_version block_method block_nbody block_body body_buffer reply write_from
run = (refl, refl, refl)

PamReach-Permitted_example :
    (accounts p₃.1.users ≡ accounts p₂.1.users)
    ⊎ ((stm_state p₂.0 ≡ pam_index PamState.pam_request)
        × (is_authorised p₂.1.pam p₂.1.users ≡ true))
PamReach-Permitted_example =
    PamReach-Permitted {k₀ = accepted} fresh (pam_new_lem fresh)
      (event (event here (reads (delivering (1 ∷ 1 ∷ 1 ∷ 97 ∷ 98 ∷ [])) false run.0))
        (writes (delivering []) false run.1))
      (reads (delivering (1 ∷ 0 ∷ 0 ∷ 2 ∷ 0 ∷ 5 ∷ 1 ∷ 120 ∷ 1 ∷ 121 ∷ 0 ∷ [])) false run.2)

-- A table of three descriptors, none of them in use.
abbrev free_items : List (Option (Item Connection))
free_items = none ∷ none ∷ none ∷ []

abbrev unused : FdSelector Connection
unused = record {
  fds = some free_items;
  fd_size = 3;
  max_fd = 0;
  master_r = λ i. false;
  master_w = λ i. false;
}

all_free : (i : ℕ) → item_at free_items i ≡ none
unfolding item_at
all_free zero = refl
all_free (suc zero) = refl
all_free (suc (suc zero)) = refl
all_free (suc (suc (suc i))) = ground arith

unused-IsValid : IsValid unused
unused-IsValid = (
  free_items,
  record {
    table = refl;
    counted = refl;
    inside = omega arith;
    own = λ i x e. absurd (ground (arith, all_free i));
    upper = λ i x e. absurd (ground (arith, all_free i));
    used = inl refl;
    reads = λ i. ground (arith, all_free i);
    writes = λ i. ground (arith, all_free i);
  },
)

unused-free : item_of unused 1 ≡ some none
unfolding item_of
unused-free = refl

pam_passive_accept-pam_done_example :
    (s' : FdSelector Connection) × (pam_passive_accept
        (record { client_fd = some 1; nio = true; new = some fresh; alloc = true })
        unused
      ≡ some (s', []))
    × (pam_done s' 1 ≡ some (unused, 1 ∷ []))
pam_passive_accept-pam_done_example =
    pam_passive_accept-pam_done unused 1 fresh true unused-IsValid unused-free (omega arith)
