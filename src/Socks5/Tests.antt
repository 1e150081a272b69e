-- ===== src/Socks5/Tests.antt =====
-- The theorems on the states of a connection at concrete connections.
use socks5proxy.Prelude.{
  ℕ, ◌≡◌, refl, true, false, none, some, List, [], ◌∷◌, store, Memory, length, arith, if◌then◌else◌,
}
use socks5proxy.Buffer.{
  Buffer, pos, buffer_can_read, buffer_can_write, buffer_write_ptr, buffer_read_ptr,
  buffer_write_adv, buffer_read_adv, buffer_read, buffer_write, buffer_compact,
}
use socks5proxy.Buffer.View.{Holds}
use socks5proxy.CString.{c_str, strcmp, compare_bytes}
use socks5proxy.ListAdt.{list_begin_iter, list_has_next, list_get_next}
use socks5proxy.Users.{
  Users, user_cmp, str_equal, deref, find_loop, user_get_if_exists, user_authenticate,
}
use socks5proxy.Socket.{Recv, recv_into}
use socks5proxy.Socks5.{SocksV5State, Socks5, AuthSt, ver_n_nmethods, auth_ver, auth_passwd}
use socks5proxy.Socks5.Greeting.{no_auth_method, auth_method, greeting_read, greeting_write}
use socks5proxy.Socks5.Greeting.Spec.{contains, after_first, Shows, greeting_spec}
use socks5proxy.Socks5.Greeting.Refine.{greeting_read-refines}
use socks5proxy.Socks5.Greeting.Outcome.{fresh_view, chosen_method, whole_greeting}
use socks5proxy.Socks5.Auth.{
  auth_read, auth_blocks, block_ver, block_ulen, block_uname, block_plen, block_passwd, read_bytes,
  array_256, accepted,
}
use socks5proxy.Socks5.Auth.Safety.{Matches, auth_read-Matches}

abbrev blank : Memory
blank i = 0

-- A buffer of eight bytes that holds these.
abbrev holding : List ℕ → Buffer
holding xs = record { mem = store blank 0 xs; limit = 8; read = 0; write = length xs }

abbrev auth_start : AuthSt
auth_start = record {
  state = auth_ver;
  ulen = 0;
  plen = 0;
  username = blank;
  password = blank;
  authenticated = false;
}

abbrev fresh_connection : Socks5
fresh_connection = record {
  client_buffer = holding [];
  origin_buffer = holding [];
  greeting_st = record { state = ver_n_nmethods; n_methods = 0; method = no_auth_method };
  auth_st = auth_start;
  client_interest = 1;
}

nothing-Holds : Holds (holding []) [] 8
nothing-Holds = record {
  valid = record { ordered = omega arith; bounded = omega arith };
  bytes = refl;
  same_limit = refl;
}

fresh_connection-Shows : Shows fresh_connection fresh_view 8 8
fresh_connection-Shows = record {
  client_holds = nothing-Holds;
  origin_holds = nothing-Holds;
  state_eq = refl;
  n_methods_eq = refl;
  method_eq = refl;
  interest_eq = refl;
}

greeting_read-refines_example :
    (c' : Socks5) × (greeting_read fresh_connection (Recv.received (5 ∷ 1 ∷ 2 ∷ []))
      ≡ some ((greeting_spec fresh_view (5 ∷ 1 ∷ 2 ∷ [])).0, c'))
    × Shows c' (greeting_spec fresh_view (5 ∷ 1 ∷ 2 ∷ [])).1 8 8
greeting_read-refines_example =
    greeting_read-refines (5 ∷ 1 ∷ 2 ∷ []) fresh_connection-Shows refl (omega arith) (omega arith)

whole_greeting_example :
    (c₁ : Socks5) × (c₂ : Socks5) × (greeting_read fresh_connection
        (Recv.received (5 ∷ 2 ∷ 2 ∷ 0 ∷ []))
      ≡ some (SocksV5State.greeting, c₁))
    × Holds c₁.origin_buffer (5 ∷ chosen_method (2 ∷ 0 ∷ []) ∷ []) 8
    × (greeting_write c₁ (pos 2)
        ≡ some (
          (if contains auth_method (2 ∷ 0 ∷ []) then SocksV5State.auth else SocksV5State.request),
          c₂,
        ))
    × Holds c₂.client_buffer (after_first auth_method 2 (2 ∷ 0 ∷ [])) 8
whole_greeting_example =
    whole_greeting (2 ∷ 0 ∷ []) fresh_connection-Shows (omega arith) (omega arith) (omega arith)

-- One account, "a" with the password "b".
abbrev one_user : Users
one_user = record {
  users_list = record {
    head = record { username = 97 ∷ 0 ∷ []; password = 98 ∷ 0 ∷ []; privilege_level = 0 } ∷ [];
    iter = 0;
    size = 1;
    cmp = user_cmp;
  };
  total_admins = 1;
}

-- All but the password "b" has been read.
abbrev before_password : Socks5
before_password = record fresh_connection {
  auth_st = record auth_start {
    state = auth_passwd;
    ulen = 1;
    plen = 1;
    username = store blank 0 (97 ∷ []);
  };
}

-- `auth_read` on it, with an arbitrary answer where it has none.
abbrev authenticated : SocksV5State × Socks5 × Users
authenticated = elim (auth_read before_password one_user (Recv.received (98 ∷ []))) [
  | none ↦ (SocksV5State.error, before_password, one_user)
  | some r ↦ r
]

auth_read-run :
    (auth_read before_password one_user (Recv.received (98 ∷ []))
      ≡ some (authenticated.0, authenticated.1, authenticated.2))
    × (authenticated.1.auth_st.authenticated ≡ true)
unfolding auth_read recv_into buffer_write_ptr buffer_write_adv buffer_read_ptr auth_blocks
    block_ver block_ulen block_uname block_plen block_passwd read_bytes buffer_read buffer_can_read
    buffer_read_adv buffer_compact user_authenticate user_get_if_exists find_loop list_begin_iter
    list_has_next list_get_next str_equal strcmp compare_bytes c_str array_256 accepted buffer_write
    buffer_can_write deref
auth_read-run = (refl, refl)

auth_read-Matches_example : Matches one_user authenticated.1.auth_st
auth_read-Matches_example =
    auth_read-Matches before_password one_user (Recv.received (98 ∷ [])) auth_read-run.0 refl
      auth_read-run.1
