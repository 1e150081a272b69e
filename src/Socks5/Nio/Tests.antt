-- ===== src/Socks5/Nio/Tests.antt =====
-- The theorems on a whole connection at a client that authenticates.
use socks5proxy.Prelude.{
  ℕ, zero, suc, ◌≡◌, refl, sym, ap, ◌∙◌, ◌⊎◌, inl, inr, true, false, Option, none, some, List, [],
  ◌∷◌, ◌==◌, Memory, set, arith,
}
use socks5proxy.Buffer.{
  Buffer, pos, buffer_can_read, buffer_can_write, buffer_write_ptr, buffer_read_ptr,
  buffer_write_adv, buffer_read_adv, buffer_read, buffer_write, buffer_compact,
}
use socks5proxy.CString.{c_str, strcmp, compare_bytes}
use socks5proxy.ListAdt.{list_begin_iter, list_has_next, list_get_next}
use socks5proxy.Users.{user_cmp, str_equal, deref, find_loop, user_get_if_exists, user_authenticate}
use socks5proxy.Socket.{received, recv_into}
use socks5proxy.Stm.{
  call, handle_first, depart, is_current, jump, stm_handler, stm_handler_read, stm_handler_write,
  stm_state,
}
use socks5proxy.Stm.Driver.{ready, arrival, driven}
use socks5proxy.Copy.{Side, CopySt}
use socks5proxy.Socks5.{SocksV5State, ver_n_nmethods, auth_ver}
use socks5proxy.Socks5.Late.{late}
use socks5proxy.Socks5.Greeting.{
  auth_method, greeting_arrival, greeting_read, greeting_write, greeting_version, scan_methods,
  greeting_methods,
}
use socks5proxy.Socks5.Auth.{
  auth_arrival, auth_read, auth_write, auth_blocks, block_ver, block_ulen, block_uname, block_plen,
  block_passwd, read_bytes, array_256, accepted,
}
use socks5proxy.Socks5.Session.{ver_cmd_atyp}
use socks5proxy.Socks5.Session.Connection.{no_socket}
use socks5proxy.Socks5.Session.Request.{request_arrival}
use socks5proxy.Socks5.Nio.{Outcomes, Proxied}
use socks5proxy.Socks5.Nio.Table.{
  index, definition, socks5_states, Machine, is_over, Driven, socksv5_read, socksv5_write,
  greeting_reading, greeting_writing, auth_reading, auth_writing,
}
use socks5proxy.Socks5.Nio.Safety.{
  machine_at, socks5_new_lem, here, next, reads, writes, Reach-authenticated,
}
use socks5proxy.Selector.{op_read, op_write, Item, FdSelector}
use socks5proxy.Selector.Table.{wants}
use socks5proxy.Selector.Table.Slots.{item_at}
use socks5proxy.Selector.Table.Invariant.{wanted, Tabled}
use socks5proxy.Socks5.Nio.Closing.{Ending, socksv5_done, socksv5_done_lem}

abbrev blank : Memory
blank i = 0

abbrev empty_buffer : Buffer
empty_buffer = record { mem = blank; limit = 16; read = 0; write = 0 }

-- `recv` delivers these bytes, and `send` takes two.
abbrev delivering : List ℕ → Outcomes
delivering bytes = record {
  first = received bytes;
  second = received [];
  sent = pos 2;
  so_error = none;
  sock_name = none;
  network = record {
    ntop = λ family b. none;
    pton = λ family t. none;
    getaddrinfo = λ host port. none;
    alloc = true;
    thread = true;
    attempt = λ a. no_socket;
    garbage = 0;
  };
  side = Side.client;
}

abbrev no_copy : CopySt
no_copy = record { interests = 0; item = none; shut = record { shut_rd = false; shut_wr = false } }

-- A fresh connection, on a server with one account, "a" with the password "b".
abbrev fresh : Proxied
fresh = record {
  base = record {
    client_buffer = empty_buffer;
    origin_buffer = empty_buffer;
    greeting_st = record { state = ver_n_nmethods; n_methods = 0; method = 0 };
    auth_st = record {
      state = auth_ver;
      ulen = 0;
      plen = 0;
      username = blank;
      password = blank;
      authenticated = false;
    };
    client_interest = 1;
  };
  session = record {
    client_buffer = empty_buffer;
    origin_buffer = empty_buffer;
    request_st = record { state = ver_cmd_atyp; cmd = 0; atyp = 0 };
    rep = 0;
    found_bnd_info = false;
    origin_fd = none;
    origin_host = [];
    origin_port = 0;
    origin_resolution = [];
    atyp = 0;
    client_interest = 1;
    origin_interest = none;
  };
  client_copy = no_copy;
  origin_copy = no_copy;
  users = record {
    users_list = record {
      head = record { username = 97 ∷ 0 ∷ []; password = 98 ∷ 0 ∷ []; privilege_level = 0 } ∷ [];
      iter = 0;
      size = 1;
      cmp = user_cmp;
    };
    total_admins = 1;
  };
  metrics = record {
    current_connections = 1;
    total_connections = 1;
    total_bytes_sent = 0;
    total_bytes_received = 0;
  };
  outcomes = delivering [];
}

abbrev Point : Type 0
Point = Machine × Proxied

-- What an event leaves, with an arbitrary answer where it has none.
abbrev reached : Driven → Point
reached none = (machine_at none, fresh)
reached (some (over, m, k)) = (m, k)

abbrev reading : Point → List ℕ → Driven
reading p bytes = socksv5_read p.0 (record (p.1) { outcomes = delivering bytes })

abbrev writing : Point → Driven
writing p = socksv5_write p.0 (record (p.1) { outcomes = delivering [] })

abbrev p₁ : Point
p₁ = reached (reading (machine_at none, fresh) (5 ∷ 1 ∷ 2 ∷ []))

abbrev p₂ : Point
p₂ = reached (writing p₁)

abbrev p₃ : Point
p₃ = reached (reading p₂ (1 ∷ 1 ∷ 97 ∷ 1 ∷ 98 ∷ []))

abbrev p₄ : Point
p₄ = reached (writing p₃)

run :
    (reading (machine_at none, fresh) (5 ∷ 1 ∷ 2 ∷ []) ≡ some (false, p₁.0, p₁.1))
    × (writing p₁ ≡ some (false, p₂.0, p₂.1))
    × (reading p₂ (1 ∷ 1 ∷ 97 ∷ 1 ∷ 98 ∷ []) ≡ some (false, p₃.0, p₃.1))
    × (writing p₃ ≡ some (false, p₄.0, p₄.1))
    × (stm_state p₄.0 ≡ index SocksV5State.request)
    × (p₄.1.base.greeting_st.method ≡ auth_method)
unfolding socksv5_read socksv5_write driven is_over stm_handler_read stm_handler_write stm_handler
    handle_first depart is_current jump call stm_state socks5_states definition index ready arrival
    greeting_reading greeting_writing auth_reading auth_writing greeting_arrival greeting_read
    greeting_write greeting_version scan_methods greeting_methods auth_arrival request_arrival
    auth_read auth_write recv_into buffer_write_ptr buffer_write_adv buffer_read_ptr auth_blocks
    block_ver block_ulen block_uname block_plen block_passwd read_bytes buffer_read buffer_can_read
    buffer_read_adv buffer_compact user_authenticate user_get_if_exists find_loop list_begin_iter
    list_has_next list_get_next str_equal strcmp compare_bytes c_str array_256 accepted buffer_write
    buffer_can_write deref
run = (refl, refl, refl, refl, refl, refl)

Reach-authenticated_example : p₄.1.base.auth_st.authenticated ≡ true
unfolding late
Reach-authenticated_example =
    Reach-authenticated {k₀ = fresh} SocksV5State.request socks5_new_lem
      (next
        (next
          (next (next here (reads (delivering (5 ∷ 1 ∷ 2 ∷ [])) false run.0))
            (writes (delivering []) false run.1))
          (reads (delivering (1 ∷ 1 ∷ 97 ∷ 1 ∷ 98 ∷ [])) false run.2))
        (writes (delivering []) false run.3))
      run.4 refl run.5

-- Descriptors 1 and 2 of the table are those of a connection.
abbrev item_1 : Item ℕ
item_1 = record { fd = 1; interest = 1; attachment = 0 }

abbrev item_2 : Item ℕ
item_2 = record { fd = 2; interest = 4; attachment = 0 }

abbrev both : List (Option (Item ℕ))
both = none ∷ some item_1 ∷ some item_2 ∷ []

abbrev connected : FdSelector ℕ
connected = record {
  fds = some both;
  fd_size = 3;
  max_fd = 2;
  master_r = λ i. i == 1;
  master_w = λ i. i == 2;
}

both-cases :
    (i : ℕ) (x : Item ℕ)
    → item_at both i ≡ some x
    → ((i ≡ 1) × (x ≡ item_1)) ⊎ ((i ≡ 2) × (x ≡ item_2))
unfolding item_at
both-cases zero x e = absurd (ground arith)
both-cases (suc zero) x e = inl (refl, ground arith)
both-cases (suc (suc zero)) x e = inr (refl, ground arith)
both-cases (suc (suc (suc i))) x e = absurd (ground arith)

connected-reads : (i : ℕ) → connected.master_r i ≡ wanted op_read (item_at both i)
unfolding item_at wants
connected-reads zero = refl
connected-reads (suc zero) = refl
connected-reads (suc (suc zero)) = refl
connected-reads (suc (suc (suc i))) = ground arith

connected-writes : (i : ℕ) → connected.master_w i ≡ wanted op_write (item_at both i)
unfolding item_at wants
connected-writes zero = refl
connected-writes (suc zero) = refl
connected-writes (suc (suc zero)) = refl
connected-writes (suc (suc (suc i))) = ground arith

connected-Tabled : Tabled connected both
unfolding item_at
connected-Tabled = record {
  table = refl;
  counted = refl;
  inside = omega arith;
  own = λ i x e. elim (both-cases i x e) [
    | inl (p, q) ↦ ap (λ y. y.fd) q ∙ sym p
    | inr (p, q) ↦ ap (λ y. y.fd) q ∙ sym p
  ];
  upper = λ i x e. elim (both-cases i x e) [
    | inl (p, q) ↦ omega (arith, p)
    | inr (p, q) ↦ omega (arith, p)
  ];
  used = inr (item_2, refl);
  reads = connected-reads;
  writes = connected-writes;
}

abbrev open_connection : Ending ℕ
open_connection = record {
  selector = connected;
  metrics = record {
    current_connections = 5;
    total_connections = 9;
    total_bytes_sent = 0;
    total_bytes_received = 0;
  };
  client_fd = 1;
  origin_fd = some 2;
  closed = false;
  closed_fds = [];
  freed = false;
}

-- One of five open connections ends, and three are counted.
socksv5_done_lem_example :
    (c' : Ending ℕ) × (socksv5_done 2 open_connection ≡ some c')
    × Tabled c'.selector (set (set both 2 none) 1 none)
    × (c'.closed_fds ≡ 2 ∷ 1 ∷ [])
    × (c'.freed ≡ true)
    × (c'.metrics.current_connections ≡ 3)
unfolding item_at
socksv5_done_lem_example =
    socksv5_done_lem 0 2 open_connection both refl refl (λ e. absurd (omega (arith, e)))
      connected-Tabled refl refl (omega arith) (omega arith)
