-- ===== src/Pam/Tests.antt =====
-- The theorems on the management protocol at concrete connections.
use socks5proxy.Prelude.{
  ℕ, ◌≡◌, refl, none, some, List, [], ◌∷◌, store, Memory, length, arith, ◌+◌, ◌<◌, ◌++◌, slice,
  replicate,
}
use socks5proxy.Buffer.{
  Buffer, buffer_can_read, buffer_can_write, buffer_write_ptr, buffer_read_ptr, buffer_write_adv,
  buffer_read_adv, buffer_read, buffer_write, buffer_compact, buffer_reset,
}
use socks5proxy.CString.{c_str, strcmp, compare_bytes}
use socks5proxy.ListAdt.{list_begin_iter, list_has_next, list_get_next}
use socks5proxy.Socket.{Recv, recv_into}
use socks5proxy.Users.{
  User, Users, user_cmp, str_equal, deref, find_loop, user_get_if_exists, user_authenticate,
}
use socks5proxy.Pam.{
  PamState, pam_error, PamAuthState, PamRequestState, Pam, pam_buffer_size, array_255, terminate,
}
use socks5proxy.Pam.Auth.{
  block_lengths, block_username, block_pass, read_available, answer, pam_auth_read,
}
use socks5proxy.Pam.Auth.Safety.{Earned, pam_auth_read-Earned}
use socks5proxy.Pam.Dispatch.{users_message, handle_get_connected_users_list}
use socks5proxy.Pam.Dispatch.Reading.{handle_get_connected_users_list_lem}
use socks5proxy.Users.Find.{accounts, at_iter}
use socks5proxy.Users.Listing.{listing, line, mark}

abbrev blank : Memory
blank i = 0

-- A buffer of eight bytes that holds these.
abbrev holding : List ℕ → Buffer
holding xs = record { mem = store blank 0 xs; limit = 8; read = 0; write = length xs }

-- One account, "a" with the password "b", which is not an administrator's.
abbrev default_user : User
default_user = record { username = 97 ∷ 0 ∷ []; password = 98 ∷ 0 ∷ []; privilege_level = 1 }

abbrev one_user : Users
one_user = record {
  users_list = record { head = default_user ∷ []; iter = 0; size = 1; cmp = user_cmp };
  total_admins = 0;
}

-- A connection of that user, that has the bytes of the list in its buffer.
abbrev connection : List ℕ → Pam
connection xs = record {
  client_buffer = holding xs;
  auth = record {
    state = PamAuthState.pass;
    status = 7;
    n_user = 1;
    n_pass = 1;
    username = store blank 0 (97 ∷ []);
    pass = blank;
  };
  request = record {
    state = PamRequestState.ver_n_reserved;
    reserved = 0;
    method = 2;
    read_nbody = 0;
    read_body = blank;
    status = 0;
    write_nbody = 0;
    write_body = blank;
  };
  client_interest = 1;
}

-- What `pam_auth_read` does with the password, with an arbitrary answer where it has none.
abbrev authenticated : PamState × Pam × Users
authenticated = elim (pam_auth_read (connection []) one_user (Recv.received (98 ∷ []))) [
  | none ↦ (pam_error, connection [], one_user)
  | some r ↦ r
]

pam_auth_read-run :
    pam_auth_read (connection []) one_user (Recv.received (98 ∷ []))
    ≡ some (authenticated.0, authenticated.1, authenticated.2)
unfolding pam_auth_read recv_into buffer_write_ptr buffer_write_adv buffer_read_ptr block_lengths
    block_username block_pass read_available buffer_read buffer_can_read buffer_read_adv
    buffer_compact buffer_reset user_authenticate user_get_if_exists find_loop list_begin_iter
    list_has_next list_get_next str_equal strcmp compare_bytes c_str array_255 terminate answer
    buffer_write buffer_can_write deref
pam_auth_read-run = refl

pam_auth_read-Earned_example : Earned one_user (connection []).auth authenticated.1.auth
pam_auth_read-Earned_example =
    pam_auth_read-Earned (connection []) one_user (Recv.received (98 ∷ [])) pam_auth_read-run

short_listing : length (listing (accounts one_user)) + 36 < pam_buffer_size
unfolding listing line mark c_str
short_listing = omega arith

handle_get_connected_users_list_lem_example :
    (c' : Pam) × (k : ℕ) × (handle_get_connected_users_list (connection []) one_user
      ≡ some (c', at_iter one_user k))
    × (c'.request.write_nbody ≡ length (listing (accounts one_user)) + 36)
    × (slice c'.request.write_body 0 c'.request.write_nbody
        ≡ (users_message ++ listing (accounts one_user)) ++ replicate 18 0)
    × (c'.request.status ≡ 0)
handle_get_connected_users_list_lem_example =
    handle_get_connected_users_list_lem (connection []) one_user short_listing
