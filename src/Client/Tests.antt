-- ===== src/Client/Tests.antt =====
-- The theorems on the client at concrete command lines and connections.
use socks5proxy.Prelude.{
  ℕ, ◌+◌, ◌%◌, ◌^◌, ◌≤◌, ◌≡◌, refl, true, none, some, List, [], ◌∷◌, ◌++◌, Memory, length,
  replicate, take, drop, slice, store, arith,
}
use socks5proxy.Buffer.{Buffer}
use socks5proxy.Buffer.View.{Holds}
use socks5proxy.CString.{c_str, strlen, strcmp, compare_bytes}
use socks5proxy.Metrics.{metrics_init}
use socks5proxy.Selector.{op_write}
use socks5proxy.Socket.{Recv, received}
use socks5proxy.Users.{Users, user_ok, user_cmp, str_equal, user_authenticate, admin_user}
use socks5proxy.Users.Find.{accounts, at_iter}
use socks5proxy.Users.Accounts.{lookup_user}
use socks5proxy.Users.Laws.{IsValid, is_admin_spec}
use socks5proxy.Pam.{
  pam_auth, pam_request, PamAuthState, PamRequestState, Pam, pam_buffer_size, pam_version_1,
  array_255,
}
use socks5proxy.Pam.Auth.{pam_auth_read}
use socks5proxy.Pam.Auth.Accepts.{auth_answer}
use socks5proxy.Pam.Dispatch.{Inputs}
use socks5proxy.Pam.Methods.{pam_request_success}
use socks5proxy.Pam.Methods.Authorisation.{is_authorised}
use socks5proxy.Pam.Request.{reply, pam_request_read}
use socks5proxy.Pam.Request.Laws.{served}
use socks5proxy.Client.{ClientArgs, protocol_version}
use socks5proxy.Client.Words.{word_remove_user}
use socks5proxy.Client.Messages.{send_request, add_user, auth_message}
use socks5proxy.Client.Messages.Served.{Ready, send_request-pam_request_read, add_user-authenticate}
use socks5proxy.Client.Login.{auth_message-pam_auth_read}
use socks5proxy.Client.Response.{receive_response, response_of, reply-receive_response}

abbrev blank : Memory
blank i = 0

-- The accounts that `users_init` makes.
abbrev only_admin : Users
only_admin = record {
  users_list = record { head = admin_user ∷ []; iter = 0; size = 1; cmp = user_cmp };
  total_admins = 1;
}

only_admin-IsValid : IsValid only_admin
only_admin-IsValid = record {
  by_name = refl;
  sorted = record { ascending = (tt, tt); counted = refl };
}

-- A connection of "admin" with an empty buffer of 4096 bytes.
abbrev connection : Pam
connection = record {
  client_buffer = record { mem = blank; limit = 4096; read = 0; write = 0 };
  auth = record {
    state = PamAuthState.ver_n_nuser_n_npass;
    status = 0;
    n_user = 0;
    n_pass = 0;
    username = store blank 0 (97 ∷ 100 ∷ 109 ∷ 105 ∷ 110 ∷ []);
    pass = blank;
  };
  request = record {
    state = PamRequestState.ver_n_reserved;
    reserved = 0;
    method = 0;
    read_nbody = 0;
    read_body = blank;
    status = 0;
    write_nbody = 0;
    write_body = blank;
  };
  client_interest = 1;
}

connection-empty : Holds connection.client_buffer [] 4096
connection-empty = record {
  valid = record { ordered = omega arith; bounded = omega arith };
  bytes = refl;
  same_limit = refl;
}

abbrev inputs : Inputs
inputs = record {
  local = record { username = replicate 256 7; password = replicate 256 7; privilege_level = 9 };
  alloc = true;
  garbage = blank;
  metrics = metrics_init;
  snprintf = λ m. none;
}

ready : (n : ℕ) → n ≤ 100 → Ready connection 4096 n
ready n h = record {
  empty = connection-empty;
  waits = refl;
  agreed = refl;
  room = omega arith;
  small = omega arith;
}

-- "bo" and "pw"
abbrev name : List ℕ
name = 98 ∷ 111 ∷ 0 ∷ []

abbrev password : List ℕ
password = 112 ∷ 119 ∷ 0 ∷ []

abbrev args : ClientArgs
args = record {
  host = [];
  port = 8080;
  option = none;
  user = some name;
  password = some password;
  usr_count = 0;
  arg1 = some name;
  arg2 = some password;
  arg3 = some (49 ∷ 0 ∷ []);
}

abbrev one : List ℕ → ℕ
one s = 1

two_bytes : (strlen name ≡ 2) × (strlen password ≡ 2)
unfolding strlen c_str
two_bytes = (refl, refl)

connection-authorised : is_authorised connection only_admin ≡ true
unfolding is_admin_spec lookup_user str_equal strcmp compare_bytes c_str array_255
connection-authorised = refl

free_name : lookup_user name (accounts only_admin) ≡ none
unfolding lookup_user str_equal strcmp compare_bytes c_str
free_name = refl

add_user-authenticate_example :
    (m : List ℕ) × (c' : Pam) × (u' : Users) × (k : ℕ) × (rest : List ℕ) × (add_user one args
      ≡ some m)
    × (pam_request_read inputs connection only_admin (Recv.received m) ≡ some (pam_request, c', u'))
    × IsValid u'
    × (user_authenticate u' (c_str name) (c_str password) ≡ some (user_ok, at_iter u' k))
    × Holds c'.client_buffer (pam_version_1 ∷ pam_request_success ∷ rest) 4096
add_user-authenticate_example =
    add_user-authenticate inputs connection only_admin one args name password (49 ∷ 0 ∷ [])
      (record { memory = refl; names = omega arith; passwords = omega arith })
      (ready (strlen name + strlen password + 3) (omega (arith, two_bytes.0, two_bytes.1)))
      (omega arith) connection-authorised only_admin-IsValid refl refl refl
      (omega (arith, two_bytes.0)) (omega (arith, two_bytes.1)) free_name

send_request-pam_request_read_example :
    (m : List ℕ) × (c' : Pam) × (local : Buffer) × (send_request protocol_version 6
        (length name % 2 ^ 16)
        (some name)
      ≡ some m)
    × (pam_request_read inputs connection only_admin (Recv.received m)
        ≡ served inputs c' only_admin local)
    × (c'.request.method ≡ 6)
    × Holds local name pam_buffer_size
    × Holds c'.client_buffer [] 4096
    × (c'.auth ≡ connection.auth)
    × (c'.request.write_nbody ≡ 0)
send_request-pam_request_read_example =
    send_request-pam_request_read inputs connection only_admin 6 name (ready 3 (omega arith))
      (omega arith)

auth_message-pam_auth_read_example :
    (m : List ℕ) × (c' : Pam) × (k : ℕ) × (auth_message args ≡ some (some m))
    × (pam_auth_read connection only_admin (Recv.received m)
        ≡ some (pam_auth, c', at_iter only_admin k))
    × Holds c'.client_buffer
        (pam_version_1 ∷ auth_answer (lookup_user name (accounts only_admin)) (c_str password) ∷ [])
        4096
    × (c'.client_interest ≡ op_write)
auth_message-pam_auth_read_example =
    auth_message-pam_auth_read connection only_admin args name password connection-empty refl refl
      refl (omega (arith, two_bytes.0)) (omega (arith, two_bytes.1)) (omega (arith, two_bytes.0))
      (omega (arith, two_bytes.1)) (omega (arith, two_bytes.0, two_bytes.1))

reply-receive_response_example :
    (c' : Pam) × (bytes : List ℕ) × (reply (connection, only_admin) ≡ some (c', only_admin))
    × Holds c'.client_buffer bytes 4096
    × (receive_response blank (received (take 4 bytes)) (received (drop 4 bytes))
        ≡ some (response_of 0 0 (slice blank 0 0)))
reply-receive_response_example =
    reply-receive_response connection only_admin blank refl (omega arith) (omega arith)

-- remove-user bo
abbrev command_line : List (List ℕ)
command_line = (word_remove_user ++ 0 ∷ []) ∷ name ∷ []
