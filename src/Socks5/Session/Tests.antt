-- ===== src/Socks5/Session/Tests.antt =====
-- The theorems on the states REQUEST, CONNECT and REPLY at concrete requests.
use socks5proxy.Prelude.{
  ℕ, ◌≡◌, ◌==◌, if◌then◌else◌, refl, true, false, none, some, List, [], ◌∷◌, ◌++◌, inl, Memory,
  length, store, arith, ◌/◌, ◌%◌,
}
use socks5proxy.Buffer.{Buffer, pos}
use socks5proxy.Buffer.View.{Holds, received}
use socks5proxy.Selector.{op_write}
use socks5proxy.Socket.{Recv}
use socks5proxy.Socks5.{SocksV5State}
use socks5proxy.Socks5.Session.{ver_cmd_atyp, AddrInfo, Session, command_not_supported}
use socks5proxy.Socks5.Session.Connection.{
  Attempt, no_socket, in_progress, connected, connection_in_progress, try_connection,
}
use socks5proxy.Socks5.Session.Connection.Laws.{try_connection_lem}
use socks5proxy.Socks5.Session.Request.{Network, request_read}
use socks5proxy.Socks5.Session.Request.Header.{take_in-received, header_code, request_read-refuses}
use socks5proxy.Socks5.Session.Request.Address.{request_read_ip}
use socks5proxy.Socks5.Session.Reply.{
  reply_arrival, reply_write, reply_arrival_lem, reply_write_lem,
}

abbrev blank : Memory
blank i = 0

-- A buffer of 64 bytes that holds these.
abbrev holding : List ℕ → Buffer
holding xs = record { mem = store blank 0 xs; limit = 64; read = 0; write = length xs }

abbrev session : List AddrInfo → Session
session addrs = record {
  client_buffer = holding [];
  origin_buffer = holding [];
  request_st = record { state = ver_cmd_atyp; cmd = 0; atyp = 0 };
  rep = 7;
  found_bnd_info = false;
  origin_fd = none;
  origin_host = [];
  origin_port = 0;
  origin_resolution = addrs;
  atyp = 0;
  client_interest = 1;
  origin_interest = none;
}

-- Texts are the addresses themselves, and a connection is begun with every address.
abbrev network : Network
network = record {
  ntop = λ family bytes. some bytes;
  pton = λ family text. some text;
  getaddrinfo = λ host port. none;
  alloc = true;
  thread = true;
  attempt = λ a. in_progress 5 true;
  garbage = 0;
}

-- One where they are there at once.
abbrev near : Network
near = record network { attempt = λ a. connected 5 }

-- CONNECT to 10.0.0.1, port 80
abbrev connect_bytes : List ℕ
connect_bytes = 5 ∷ 1 ∷ 0 ∷ 1 ∷ 10 ∷ 0 ∷ 0 ∷ 1 ∷ 0 ∷ 80 ∷ []

-- BIND
abbrev bind_bytes : List ℕ
bind_bytes = 5 ∷ 2 ∷ 0 ∷ 1 ∷ []

abbrev home : AddrInfo
home = record { family = 1; address = 10 ∷ 0 ∷ 0 ∷ 1 ∷ []; port = 80 }

empty-Holds : Holds (holding []) [] 64
empty-Holds = record {
  valid = record { ordered = omega arith; bounded = omega arith };
  bytes = refl;
  same_limit = refl;
}

connect-Holds : Holds (received (holding []) connect_bytes) connect_bytes 64
connect-Holds = record {
  valid = record { ordered = omega arith; bounded = omega arith };
  bytes = refl;
  same_limit = refl;
}

bind-Holds : Holds (received (holding []) bind_bytes) bind_bytes 64
bind-Holds = record {
  valid = record { ordered = omega arith; bounded = omega arith };
  bytes = refl;
  same_limit = refl;
}

request_read_ip_example :
    (s' : Session) × (request_read network (session []) (Recv.received connect_bytes) Recv.failed
      ≡ some (SocksV5State.connect, s'))
    × (s'.origin_fd ≡ some 5)
    × (s'.origin_resolution ≡ home ∷ [])
    × (s'.origin_interest ≡ some op_write)
    × Holds s'.client_buffer [] 64
request_read_ip_example =
    request_read_ip network (session []) (Recv.received connect_bytes)
      (received (holding []) connect_bytes) 1 (10 ∷ 0 ∷ 0 ∷ 1 ∷ []) 0 80 5 (inl (refl, refl)) refl
      (take_in-received (holding []) connect_bytes empty-Holds (omega arith)) connect-Holds
      (record { text = 10 ∷ 0 ∷ 0 ∷ 1 ∷ []; printed = refl; read_back = refl }) refl refl

bind_code : header_code 5 2 0 1 ≡ some command_not_supported
unfolding header_code
bind_code = refl

request_read-refuses_example :
    (s' : Session) × (request_read network (session []) (Recv.received bind_bytes) Recv.failed
      ≡ some (SocksV5State.reply, s'))
    × (s'.rep ≡ command_not_supported)
    × (s'.client_interest ≡ op_write)
request_read-refuses_example =
    request_read-refuses network (session []) (Recv.received bind_bytes) Recv.failed
      (received (holding []) bind_bytes) 5 2 0 1 command_not_supported refl
      (take_in-received (holding []) bind_bytes empty-Holds (omega arith)) bind-Holds bind_code

-- The address of port 80 gives no socket.
abbrev second_only : AddrInfo → Attempt
second_only a = if a.port == 0 then in_progress 5 true else no_socket

abbrev elsewhere : AddrInfo
elsewhere = record home { port = 0 }

try_connection_lem_example :
    try_connection second_only (session (home ∷ elsewhere ∷ []))
    ≡ some (
      connection_in_progress,
      record (session (elsewhere ∷ [])) { origin_fd = some 5; origin_interest = some op_write },
    )
try_connection_lem_example =
    try_connection_lem second_only (session (home ∷ elsewhere ∷ [])) (home ∷ []) elsewhere [] 5 refl
      (tt, tt) refl

reply_arrival_lem_example :
    (s' : Session) × (reply_arrival (session []) (some home) ≡ some s')
    × Holds s'.origin_buffer
        ([] ++ (5 ∷ 7 ∷ 0 ∷ 1 ∷ (10 ∷ 0 ∷ 0 ∷ 1 ∷ []) ++ 80 / 256 ∷ 80 % 256 ∷ []))
        64
    × (s'.found_bnd_info ≡ true)
reply_arrival_lem_example =
    reply_arrival_lem (session []) home empty-Holds refl (omega arith) (omega arith)

-- A reply of which three bytes wait.
abbrev replying : Session
replying = record (session []) {
  origin_buffer = holding (1 ∷ 2 ∷ 3 ∷ []);
  found_bnd_info = true;
  rep = 4;
}

replying-Holds : Holds (holding (1 ∷ 2 ∷ 3 ∷ [])) (1 ∷ 2 ∷ 3 ∷ []) 64
replying-Holds = record {
  valid = record { ordered = omega arith; bounded = omega arith };
  bytes = refl;
  same_limit = refl;
}

reply_write_lem_example :
    (s' : Session) × (reply_write replying (pos 2) ≡ some (SocksV5State.reply, s'))
    × Holds s'.origin_buffer (3 ∷ []) 64
    × (s'.client_interest ≡ replying.client_interest)
reply_write_lem_example =
    reply_write_lem replying (1 ∷ 2 ∷ 3 ∷ []) 2 replying-Holds refl (omega arith)
