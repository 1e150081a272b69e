-- ===== src/Socks5/Session/Connection.antt =====
-- src/server/states/connection_utils.c: the addresses of the origin are tried one after the other.
pub mod Laws
pub mod Decided
use socks5proxy.Prelude.{
  ℕ, Bool, true, false, Option, none, some, List, [], ◌∷◌, if◌then◌else◌, ◌>>=◌,
}
use socks5proxy.Selector.{op_write}
use socks5proxy.Socks5.Session.{
  AddrInfo, Session, network_unreachable, host_unreachable, connection_refused, ttl_expired,
}

abbrev pub general_failure : ℕ
general_failure = 0

abbrev pub selector_register_failed : ℕ
selector_register_failed = 1

abbrev pub connection_in_progress : ℕ
connection_in_progress = 2

abbrev pub connection_done : ℕ
connection_done = 3

-- The values of `errno` that the function tells apart, and the others.
pub data Errno : Type 0 where
  enetunreach ehostunreach econnrefused etimedout other_error : Errno

-- What the system did for an address: no socket, a socket that cannot be set to non-blocking, or a
-- descriptor with the result of `connect`. `in_progress` says whether `selector_register` succeeded.
pub data Attempt : Type 0 where
  no_socket not_nio : Attempt
  connected : ℕ → Attempt
  in_progress : ℕ → Bool → Attempt
  refused : ℕ → Errno → Attempt

-- The last `switch`.
unfoldable pub code_of : Errno → ℕ
code_of enetunreach = network_unreachable
code_of ehostunreach = host_unreachable
code_of econnrefused = connection_refused
code_of etimedout = ttl_expired
code_of other_error = general_failure

-- `get_next_resolution` where the descriptor is closed or there is none. A step to behind NULL is
-- `none`.
unfoldable pub get_next_resolution : Session → Option Session
get_next_resolution s = elim s.origin_resolution [
  | [] ↦ none
  | a ∷ rest ↦ some (record s { origin_resolution = rest })
]

-- `try_connection` while the chain is `addrs`.
unfoldable pub try_addrs : List AddrInfo → (AddrInfo → Attempt) → Session → Option (ℕ × Session)
try_addrs [] attempt s = none
try_addrs (a ∷ rest) attempt s =
    let again = try_addrs rest attempt (record s { origin_fd = none; origin_resolution = rest }) in
    elim (attempt a) [
      | no_socket ↦ again
      | not_nio ↦ again
      | connected fd ↦ some (connection_done, record s { origin_fd = some fd })
      | in_progress fd registered ↦
          if registered
          then some (
            connection_in_progress,
            record s { origin_fd = some fd; origin_interest = some op_write },
          )
          else some (selector_register_failed, record s { origin_fd = some fd })
      | refused fd e ↦ elim rest [
        | [] ↦ some (code_of e, record s { origin_fd = some fd })
        | b ∷ more ↦ again
      ]
    ]

unfoldable pub try_connection : (AddrInfo → Attempt) → Session → Option (ℕ × Session)
try_connection attempt s = try_addrs s.origin_resolution attempt s
