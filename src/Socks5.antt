-- ===== src/Socks5.antt =====
-- The state of a proxied connection: src/server/include/socks5nio.h and the headers of its states.
-- The members of the union `client` are separate fields; each `*_arrival` sets its own up.
mod Tests
pub mod Flow
pub mod Late
pub mod Greeting
pub mod Auth
pub mod Session
pub mod Nio
use socks5proxy.Prelude.{ℕ, Bool, Memory}
use socks5proxy.Buffer.{Buffer}

-- `enum socks_v5state`
pub data SocksV5State : Type 0 where
  greeting auth request connect reply copy done error : SocksV5State

-- `enum greeting_state`
pub data GreetingState : Type 0 where
  ver_n_nmethods methods : GreetingState

-- `struct greeting_st`
pub record GreetingSt : Type 0 where
  pub state : GreetingState
  pub n_methods : ℕ
  pub method : ℕ

-- `enum auth_state`
pub data AuthState : Type 0 where
  auth_ver auth_ulen auth_uname auth_plen auth_passwd : AuthState

-- `struct auth_st`
pub record AuthSt : Type 0 where
  pub state : AuthState
  pub ulen : ℕ
  pub plen : ℕ
  pub username : Memory
  pub password : Memory
  pub authenticated : Bool

-- `struct socks5`, with the interest that the selector holds for `client_fd`
pub record Socks5 : Type 0 where
  pub client_buffer : Buffer
  pub origin_buffer : Buffer
  pub greeting_st : GreetingSt
  pub auth_st : AuthSt
  pub client_interest : ℕ

-- src/server/include/defines.h
abbrev pub socks5_version : ℕ
socks5_version = 0x05
