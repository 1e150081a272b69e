-- ===== src/Client.antt =====
-- src/client/: the management client. Client/Messages is what it sends, and Client/Response what it
-- receives. The strings of the command line are byte arrays; the calls of `malloc` succeed.
pub mod Messages
pub mod Response
pub mod Login
pub mod Args
pub mod Words
mod Tests
use socks5proxy.Prelude.{ℕ, List, Option}

abbrev pub protocol_version : ℕ
protocol_version = 0x01

abbrev pub method_users : ℕ
method_users = 0x0001

abbrev pub method_add_user : ℕ
method_add_user = 0x0002

abbrev pub method_remove_user : ℕ
method_remove_user = 0x0003

abbrev pub method_change_password : ℕ
method_change_password = 0x0004

abbrev pub method_change_role : ℕ
method_change_role = 0x0005

abbrev pub method_metrics : ℕ
method_metrics = 0x0006

-- `struct ClientArgs`; `none` is NULL.
pub record ClientArgs : Type 0 where
  pub host : List ℕ
  pub port : ℕ
  pub option : Option (List ℕ)
  pub user : Option (List ℕ)
  pub password : Option (List ℕ)
  pub usr_count : ℕ
  pub arg1 : Option (List ℕ)
  pub arg2 : Option (List ℕ)
  pub arg3 : Option (List ℕ)
