-- ===== src/Socks5/Session.antt =====
-- What the states REQUEST, CONNECT and REPLY use of `struct socks5`
-- (src/server/include/socks5nio.h), and the address that they connect to.
pub mod Connection
pub mod Request
pub mod Connect
pub mod Reply
mod Tests
use socks5proxy.Prelude.{ℕ, Bool, Option, List}
use socks5proxy.Buffer.{Buffer}

-- `enum request_state`
pub data RequestState : Type 0 where
  ver_cmd_atyp dst_len dst_res : RequestState

-- `struct request_st`
pub record RequestSt : Type 0 where
  pub state : RequestState
  pub cmd : ℕ
  pub atyp : ℕ

abbrev pub succeded : ℕ
succeded = 0x00

abbrev pub server_failure : ℕ
server_failure = 0x01

abbrev pub network_unreachable : ℕ
network_unreachable = 0x03

abbrev pub host_unreachable : ℕ
host_unreachable = 0x04

abbrev pub connection_refused : ℕ
connection_refused = 0x05

abbrev pub ttl_expired : ℕ
ttl_expired = 0x06

abbrev pub command_not_supported : ℕ
command_not_supported = 0x07

abbrev pub address_type_not_supported : ℕ
address_type_not_supported = 0x08

abbrev pub invalid_socks5_version : ℕ
invalid_socks5_version = 0x09

abbrev pub invalid_rsv : ℕ
invalid_rsv = 0x10

abbrev pub invalid_fqdn_lenght : ℕ
invalid_fqdn_lenght = 0x11

abbrev pub ipv4_addr : ℕ
ipv4_addr = 0x01

abbrev pub fqdn : ℕ
fqdn = 0x03

abbrev pub ipv6_addr : ℕ
ipv6_addr = 0x04

abbrev pub ipv4_addr_len : ℕ
ipv4_addr_len = 4

abbrev pub ipv6_addr_len : ℕ
ipv6_addr_len = 16

-- An entry of the chain of `struct addrinfo`: the family by its address type, the bytes of the
-- address, and the port.
pub record AddrInfo : Type 0 where
  pub family : ℕ
  pub address : List ℕ
  pub port : ℕ

-- `origin_fd` is `none` for -1. The chain behind `origin_resolution` is a list, NULL the empty one.
-- `origin_port` is the number that the text stands for. The last two are the interests that the
-- selector holds for the two descriptors, `none` if it does not know the origin's.
pub record Session : Type 0 where
  pub client_buffer : Buffer
  pub origin_buffer : Buffer
  pub request_st : RequestSt
  pub rep : ℕ
  pub found_bnd_info : Bool
  pub origin_fd : Option ℕ
  pub origin_host : List ℕ
  pub origin_port : ℕ
  pub origin_resolution : List AddrInfo
  pub atyp : ℕ
  pub client_interest : ℕ
  pub origin_interest : Option ℕ
