-- ===== src/Socks5/Nio.antt =====
-- src/server/socks5nio.c: the table of states of a proxied connection, and how an event of the
-- selector runs it.
pub mod Table
pub mod Guarded
pub mod Safety
pub mod Closing
mod Tests
use socks5proxy.Prelude.{ℕ, Bool, Option, none, some, List, ◌>>=◌}
use socks5proxy.Buffer.{Ssize}
use socks5proxy.Users.{Users}
use socks5proxy.Metrics.{MetricSnapshot}
use socks5proxy.Socket.{Recv}
use socks5proxy.Copy.{Side, Shutdowns, CopySt, Copying}
use socks5proxy.Socks5.{SocksV5State, Socks5}
use socks5proxy.Socks5.Session.{AddrInfo, Session}
use socks5proxy.Socks5.Session.Request.{Network}

-- What the system answers while one event is handled: the two calls of `recv`, `send`, the option of
-- the socket, its local address, the calls about addresses, and the descriptor that is ready.
pub record Outcomes : Type 0 where
  pub first : Recv
  pub second : Recv
  pub sent : Ssize
  pub so_error : Option ℕ
  pub sock_name : Option AddrInfo
  pub network : Network
  pub side : Side

-- `struct socks5` with what its handlers reach: the parts that the states use, the accounts, and the
-- metrics. The two buffers and the interest of `client_fd` are those of `base`, and the item that
-- the selector has for `origin_fd` is the one of `session`.
pub record Proxied : Type 0 where
  pub base : Socks5
  pub session : Session
  pub client_copy : CopySt
  pub origin_copy : CopySt
  pub users : Users
  pub metrics : MetricSnapshot
  pub outcomes : Outcomes

-- The connection as REQUEST, CONNECT and REPLY see it, and what they leave of it.
abbrev pub as_session : Proxied → Session
as_session k = record (k.session) {
  client_buffer = k.base.client_buffer;
  origin_buffer = k.base.origin_buffer;
  client_interest = k.base.client_interest;
}

abbrev pub with_session : Proxied → Session → Proxied
with_session k s = record k {
  base = record (k.base) {
    client_buffer = s.client_buffer;
    origin_buffer = s.origin_buffer;
    client_interest = s.client_interest;
  };
  session = s;
}

-- The connection as COPY sees it, and what it leaves of it.
abbrev pub as_copying : Proxied → Copying
as_copying k = record {
  client_buffer = k.base.client_buffer;
  origin_buffer = k.base.origin_buffer;
  client_copy = record (k.client_copy) { item = some (k.base.client_interest) };
  origin_copy = record (k.origin_copy) { item = k.session.origin_interest };
  metrics = k.metrics;
}

abbrev pub with_copying : Proxied → Copying → Proxied
with_copying k c = record k {
  base = record (k.base) {
    client_buffer = c.client_buffer;
    origin_buffer = c.origin_buffer;
    client_interest = elim c.client_copy.item [ none ↦ k.base.client_interest | some i ↦ i ];
  };
  session = record (k.session) { origin_interest = c.origin_copy.item };
  client_copy = c.client_copy;
  origin_copy = c.origin_copy;
  metrics = c.metrics;
}

-- A handler that failed an assert has no result.
abbrev pub Handler : Type 0
Handler = Proxied → Option (SocksV5State × Proxied)

abbrev pub on_base : (Socks5 → Option (SocksV5State × Socks5)) → Handler
on_base f k = do (st, c) ← f k.base; some (st, record k { base = c })

abbrev pub on_session : (Session → Option (SocksV5State × Session)) → Handler
on_session f k = do (st, s) ← f (as_session k); some (st, with_session k s)

abbrev pub on_copying : (Copying → Option (SocksV5State × Copying)) → Handler
on_copying f k = do (st, c) ← f (as_copying k); some (st, with_copying k c)
