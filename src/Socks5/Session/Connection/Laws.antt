-- ===== src/Socks5/Session/Connection/Laws.antt =====
-- The addresses are tried in their order, and the first that answers is the one that is used.
use socks5proxy.Prelude.{ℕ, ◌≡◌, refl, ap, ◌∙◌, true, none, some, List, [], ◌∷◌, ◌++◌, arith}
use socks5proxy.Selector.{op_write}
use socks5proxy.Socks5.Session.{AddrInfo, Session}
use socks5proxy.Socks5.Session.Connection.{
  Attempt, no_socket, not_nio, connected, in_progress, refused, connection_in_progress, try_addrs,
  try_connection,
}

-- The address does not answer.
abbrev pub Useless : Attempt → Type 0
Useless no_socket = Unit {0}
Useless not_nio = Unit {0}
Useless (refused fd e) = Unit {0}
Useless (connected fd) = ⊥
Useless (in_progress fd registered) = ⊥

abbrev pub AllUseless : (AddrInfo → Attempt) → List AddrInfo → Type 0
AllUseless attempt [] = Unit {0}
AllUseless attempt (a ∷ xs) = Useless (attempt a) × AllUseless attempt xs

skip_addr :
    (attempt : AddrInfo → Attempt) (a b : AddrInfo) (rest : List AddrInfo) (s : Session)
    (r : Attempt)
    → attempt a ≡ r
    → Useless r
    → try_addrs (a ∷ b ∷ rest) attempt s
      ≡ try_addrs (b ∷ rest) attempt (record s { origin_fd = none; origin_resolution = b ∷ rest })
unfolding try_addrs
skip_addr attempt a b rest s no_socket e h = ground (arith, e)
skip_addr attempt a b rest s not_nio e h = ground (arith, e)
skip_addr attempt a b rest s (refused fd x) e h = ground (arith, e)
skip_addr attempt a b rest s (connected fd) e h = elim h [ ]
skip_addr attempt a b rest s (in_progress fd t) e h = elim h [ ]

try_addrs_lem :
    (attempt : AddrInfo → Attempt) (xs : List AddrInfo) (a : AddrInfo) (ys : List AddrInfo)
    (s : Session) (fd : ℕ)
    → s.origin_resolution ≡ xs ++ a ∷ ys
    → AllUseless attempt xs
    → attempt a ≡ in_progress fd true
    → try_addrs (xs ++ a ∷ ys) attempt s
      ≡ some (
        connection_in_progress,
        record s {
          origin_fd = some fd;
          origin_interest = some op_write;
          origin_resolution = a ∷ ys;
        },
      )
unfolding try_addrs
try_addrs_lem attempt [] a ys s fd o h e = ground (arith, e, o)
try_addrs_lem attempt (x ∷ []) a ys s fd o h e =
    let s' : Session = record s { origin_fd = none; origin_resolution = a ∷ ys } in
    skip_addr attempt x a ys s (attempt x) refl h.0 ∙ try_addrs_lem attempt [] a ys s' fd refl tt e
try_addrs_lem attempt (x ∷ y ∷ xs) a ys s fd o h e =
    let s' : Session = record s { origin_fd = none; origin_resolution = y ∷ xs ++ a ∷ ys } in
    skip_addr attempt x y (xs ++ a ∷ ys) s (attempt x) refl h.0
    ∙ try_addrs_lem attempt (y ∷ xs) a ys s' fd refl h.1 e

-- When the addresses before `a` give no socket or refuse, and `a` is one that a connection is begun
-- with, `try_connection` returns CONNECTION_IN_PROGRESS, with the chain at `a` and the descriptor
-- registered for writing.
pub try_connection_lem :
    (attempt : AddrInfo → Attempt) (s : Session) (xs : List AddrInfo) (a : AddrInfo)
    (ys : List AddrInfo) (fd : ℕ)
    → s.origin_resolution ≡ xs ++ a ∷ ys
    → AllUseless attempt xs
    → attempt a ≡ in_progress fd true
    → try_connection attempt s
      ≡ some (
        connection_in_progress,
        record s {
          origin_fd = some fd;
          origin_interest = some op_write;
          origin_resolution = a ∷ ys;
        },
      )
unfolding try_connection
try_connection_lem attempt s xs a ys fd o h e =
    ap (λ t. try_addrs t attempt s) o ∙ try_addrs_lem attempt xs a ys s fd o h e
