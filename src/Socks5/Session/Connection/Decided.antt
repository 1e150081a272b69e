-- ===== src/Socks5/Session/Connection/Decided.antt =====
-- Which address of the chain decides how `try_connection` ends (src/server/states/connection_utils.c).
use socks5proxy.Prelude.{
  ℕ, ◌≡◌, refl, ap, true, false, none, some, List, [], ◌∷◌, ◌++◌, arith, ◌⊎◌, inl, inr,
}
use socks5proxy.Socks5.Session.{AddrInfo, Session}
use socks5proxy.Socks5.Session.Connection.{
  Attempt, no_socket, not_nio, connected, in_progress, refused, code_of, try_addrs,
  selector_register_failed, connection_in_progress, connection_done,
}
use socks5proxy.Socks5.Session.Connection.Laws.{Useless, AllUseless}

-- How the address that decides ends `try_connection`, with those behind it and the code.
abbrev pub Ends : Attempt → List AddrInfo → ℕ → Type 0
Ends no_socket ys ret = ⊥
Ends not_nio ys ret = ⊥
Ends (connected fd) ys ret = ret ≡ connection_done
Ends (in_progress fd true) ys ret = ret ≡ connection_in_progress
Ends (in_progress fd false) ys ret = ret ≡ selector_register_failed
Ends (refused fd e) ys ret = (ys ≡ []) × (ret ≡ code_of e)

-- The addresses in front are of no use, and `a` decides.
pub record Decided (attempt : AddrInfo → Attempt) (addrs : List AddrInfo) (ret : ℕ) : Type 0 where
  pub before : List AddrInfo
  pub a : AddrInfo
  pub behind : List AddrInfo
  pub split : addrs ≡ before ++ a ∷ behind
  pub useless : AllUseless attempt before
  pub ends : Ends (attempt a) behind ret

Decided-here :
    (attempt : AddrInfo → Attempt) (a : AddrInfo) (rest : List AddrInfo) (ret : ℕ) (r : Attempt)
    → attempt a ≡ r
    → Ends r rest ret
    → Decided attempt (a ∷ rest) ret
Decided-here attempt a rest ret r e h = record {
  before = [];
  a = a;
  behind = rest;
  split = refl;
  useless = tt;
  ends = rw e h;
}

Decided-later :
    (attempt : AddrInfo → Attempt) (a : AddrInfo) (rest : List AddrInfo) (ret : ℕ) (r : Attempt)
    → attempt a ≡ r
    → Useless r
    → Decided attempt rest ret
    → Decided attempt (a ∷ rest) ret
Decided-later attempt a rest ret r e h d = record {
  before = a ∷ d.before;
  a = d.a;
  behind = d.behind;
  split = ap (λ t. a ∷ t) d.split;
  useless = (rw e h, d.useless);
  ends = d.ends;
}

-- One address, given the theorem for those behind it.
first-Decided :
    (attempt : AddrInfo → Attempt) (a : AddrInfo) (rest : List AddrInfo) (s : Session) (r : Attempt)
    {ret : ℕ} {s' : Session}
    → attempt a ≡ r
    → (try_addrs rest attempt (record s { origin_fd = none; origin_resolution = rest })
          ≡ some (ret, s')
        → Decided attempt rest ret)
    → try_addrs (a ∷ rest) attempt s ≡ some (ret, s')
    → Decided attempt (a ∷ rest) ret
unfolding try_addrs
first-Decided attempt a rest s no_socket {ret} e ih h =
    Decided-later attempt a rest ret no_socket e tt (ih (ground (arith, e, h)))
first-Decided attempt a rest s not_nio {ret} e ih h =
    Decided-later attempt a rest ret not_nio e tt (ih (ground (arith, e, h)))
first-Decided attempt a rest s (connected fd) {ret} e ih h =
    Decided-here attempt a rest ret (connected fd) e (ground (arith, e, h))
first-Decided attempt a rest s (in_progress fd true) {ret} e ih h =
    Decided-here attempt a rest ret (in_progress fd true) e (ground (arith, e, h))
first-Decided attempt a rest s (in_progress fd false) {ret} e ih h =
    Decided-here attempt a rest ret (in_progress fd false) e (ground (arith, e, h))
first-Decided attempt a [] s (refused fd x) {ret} e ih h =
    Decided-here attempt a [] ret (refused fd x) e (refl, ground (arith, e, h))
first-Decided attempt a (b ∷ more) s (refused fd x) {ret} e ih h =
    Decided-later attempt a (b ∷ more) ret (refused fd x) e tt (ih (ground (arith, e, h)))

pub try_addrs-Decided :
    (addrs : List AddrInfo) (attempt : AddrInfo → Attempt) (s : Session) {ret : ℕ} {s' : Session}
    → try_addrs addrs attempt s ≡ some (ret, s')
    → Decided attempt addrs ret
unfolding try_addrs
try_addrs-Decided [] attempt s h = absurd (ground arith)
try_addrs-Decided (a ∷ rest) attempt s h =
    first-Decided attempt a rest s (attempt a) refl
      (try_addrs-Decided rest attempt (record s { origin_fd = none; origin_resolution = rest })) h

-- No socket can be had for the last address, and those in front of it are of no use.
abbrev pub Spent : (AddrInfo → Attempt) → List AddrInfo → Type 0
Spent attempt addrs =
    (xs : List AddrInfo) × (a : AddrInfo) × (addrs ≡ xs ++ a ∷ [])
    × AllUseless attempt xs
    × ((attempt a ≡ no_socket) ⊎ (attempt a ≡ not_nio))

-- One address, given the theorem for those behind it.
first-Spent :
    (attempt : AddrInfo → Attempt) (a b : AddrInfo) (rest : List AddrInfo) (s : Session)
    (r : Attempt)
    → attempt a ≡ r
    → ((s₁ : Session) → try_addrs (b ∷ rest) attempt s₁ ≡ none → Spent attempt (b ∷ rest))
    → try_addrs (a ∷ b ∷ rest) attempt s ≡ none
    → Spent attempt (a ∷ b ∷ rest)
unfolding try_addrs
first-Spent attempt a b rest s (connected fd) e ih h = absurd (ground (arith, e, h))
first-Spent attempt a b rest s (in_progress fd true) e ih h = absurd (ground (arith, e, h))
first-Spent attempt a b rest s (in_progress fd false) e ih h = absurd (ground (arith, e, h))
first-Spent attempt a b rest s no_socket e ih h =
    let s₁ = record s { origin_fd = none; origin_resolution = b ∷ rest } in
    let (xs, c, p, u, n) = ih s₁ (ground (arith, e, h)) in
    (a ∷ xs, c, ap (λ t. a ∷ t) p, (rw e tt, u), n)
first-Spent attempt a b rest s not_nio e ih h =
    let s₁ = record s { origin_fd = none; origin_resolution = b ∷ rest } in
    let (xs, c, p, u, n) = ih s₁ (ground (arith, e, h)) in
    (a ∷ xs, c, ap (λ t. a ∷ t) p, (rw e tt, u), n)
first-Spent attempt a b rest s (refused fd x) e ih h =
    let s₁ = record s { origin_fd = none; origin_resolution = b ∷ rest } in
    let (xs, c, p, u, n) = ih s₁ (ground (arith, e, h)) in
    (a ∷ xs, c, ap (λ t. a ∷ t) p, (rw e tt, u), n)

last-Spent :
    (attempt : AddrInfo → Attempt) (a : AddrInfo) (s : Session) (r : Attempt)
    → attempt a ≡ r
    → try_addrs (a ∷ []) attempt s ≡ none
    → (attempt a ≡ no_socket) ⊎ (attempt a ≡ not_nio)
unfolding try_addrs
last-Spent attempt a s no_socket e h = inl e
last-Spent attempt a s not_nio e h = inr e
last-Spent attempt a s (connected fd) e h = absurd (ground (arith, e, h))
last-Spent attempt a s (in_progress fd true) e h = absurd (ground (arith, e, h))
last-Spent attempt a s (in_progress fd false) e h = absurd (ground (arith, e, h))
last-Spent attempt a s (refused fd x) e h = absurd (ground (arith, e, h))

try_addrs-Spent :
    (a : AddrInfo) (rest : List AddrInfo) (attempt : AddrInfo → Attempt) (s : Session)
    → try_addrs (a ∷ rest) attempt s ≡ none
    → Spent attempt (a ∷ rest)
try_addrs-Spent a [] attempt s h = ([], a, refl, tt, last-Spent attempt a s (attempt a) refl h)
try_addrs-Spent a (b ∷ rest) attempt s h =
    first-Spent attempt a b rest s (attempt a) refl (try_addrs-Spent b rest attempt) h

pub chain-Spent :
    (addrs : List AddrInfo) (attempt : AddrInfo → Attempt) (s : Session) {a : AddrInfo}
    {rest : List AddrInfo}
    → addrs ≡ a ∷ rest
    → try_addrs addrs attempt s ≡ none
    → Spent attempt addrs
chain-Spent [] attempt s o h = absurd (ground arith)
chain-Spent (b ∷ more) attempt s o h = try_addrs-Spent b more attempt s h
