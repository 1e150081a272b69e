-- ===== src/Socks5/Greeting/Refine.antt =====
-- `greeting_read` against its specification.
use socks5proxy.Prelude.{
  ℕ, zero, suc, ◌+◌, ◌≤◌, ◌≡◌, refl, ◌∙◌, some, List, [], ◌∷◌, ◌++◌, arith, length, take, ltb, ◌==◌,
  if◌then◌else◌, Bool-cases, inl, inr,
}
use socks5proxy.Buffer.{Buffer}
use socks5proxy.Buffer.View.{Holds, buffer_write_adv-received, received}
use socks5proxy.Buffer.Rules.{
  read_ptr, write_ptr, read_step, received_step, write_two, can_read_cons, can_read_nil,
}
use socks5proxy.Selector.{op_write}
use socks5proxy.Socket.{Recv, recv_into, Fits}
use socks5proxy.Socks5.{
  SocksV5State, Socks5, GreetingState, ver_n_nmethods, methods, socks5_version,
}
use socks5proxy.Socks5.Flow.{Flow, returns, falls_through, next_block, finally_split}
use socks5proxy.Socks5.Greeting.{
  no_auth_method, auth_method, auth_method_invalid, greeting_version, scan_methods,
  greeting_methods, greeting_read,
}
use socks5proxy.Socks5.Greeting.Spec.{
  contains, after_first, GreetingView, Shows, version_spec, methods_spec, block_spec, next_spec,
  greeting_spec,
}

pub scan_methods-Holds :
    (n : ℕ) (xs : List ℕ) {b : Buffer} {l : ℕ}
    → Holds b xs l
    → (b' : Buffer) × (scan_methods n b no_auth_method
        ≡ some (
          b',
          (if contains auth_method (take n xs) then auth_method else no_auth_method),
          contains auth_method (take n xs),
        ))
      × Holds b' (after_first auth_method n xs) l
unfolding scan_methods contains after_first
scan_methods-Holds zero xs {b} h = (b, refl, h)
scan_methods-Holds (suc n) [] {b} h = (b, rw (can_read_nil h, scan_methods), h)
scan_methods-Holds (suc n) (x ∷ xs) {b} h =
    let (b₁, e, k) = read_step h in
    let (b₂, e₂, k₂) = scan_methods-Holds n xs k in
    elim (Bool-cases (x == auth_method)) [
      | inl t ↦ (b₁, ground (arith, can_read_cons h, e), rw t k)
      | inr f ↦ (b₂, ground (arith, can_read_cons h, e, e₂), rw f k₂)
    ]

version_falls :
    (v : GreetingView) (xs : List ℕ)
    → (version_spec v xs).0 ≡ falls_through
    → (version_spec v xs).1.state ≡ methods
unfolding version_spec
version_falls v [] = ground arith
version_falls v (x ∷ []) = ground arith
version_falls v (x ∷ n ∷ rest) = ground arith

module _ {c : Socks5} {v : GreetingView} {lc lo : ℕ} (s : Shows c v lc lo) where
  greeting_version-Shows :
      v.state ≡ ver_n_nmethods
      → (xs : List ℕ) → v.client ≡ xs
      → (c' : Socks5) × (greeting_version c ≡ some ((version_spec v xs).0, c'))
        × Shows c' (version_spec v xs).1 lc lo
        × (c'.origin_buffer ≡ c.origin_buffer)
        × ((version_spec v xs).1.method ≡ v.method)
  unfolding greeting_version version_spec
  greeting_version-Shows e [] q =
      (c, ground (arith, read_ptr s.client_holds, s.state_eq), s, refl, refl)
  greeting_version-Shows e (x ∷ []) q =
      (c, ground (arith, read_ptr s.client_holds, s.state_eq), s, refl, refl)
  greeting_version-Shows e (x ∷ n ∷ rest) q =
      let h : Holds c.client_buffer (x ∷ n ∷ rest) lc = rw q at (s.client_holds) in
      let (b₁, e₁, k₁) = read_step h in
      let (b₂, e₂, k₂) = read_step k₁ in
      elim (Bool-cases (x == socks5_version)) [
        | inr f ↦ rw f (
          record c { client_buffer = b₁ },
          ground (arith, read_ptr h, s.state_eq, e₁),
          record {
            client_holds = k₁;
            origin_holds = s.origin_holds;
            state_eq = s.state_eq;
            n_methods_eq = s.n_methods_eq;
            method_eq = s.method_eq;
            interest_eq = s.interest_eq;
          },
          refl,
          refl,
        )
        | inl t ↦ elim (Bool-cases (n == 0)) [
          | inl z ↦
              rw (t, z)
                (
                  record c {
                    client_buffer = b₂;
                    greeting_st = record (c.greeting_st) { n_methods = n };
                  },
                  ground (arith, read_ptr h, s.state_eq, e₁, e₂),
                  record {
                    client_holds = k₂;
                    origin_holds = s.origin_holds;
                    state_eq = s.state_eq;
                    n_methods_eq = refl;
                    method_eq = s.method_eq;
                    interest_eq = s.interest_eq;
                  },
                  refl,
                  refl,
                )
          | inr nz ↦
              rw (t, nz)
                (
                  record c {
                    client_buffer = b₂;
                    greeting_st = record (c.greeting_st) { n_methods = n; state = methods };
                  },
                  ground (arith, read_ptr h, s.state_eq, e₁, e₂),
                  record {
                    client_holds = k₂;
                    origin_holds = s.origin_holds;
                    state_eq = refl;
                    n_methods_eq = refl;
                    method_eq = s.method_eq;
                    interest_eq = s.interest_eq;
                  },
                  refl,
                  refl,
                )
        ]
      ]

  greeting_methods-Shows :
      v.state ≡ methods
      → v.method ≡ no_auth_method
      → c.origin_buffer.write + 2 ≤ c.origin_buffer.limit
      → (c' : Socks5) × (greeting_methods c ≡ some ((methods_spec v).0, c'))
        × Shows c' (methods_spec v).1 lc lo
  unfolding greeting_methods methods_spec
  greeting_methods-Shows e m room = elim (Bool-cases (ltb (length v.client) v.n_methods)) [
    | inl t ↦ rw t (c, ground (arith, read_ptr s.client_holds, s.state_eq, s.n_methods_eq), s)
    | inr f ↦
        let chosen : ℕ =
          (if contains auth_method (take v.n_methods v.client)
            then auth_method
            else auth_method_invalid) in
        let (b, e₁, k) = scan_methods-Holds v.n_methods v.client s.client_holds in
        let (o₁, o₂, w₁, w₂, ko) = write_two s.origin_holds socks5_version chosen room in
        rw f (
          record c {
            client_buffer = b;
            origin_buffer = o₂;
            greeting_st = record (c.greeting_st) { method = chosen };
            client_interest = op_write;
          },
          ground
              (arith, read_ptr s.client_holds, s.state_eq, s.n_methods_eq, s.method_eq, e₁, w₁, w₂),
          record {
            client_holds = k;
            origin_holds = ko;
            state_eq = s.state_eq;
            n_methods_eq = s.n_methods_eq;
            method_eq = refl;
            interest_eq = refl;
          },
        )
  ]

  greeting_block-Shows :
      (st : GreetingState)
      → v.state ≡ st
      → (c' : Socks5) × (greeting_version c ≡ some ((block_spec st v).0, c'))
        × Shows c' (block_spec st v).1 lc lo
        × (c'.origin_buffer ≡ c.origin_buffer)
        × ((block_spec st v).1.method ≡ v.method)
        × ((block_spec st v).0 ≡ falls_through → (block_spec st v).1.state ≡ methods)
  unfolding block_spec greeting_version
  greeting_block-Shows methods e = (c, ground (arith, s.state_eq), s, refl, refl, λ _. e)
  greeting_block-Shows ver_n_nmethods e =
      let (c', eq, k, o, m) = greeting_version-Shows e v.client refl in
      (c', eq, k, o, m, version_falls v v.client)

module _ {c : Socks5} {v : GreetingView} {lc lo : ℕ} where
  next-Shows :
      Shows c v lc lo
      → v.method ≡ no_auth_method
      → c.origin_buffer.write + 2 ≤ c.origin_buffer.limit
      → (f : Flow SocksV5State) → (f ≡ falls_through → v.state ≡ methods)
      → (c' : Socks5) × (next_block greeting_methods (f, c) ≡ some ((next_spec (f, v)).0, c'))
        × Shows c' (next_spec (f, v)).1 lc lo
  unfolding next_spec
  next-Shows s m room (returns st) h = (c, refl, s)
  next-Shows s m room falls_through h = greeting_methods-Shows s (h refl) m room

-- On a connection with valid buffers, on which no method is chosen yet, and with room for the
-- bytes that `recv` delivers and for a reply of two, `greeting_read` fails no assert and does what
-- the specification does with the bytes, on every branch.
pub greeting_read-refines :
    {c : Socks5} {v : GreetingView} {lc lo : ℕ} (bytes : List ℕ)
    → Shows c v lc lo
    → v.method ≡ no_auth_method
    → Fits c.client_buffer bytes
    → c.origin_buffer.write + 2 ≤ c.origin_buffer.limit
    → (c' : Socks5) × (greeting_read c (Recv.received bytes) ≡ some ((greeting_spec v bytes).0, c'))
      × Shows c' (greeting_spec v bytes).1 lc lo
unfolding greeting_read greeting_spec recv_into
greeting_read-refines {c} {v} {lc} {lo} bytes s m fits room =
    let c₀ : Socks5 = record c { client_buffer = received c.client_buffer bytes } in
    let v₀ : GreetingView = record v { client = v.client ++ bytes } in
    let h₀ : Holds c₀.client_buffer (v.client ++ bytes) lc =
      received_step s.client_holds bytes fits in
    let s₀ : Shows c₀ v₀ lc lo = record {
      client_holds = h₀;
      origin_holds = s.origin_holds;
      state_eq = s.state_eq;
      n_methods_eq = s.n_methods_eq;
      method_eq = s.method_eq;
      interest_eq = s.interest_eq;
    } in
    let w = buffer_write_adv-received c.client_buffer bytes fits in
    let (c₁, e₁, s₁, o₁, m₁, f₁) = greeting_block-Shows s₀ v.state refl in
    let (c₂, e₂, s₂) = next-Shows s₁ (m₁ ∙ m) (rw o₁ room) (block_spec v.state v₀).0 f₁ in
    let p = finally_split SocksV5State.greeting (next_spec (block_spec v.state v₀)) c₂ in
    elim (Bool-cases (length (v.client ++ bytes) == 0)) [
      | inl z ↦ rw z (c₀, ground (arith, write_ptr s.client_holds, w, read_ptr h₀), s₀)
      | inr nz ↦
          rw nz
            (c₂, ground (arith, write_ptr s.client_holds, w, read_ptr h₀, e₁, e₂, p.0), rw p.1 s₂)
    ]
