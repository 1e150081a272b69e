-- ===== src/Socks5/Greeting/Outcome.antt =====
-- What the negotiation comes to, from the first byte to the state that follows.
use socks5proxy.Prelude.{
  ℕ, zero, suc, ◌+◌, ◌≤◌, ◌<◌, ◌≡◌, refl, ap, some, List, [], ◌∷◌, arith, length, take,
  if◌then◌else◌, le→ltb, Bool-cases, inl, inr,
}
use socks5proxy.Buffer.{pos}
use socks5proxy.Buffer.View.{Holds}
use socks5proxy.Selector.{op_read, op_write}
use socks5proxy.Socket.{Recv, Fits}
use socks5proxy.Socks5.{SocksV5State, Socks5, ver_n_nmethods, methods, socks5_version}
use socks5proxy.Socks5.Flow.{falls_through}
use socks5proxy.Socks5.Greeting.{
  no_auth_method, auth_method, auth_method_invalid, greeting_read, greeting_write,
}
use socks5proxy.Socks5.Greeting.Spec.{
  contains, after_first, GreetingView, Shows, version_spec, methods_spec, greeting_spec,
  greeting_write_spec,
}
use socks5proxy.Socks5.Greeting.Refine.{greeting_read-refines}
use socks5proxy.Socks5.Greeting.Write.{greeting_write-refines}

take_all : (n : ℕ) (xs : List ℕ) → length xs ≡ n → take n xs ≡ xs
take_all zero [] h = refl
take_all zero (x ∷ xs) h = absurd (omega arith)
take_all (suc n) [] h = refl
take_all (suc n) (x ∷ xs) h = ap (λ t. x ∷ t) (take_all n xs (omega arith))

-- A connection that has just arrived in GREETING, with both buffers empty.
abbrev pub fresh_view : GreetingView
fresh_view = record {
  client = [];
  origin = [];
  state = ver_n_nmethods;
  n_methods = 0;
  method = no_auth_method;
  interest = op_read;
}

abbrev pub chosen_method : List ℕ → ℕ
chosen_method ms = if contains auth_method ms then auth_method else auth_method_invalid

-- What it shows when the reply to the methods `ms` is waiting.
abbrev replied_view : List ℕ → GreetingView
replied_view ms = record {
  client = after_first auth_method (length ms) ms;
  origin = socks5_version ∷ chosen_method ms ∷ [];
  state = methods;
  n_methods = length ms;
  method = chosen_method ms;
  interest = op_write;
}

methods_spec_whole :
    (ms : List ℕ)
    → methods_spec (record fresh_view { client = ms; n_methods = length ms; state = methods })
      ≡ (falls_through, replied_view ms)
unfolding methods_spec
methods_spec_whole ms =
    rw (le→ltb (length ms) (length ms) (omega arith), take_all (length ms) ms refl)

greeting_spec_whole :
    (ms : List ℕ)
    → 0 < length ms
    → greeting_spec fresh_view (socks5_version ∷ length ms ∷ ms)
      ≡ (SocksV5State.greeting, replied_view ms)
unfolding greeting_spec version_spec
greeting_spec_whole [] h = absurd (omega arith)
greeting_spec_whole (m ∷ ms) h = ground (arith, methods_spec_whole (m ∷ ms))

after_reply :
    (ms : List ℕ)
    → greeting_write_spec (replied_view ms) 2 ≡ (
      (if contains auth_method ms then SocksV5State.auth else SocksV5State.request),
      record (replied_view ms) { origin = []; interest = op_read },
    )
unfolding greeting_write_spec
after_reply ms = elim (Bool-cases (contains auth_method ms)) [ inl t ↦ rw t | inr f ↦ rw f ]

-- On a fresh connection with room for the greeting and the reply, a client that offers the methods
-- `ms`, one or more, in one whole greeting is answered 05 02 if 0x02 is among them and 05 FF if
-- not. When `send` has taken the reply the connection goes to AUTH in the first case and to
-- REQUEST, with no authentication, in the second. The methods behind the first 0x02 stay unread.
pub whole_greeting :
    {c : Socks5} {lc lo : ℕ} (ms : List ℕ)
    → Shows c fresh_view lc lo
    → 0 < length ms
    → Fits c.client_buffer (socks5_version ∷ length ms ∷ ms)
    → c.origin_buffer.write + 2 ≤ c.origin_buffer.limit
    → (c₁ : Socks5) × (c₂ : Socks5) × (greeting_read c
          (Recv.received (socks5_version ∷ length ms ∷ ms))
        ≡ some (SocksV5State.greeting, c₁))
      × Holds c₁.origin_buffer (socks5_version ∷ chosen_method ms ∷ []) lo
      × (greeting_write c₁ (pos 2)
          ≡ some
              ((if contains auth_method ms then SocksV5State.auth else SocksV5State.request), c₂))
      × Holds c₂.client_buffer (after_first auth_method (length ms) ms) lc
whole_greeting {c} {lc} {lo} ms s len fits room =
    let whole = greeting_spec_whole ms len in
    let after = after_reply ms in
    let (c₁, e₁, s₁) = greeting_read-refines (socks5_version ∷ length ms ∷ ms) s refl fits room in
    let s₁' : Shows c₁ (replied_view ms) lc lo = rw whole at s₁ in
    let (c₂, e₂, s₂) = greeting_write-refines 2 s₁' (omega arith) in
    let s₂' : Shows c₂ (record (replied_view ms) { origin = []; interest = op_read }) lc lo =
      (rw after at s₂) in
    (c₁, c₂, rw whole at e₁, s₁'.origin_holds, rw after at e₂, s₂'.client_holds)
