-- ===== src/Socks5/Greeting/Spec.antt =====
-- The method negotiation (src/server/states/greeting.c) specified over the bytes of the client.
use socks5proxy.Prelude.{
  ℕ, zero, suc, ◌≡◌, Bool, false, not, ◌||◌, List, [], ◌∷◌, ◌++◌, length, drop, take, ltb, ◌==◌,
  if◌then◌else◌,
}
use socks5proxy.Buffer.View.{Holds}
use socks5proxy.Selector.{op_read, op_write}
use socks5proxy.Socks5.{
  SocksV5State, Socks5, GreetingState, ver_n_nmethods, methods, socks5_version,
}
use socks5proxy.Socks5.Flow.{Flow, returns, falls_through, finally}
use socks5proxy.Socks5.Greeting.{auth_method, auth_method_invalid}

unfoldable pub contains : ℕ → List ℕ → Bool
contains a [] = false
contains a (x ∷ xs) = (x == a) || contains a xs

-- What is left of `xs` when the first `a` among its first `n` bytes has been taken, or all `n`.
unfoldable pub after_first : ℕ → ℕ → List ℕ → List ℕ
after_first a zero xs = xs
after_first a (suc n) [] = []
after_first a (suc n) (x ∷ xs) = if x == a then xs else after_first a n xs

-- What the negotiation can be seen to depend on and to change.
pub record GreetingView : Type 0 where
  pub client : List ℕ
  pub origin : List ℕ
  pub state : GreetingState
  pub n_methods : ℕ
  pub method : ℕ
  pub interest : ℕ

-- The connection as a view, with the sizes of its two buffers.
pub record Shows (c : Socks5) (v : GreetingView) (lc lo : ℕ) : Type 0 where
  pub client_holds : Holds c.client_buffer v.client lc
  pub origin_holds : Holds c.origin_buffer v.origin lo
  pub state_eq : c.greeting_st.state ≡ v.state
  pub n_methods_eq : c.greeting_st.n_methods ≡ v.n_methods
  pub method_eq : c.greeting_st.method ≡ v.method
  pub interest_eq : c.client_interest ≡ v.interest

-- VER and NMETHODS, once both are there.
unfoldable pub version_spec : GreetingView → List ℕ → Flow SocksV5State × GreetingView
version_spec v [] = (returns SocksV5State.greeting, v)
version_spec v (ver ∷ []) = (returns SocksV5State.greeting, v)
version_spec v (ver ∷ n ∷ rest) =
    if not (ver == socks5_version)
    then (returns SocksV5State.error, record v { client = n ∷ rest })
    else if n == 0
    then (returns SocksV5State.error, record v { client = rest; n_methods = n })
    else (falls_through, record v { client = rest; n_methods = n; state = methods })

-- METHODS, once all are there: the reply offers 0x02 exactly if the client did.
unfoldable pub methods_spec : GreetingView → Flow SocksV5State × GreetingView
methods_spec v =
    if ltb (length v.client) v.n_methods
    then (returns SocksV5State.greeting, v)
    else let chosen =
        if contains auth_method (take v.n_methods v.client)
        then auth_method
        else auth_method_invalid in
      (
        falls_through,
        record v {
          client = after_first auth_method v.n_methods v.client;
          origin = v.origin ++ socks5_version ∷ chosen ∷ [];
          method = chosen;
          interest = op_write;
        },
      )

unfoldable pub block_spec : GreetingState → GreetingView → Flow SocksV5State × GreetingView
block_spec ver_n_nmethods v = version_spec v v.client
block_spec methods v = (falls_through, v)

unfoldable pub next_spec : Flow SocksV5State × GreetingView → Flow SocksV5State × GreetingView
next_spec (returns s, v) = (returns s, v)
next_spec (falls_through, v) = methods_spec v

unfoldable pub greeting_spec : GreetingView → List ℕ → SocksV5State × GreetingView
unfolding block_spec next_spec
greeting_spec v bytes =
    let v' = record v { client = v.client ++ bytes } in
    if length (v.client ++ bytes) == 0
    then (SocksV5State.done, v')
    else finally SocksV5State.greeting (next_spec (block_spec v.state v'))

unfoldable pub greeting_write_spec : GreetingView → ℕ → SocksV5State × GreetingView
greeting_write_spec v n = elim (drop n v.origin) [
  | [] ↦ (
    (if v.method == auth_method then SocksV5State.auth else SocksV5State.request),
    record v { origin = []; interest = op_read },
  )
  | x ∷ rest ↦ (SocksV5State.greeting, record v { origin = x ∷ rest })
]
