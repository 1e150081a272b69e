-- ===== src/Socks5/Greeting/Progress.antt =====
-- Which states the handlers of src/server/states/greeting.c go to.
use socks5proxy.Prelude.{
  ◌≡◌, ◌≢◌, refl, true, false, some, ◌==◌, arith, >>=-eq-some, Bool-cases, inl, inr, ◌>>=◌,
}
use socks5proxy.Buffer.{Ssize, buffer_write_ptr, buffer_write_adv, buffer_read_ptr}
use socks5proxy.Socket.{Recv, failed, received, recv_into}
use socks5proxy.Socks5.{SocksV5State, Socks5}
use socks5proxy.Socks5.Flow.{Flow, returns, falls_through, next_block, finally}
use socks5proxy.Socks5.Late.{late, Early, next-Early, finally-Early}
use socks5proxy.Socks5.Greeting.{
  auth_method, greeting_version, greeting_methods, greeting_read, greeting_write,
}

greeting_version-Early :
    (c c' : Socks5) (f : Flow SocksV5State) → greeting_version c ≡ some (f, c') → Early f
unfolding greeting_version late
greeting_version-Early c c' (returns s) e = ground arith
greeting_version-Early c c' falls_through e = tt

greeting_methods-Early :
    (c c' : Socks5) (f : Flow SocksV5State) → greeting_methods c ≡ some (f, c') → Early f
unfolding greeting_methods late
greeting_methods-Early c c' (returns s) e = ground arith
greeting_methods-Early c c' falls_through e = tt

-- `greeting_read` returns no state behind the authentication.
pub greeting_read-Early :
    (c : Socks5) (r : Recv) {st : SocksV5State} {c' : Socks5}
    → greeting_read c r ≡ some (st, c')
    → late st ≡ false
unfolding greeting_read recv_into late
greeting_read-Early c failed {st} {c'} e = ground arith
greeting_read-Early c (received bytes) {st} {c'} e =
    let (p, e₁, k₁) = >>=-eq-some (buffer_write_ptr c.client_buffer) _ e in
    let (b, e₂, k₂) =
      >>=-eq-some
        (buffer_write_adv (recv_into c.client_buffer (received bytes)).0
          (recv_into c.client_buffer (received bytes)).1)
        _ k₁ in
    let ((q, n), e₃, k₃) = >>=-eq-some (buffer_read_ptr b) _ k₂ in
    let d : Socks5 = record c { client_buffer = b } in
    elim (Bool-cases (n == 0)) [
      | inl z ↦ ground arith
      | inr z ↦
          let k₄ : (do
            v ← greeting_version d
            m ← next_block greeting_methods v
            some (finally SocksV5State.greeting m))
              ≡ some (st, c') =
            ground arith in
          let ((f, c₁), e₅, k₅) = >>=-eq-some (greeting_version d) _ k₄ in
          let ((g, c₂), e₆, k₆) = >>=-eq-some (next_block greeting_methods (f, c₁)) _ k₅ in
          let h₁ = greeting_version-Early d c₁ f e₅ in
          let h₂ =
            next-Early greeting_methods (λ a b. greeting_methods-Early a b) f g c₁ c₂ h₁ e₆ in
          let h₃ = finally-Early SocksV5State.greeting g c₂ refl h₂ in ground arith
    ]

-- `greeting_write` goes to a state behind the authentication only without the method 0x02.
pub greeting_write-Chosen :
    (c : Socks5) (n : Ssize) {st : SocksV5State} {c' : Socks5}
    → greeting_write c n ≡ some (st, c')
    → late st ≡ true
    → c'.greeting_st.method ≢ auth_method
unfolding greeting_write late
greeting_write-Chosen c n e l = ground arith
