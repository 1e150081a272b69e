-- ===== src/Socks5/Greeting/Write.antt =====
-- `greeting_write` against its specification.
use socks5proxy.Prelude.{ℕ, ◌≤◌, ◌≡◌, refl, some, List, [], ◌∷◌, arith, length, drop}
use socks5proxy.Buffer.{Buffer, pos, buffer_read_adv}
use socks5proxy.Buffer.View.{Holds}
use socks5proxy.Buffer.Rules.{read_ptr, write_ptr, read_adv, can_read_cons, can_read_nil}
use socks5proxy.Selector.{op_read}
use socks5proxy.Socks5.{Socks5}
use socks5proxy.Socks5.Greeting.{greeting_write}
use socks5proxy.Socks5.Greeting.Spec.{GreetingView, Shows, greeting_write_spec}

-- On a connection with valid buffers, after `send` took `n` of the reply's bytes, `greeting_write`
-- does what the specification does: it stays in GREETING while bytes are left, and then goes to
-- AUTH if 0x02 was chosen and to REQUEST if not.
pub greeting_write-refines :
    {c : Socks5} {v : GreetingView} {lc lo : ℕ} (n : ℕ)
    → Shows c v lc lo
    → n ≤ length v.origin
    → (c' : Socks5) × (greeting_write c (pos n) ≡ some ((greeting_write_spec v n).0, c'))
      × Shows c' (greeting_write_spec v n).1 lc lo
unfolding greeting_write greeting_write_spec
greeting_write-refines {c} {v} {lc} {lo} n s le =
    let (o, e, k) = read_adv s.origin_holds n le in left o e k (drop n v.origin) refl
  where
    left :
        (o : Buffer)
        → buffer_read_adv c.origin_buffer (pos n) ≡ some o
        → Holds o (drop n v.origin) lo
        → (xs : List ℕ) → drop n v.origin ≡ xs
        → (c' : Socks5) × (greeting_write c (pos n) ≡ some ((greeting_write_spec v n).0, c'))
          × Shows c' (greeting_write_spec v n).1 lc lo
    left o e k [] q =
        let k₀ : Holds o [] lo = rw q at k in
        rw (q, greeting_write_spec)
          (
            record c { origin_buffer = o; client_interest = op_read },
            ground (arith, read_ptr s.origin_holds, e, write_ptr k₀, can_read_nil k₀, s.method_eq),
            record {
              client_holds = s.client_holds;
              origin_holds = k₀;
              state_eq = s.state_eq;
              n_methods_eq = s.n_methods_eq;
              method_eq = s.method_eq;
              interest_eq = refl;
            },
          )
    left o e k (x ∷ xs) q =
        let k₀ : Holds o (x ∷ xs) lo = rw q at k in
        rw (q, greeting_write_spec)
          (
            record c { origin_buffer = o },
            ground (arith, read_ptr s.origin_holds, e, write_ptr k₀, can_read_cons k₀),
            record {
              client_holds = s.client_holds;
              origin_holds = k₀;
              state_eq = s.state_eq;
              n_methods_eq = s.n_methods_eq;
              method_eq = s.method_eq;
              interest_eq = s.interest_eq;
            },
          )
