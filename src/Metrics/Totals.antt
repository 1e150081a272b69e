-- ===== src/Metrics/Totals.antt =====
-- What the totals of src/server/metrics.c count, over any sequence of calls.
use native.Mathlib.Nat.{mod-add-mod}
use socks5proxy.Prelude.{
  ℕ, ◌+◌, ◌%◌, ◌^◌, ◌≡◌, refl, ap, ◌∙◌, List, [], ◌∷◌, arith, ltb, Bool-cases, inl, inr,
}
use socks5proxy.Metrics.{
  MetricSnapshot, size_t, metrics_init, register_new_connection, register_connection_closed,
  register_bytes_transferred, get_metrics_snapshot,
}

-- A call of one of the three functions that count.
pub data Call : Type 0 where
  new_connection connection_closed : Call
  transferred : ℕ → ℕ → Call

unfoldable pub step : Call → MetricSnapshot → MetricSnapshot
step new_connection m = register_new_connection m
step connection_closed m = register_connection_closed m
step (transferred rx tx) m = register_bytes_transferred rx tx m

unfoldable pub run : List Call → MetricSnapshot → MetricSnapshot
run [] m = m
run (c ∷ cs) m = run cs (step c m)

-- What a call adds to the connections, the bytes received and the bytes sent.
unfoldable pub opened_by : Call → ℕ
opened_by new_connection = 1
opened_by connection_closed = 0
opened_by (transferred rx tx) = 0

unfoldable pub received_by : Call → ℕ
received_by new_connection = 0
received_by connection_closed = 0
received_by (transferred rx tx) = rx

unfoldable pub sent_by : Call → ℕ
sent_by new_connection = 0
sent_by connection_closed = 0
sent_by (transferred rx tx) = tx

unfoldable pub total : (Call → ℕ) → List Call → ℕ
total by [] = 0
total by (c ∷ cs) = by c + total by cs

-- A counter that every call moves on by what it adds, modulo 2^64, counts the sum modulo 2^64.
run-total :
    (counter : MetricSnapshot → ℕ) (by : Call → ℕ)
    → ((c : Call) (m : MetricSnapshot) (n : ℕ)
        → counter m ≡ size_t n
        → counter (step c m) ≡ size_t (n + by c))
    → (cs : List Call) (m : MetricSnapshot) (n : ℕ) → counter m ≡ size_t n
    → counter (run cs m) ≡ size_t (n + total by cs)
unfolding run total
run-total counter by each [] m n e = let z : n + 0 ≡ n = omega arith in rw z e
run-total counter by each (c ∷ cs) m n e =
    let z : n + (by c + total by cs) ≡ n + by c + total by cs = omega arith in
    rw z (run-total counter by each cs (step c m) (n + by c) (each c m n e))

add_size_t : (a n k : ℕ) → a ≡ size_t n → size_t (a + k) ≡ size_t (n + k)
unfolding size_t
add_size_t a n k e = ap (λ x. (x + k) % 2 ^ 64) e ∙ mod-add-mod n (2 ^ 64) k

add_nothing : (a n : ℕ) → a ≡ size_t n → a ≡ size_t (n + 0)
add_nothing a n e = let z : n + 0 ≡ n = omega arith in rw z e

closed_totals :
    (m : MetricSnapshot)
    → ((register_connection_closed m).total_connections ≡ m.total_connections)
      × ((register_connection_closed m).total_bytes_received ≡ m.total_bytes_received)
      × ((register_connection_closed m).total_bytes_sent ≡ m.total_bytes_sent)
unfolding register_connection_closed
closed_totals m = elim (Bool-cases (ltb 0 m.current_connections)) [
  | inl t ↦ rw t (refl, refl, refl)
  | inr f ↦ rw f (refl, refl, refl)
]

from_zero : (x n : ℕ) → x ≡ size_t (0 + n) → x ≡ n % 2 ^ 64
unfolding size_t
from_zero x n e = let z : 0 + n ≡ n = omega arith in e ∙ ap (λ k. k % 2 ^ 64) z

zero_size_t : 0 ≡ size_t 0
unfolding size_t
zero_size_t = refl

opened_step :
    (c : Call) (m : MetricSnapshot) (n : ℕ)
    → m.total_connections ≡ size_t n
    → (step c m).total_connections ≡ size_t (n + opened_by c)
unfolding step opened_by register_new_connection register_connection_closed
    register_bytes_transferred
opened_step new_connection m n e = add_size_t (m.total_connections) n 1 e
opened_step connection_closed m n e = (closed_totals m).0 ∙ add_nothing (m.total_connections) n e
opened_step (transferred rx tx) m n e = add_nothing (m.total_connections) n e

received_step :
    (c : Call) (m : MetricSnapshot) (n : ℕ)
    → m.total_bytes_received ≡ size_t n
    → (step c m).total_bytes_received ≡ size_t (n + received_by c)
unfolding step received_by register_new_connection register_connection_closed
    register_bytes_transferred
received_step new_connection m n e = add_nothing (m.total_bytes_received) n e
received_step connection_closed m n e =
    (closed_totals m).1 ∙ add_nothing (m.total_bytes_received) n e
received_step (transferred rx tx) m n e = add_size_t (m.total_bytes_received) n rx e

sent_step :
    (c : Call) (m : MetricSnapshot) (n : ℕ)
    → m.total_bytes_sent ≡ size_t n
    → (step c m).total_bytes_sent ≡ size_t (n + sent_by c)
unfolding step sent_by register_new_connection register_connection_closed register_bytes_transferred
sent_step new_connection m n e = add_nothing (m.total_bytes_sent) n e
sent_step connection_closed m n e = (closed_totals m).2 ∙ add_nothing (m.total_bytes_sent) n e
sent_step (transferred rx tx) m n e = add_size_t (m.total_bytes_sent) n tx e

-- After any sequence of calls from `metrics_init` on, the snapshot's totals are the number of new
-- connections and the sums of the bytes received and sent, each modulo 2^64.
pub metrics_lem :
    (cs : List Call)
    → ((get_metrics_snapshot (run cs metrics_init)).total_connections ≡ total opened_by cs % 2 ^ 64)
      × ((get_metrics_snapshot (run cs metrics_init)).total_bytes_received
          ≡ total received_by cs % 2 ^ 64)
      × ((get_metrics_snapshot (run cs metrics_init)).total_bytes_sent ≡ total sent_by cs % 2 ^ 64)
unfolding get_metrics_snapshot metrics_init
metrics_lem cs = (
  from_zero _ (total opened_by cs)
      (run-total (λ m. m.total_connections) opened_by opened_step cs metrics_init 0 zero_size_t),
  from_zero _ (total received_by cs) (
      run-total (λ m. m.total_bytes_received) received_by received_step cs metrics_init 0
        zero_size_t),
  from_zero _ (total sent_by cs)
      (run-total (λ m. m.total_bytes_sent) sent_by sent_step cs metrics_init 0 zero_size_t),
)
