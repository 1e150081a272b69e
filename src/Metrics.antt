-- ===== src/Metrics.antt =====
-- src/server/metrics.c: the counters of the server. A `size_t` has 64 bits.
pub mod Totals
use socks5proxy.Prelude.{ℕ, ◌+◌, ◌-◌, ◌%◌, ◌^◌, ltb, if◌then◌else◌}

-- `struct metricSnapshot`
pub record MetricSnapshot : Type 0 where
  pub current_connections : ℕ
  pub total_connections : ℕ
  pub total_bytes_sent : ℕ
  pub total_bytes_received : ℕ

-- `size_t` arithmetic
unfoldable pub size_t : ℕ → ℕ
size_t n = n % 2 ^ 64

pub metrics_init : MetricSnapshot
metrics_init = record {
  current_connections = 0;
  total_connections = 0;
  total_bytes_sent = 0;
  total_bytes_received = 0;
}

pub register_new_connection : MetricSnapshot → MetricSnapshot
register_new_connection m = record m {
  current_connections = size_t (m.current_connections + 1);
  total_connections = size_t (m.total_connections + 1);
}

unfoldable pub register_connection_closed : MetricSnapshot → MetricSnapshot
register_connection_closed m =
    if ltb 0 m.current_connections
    then record m { current_connections = m.current_connections - 1 }
    else m

-- The callers pass numbers of bytes that were sent or received, which are not negative.
pub register_bytes_transferred : ℕ → ℕ → MetricSnapshot → MetricSnapshot
register_bytes_transferred bytes_received bytes_sent m = record m {
  total_bytes_received = size_t (m.total_bytes_received + bytes_received);
  total_bytes_sent = size_t (m.total_bytes_sent + bytes_sent);
}

-- The copy that `*snapshot` receives.
pub get_metrics_snapshot : MetricSnapshot → MetricSnapshot
get_metrics_snapshot m = record {
  current_connections = m.current_connections;
  total_connections = m.total_connections;
  total_bytes_sent = m.total_bytes_sent;
  total_bytes_received = m.total_bytes_received;
}
