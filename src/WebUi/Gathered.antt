-- ===== src/WebUi/Gathered.antt =====
-- `getPrometheusMetrics` of pkg/webui/webui.go over the families that the Prometheus library gathers,
-- less the rate and the efficiency, which are floats. Where gathering fails, the source shows no
-- numbers at all; that case is left out.
pub mod Shown
mod Examples
use gunnel.Prelude.{ℕ, ◌+◌, List, [], ◌∷◌, Bytes, codes, str_eq, if◌then◌else◌}

-- A metric family: a name, and the values of its metrics.
pub record Family : Type 0 where
  pub name : Bytes
  pub values : List ℕ

pub record Totals : Type 0 where
  pub requests_total : ℕ
  pub pool_hits : ℕ
  pub pool_misses : ℕ
  pub pool_size : ℕ
  pub tunnel_errors : ℕ

abbrev pub zeroes : Totals
zeroes = record {
  requests_total = 0;
  pool_hits = 0;
  pool_misses = 0;
  pool_size = 0;
  tunnel_errors = 0;
}

-- The loops with `+=`, and those with `=`.
unfoldable pub add_values : ℕ → List ℕ → ℕ
add_values n [] = n
add_values n (v ∷ vs) = add_values (n + v) vs

unfoldable pub last_value : ℕ → List ℕ → ℕ
last_value n [] = n
last_value n (v ∷ vs) = last_value v vs

abbrev pub requests_name : Bytes
requests_name = codes "gunnel_requests_total"

abbrev pub errors_name : Bytes
errors_name = codes "gunnel_tunnel_errors_total"

-- The `switch`
unfoldable pub add_family : Totals → Family → Totals
add_family t f =
    if str_eq f.name requests_name
    then record t { requests_total = add_values t.requests_total f.values }
    else if str_eq f.name (codes "gunnel_stream_pool_hits_total")
    then record t { pool_hits = last_value t.pool_hits f.values }
    else if str_eq f.name (codes "gunnel_stream_pool_misses_total")
    then record t { pool_misses = last_value t.pool_misses f.values }
    else if str_eq f.name (codes "gunnel_stream_pool_size")
    then record t { pool_size = last_value t.pool_size f.values }
    else if str_eq f.name errors_name
    then record t { tunnel_errors = add_values t.tunnel_errors f.values }
    else t

unfoldable pub add_families : Totals → List Family → Totals
add_families t [] = t
add_families t (f ∷ fs) = add_families (add_family t f) fs

unfoldable pub get_prometheus_metrics : List Family → Totals
get_prometheus_metrics fs = add_families zeroes fs
