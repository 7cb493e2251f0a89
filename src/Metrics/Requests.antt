-- ===== src/Metrics/Requests.antt =====
-- The counters of requests and of tunnel errors of pkg/metrics/prometheus.go, with labels. A
-- `CounterVec` of the Prometheus library is an interface: what it is read as, and how `Inc` changes
-- that. The histogram of durations is left out; a count is taken to be below 2 ^ 53, where its float
-- is exact.
use gunnel.Prelude.{ℕ, ◌+◌, ◌≡◌, List, [], ◌∷◌, ◌++◌, Bytes, codes, leb, ltb, ◌&&◌, if◌then◌else◌}
use gunnel.Metrics.Prometheus.{label_of}

-- The metrics of a vector, each with its labels, before and after one is counted: it was there, at any
-- place, or is new.
pub data Counted (before : List (List Bytes × ℕ)) (labels : List Bytes)
    (after : List (List Bytes × ℕ)) : Type 0 where
  again :
      (xs ys : List (List Bytes × ℕ)) (n : ℕ)
      → before ≡ xs ++ (labels, n) ∷ ys
      → after ≡ xs ++ (labels, n + 1) ∷ ys
      → Counted before labels after
  anew :
      (xs ys : List (List Bytes × ℕ))
      → before ≡ xs ++ ys
      → after ≡ xs ++ (labels, 1) ∷ ys
      → Counted before labels after

-- `WithLabelValues(labels).Inc()` and `Collect`.
pub record CounterVec (V : Type 0) : Type 0 where
  pub inc : V → List Bytes → V
  pub collect : V → List (List Bytes × ℕ)
  pub inc-collect :
      (v : V) (labels : List Bytes) → Counted (collect v) labels (collect (inc v labels))

-- `statusCodeString`
unfoldable pub status_code_string : ℕ → Bytes
status_code_string code =
    if leb 200 code && ltb code 300
    then codes "2xx"
    else if leb 300 code && ltb code 400
    then codes "3xx"
    else if leb 400 code && ltb code 500
    then codes "4xx"
    else if leb 500 code
    then codes "5xx"
    else codes "unknown"

-- `RequestsTotal` and `TunnelErrors`
pub record Requests (V : Type 0) : Type 0 where
  pub requests_total : V
  pub tunnel_errors : V

module _ {V : Type 0} (vec : CounterVec V) where
  unfoldable pub record_request : Requests V → Bytes → Bytes → ℕ → Requests V
  record_request r subdomain method status_code = record r {
    requests_total =
        vec.inc r.requests_total
          (label_of subdomain ∷ method ∷ status_code_string status_code ∷ []);
  }

  unfoldable pub record_tunnel_error : Requests V → Bytes → Bytes → Requests V
  record_tunnel_error r subdomain error_type = record r {
    tunnel_errors = vec.inc r.tunnel_errors (label_of subdomain ∷ error_type ∷ []);
  }
