-- ===== src/Manager/Recorded.antt =====
-- What `handleProxyFlow` of pkg/manager/http.go counts.
use gunnel.Prelude.{Bytes, codes, List, [], ◌∷◌}
use gunnel.Metrics.Requests.{CounterVec, Requests, record_request, record_tunnel_error}
use gunnel.Manager.Proxy.{Flow, proxied, no_service, unavailable, gave_up, classify_proxy_error}

-- A request with what became of it.
pub record Proxying : Type 0 where
  pub subdomain : Bytes
  pub method : Bytes
  pub flow : Flow

module _ {V : Type 0} (vec : CounterVec V) where
  unfoldable pub count_flow : Requests V → Bytes → Bytes → Flow → Requests V
  count_flow r subdomain method (proxied status) = record_request vec r subdomain method status
  count_flow r subdomain method no_service =
      record_tunnel_error vec r subdomain (codes "no_connection")
  count_flow r subdomain method unavailable =
      record_tunnel_error vec r subdomain (codes "acquire_failed")
  count_flow r subdomain method (gave_up err) =
      record_tunnel_error vec r subdomain (classify_proxy_error err)

  -- Requests one after the other.
  unfoldable pub count_flows : Requests V → List Proxying → Requests V
  count_flows r [] = r
  count_flows r (p ∷ ps) = count_flows (count_flow r p.subdomain p.method p.flow) ps
