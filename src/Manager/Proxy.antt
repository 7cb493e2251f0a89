-- ===== src/Manager/Proxy.antt =====
-- The way of a request through pkg/manager/http.go: `ServeHTTP`, the retries of `handleProxyFlow`
-- and the answers to its errors. What `tryProxyRequest` makes of a stream is the argument `attempt`,
-- numbered from 0; an error is its text, with what `errors.Is` finds in it.
use gunnel.Prelude.{
  ℕ, zero, suc, ◌-◌, [], ◌∷◌, Bool, true, false, ◌||◌, Option, none, some, Bytes, codes, str_eq,
  ◌==◌, length, if◌then◌else◌,
}
use gunnel.Prelude.Int.{ℤ}
use gunnel.Http.{Request, Net}
use gunnel.Transport.{Transport}
use gunnel.Honeypot.Text.{trim_space, split_csv, contains}
use gunnel.Honeypot.Client.{remote_host}
use gunnel.Honeypot.Record.{Honeypot, record_request, is_suspicious, get_delay}
use gunnel.Manager.Registry.{
  Manager, err_no_connection, err_subdomain_not_found, acquired, refused, acquire_stream,
  release_stream, gunnel_subdomain,
}
use gunnel.Manager.Subdomain.{extract_subdomain}

-- `eof` is whether the error is, or wraps, `io.EOF` or `io.ErrUnexpectedEOF`.
pub record ProxyError : Type 0 where
  pub text : Bytes
  pub eof : Bool

pub data Attempt : Type 0 where
  answered : ℕ → Attempt
  failed : ProxyError → Attempt

-- What `handleProxyFlow` returns: nil, once the client's answer has been written with its status;
-- the error that does not wrap `ErrNoConnection`, the one that wraps `ErrSubdomainNotFound`, or the
-- error of an attempt.
pub data Flow : Type 0 where
  proxied : ℕ → Flow
  no_service : Flow
  unavailable : Flow
  gave_up : ProxyError → Flow

unfoldable pub is_retryable_error : ProxyError → Bool
is_retryable_error e =
    e.eof
    || contains e.text (codes "EOF")
    || contains e.text (codes "closed")
    || contains e.text (codes "reset")

unfoldable pub classify_proxy_error : ProxyError → Bytes
classify_proxy_error e =
    if contains e.text (codes "not ready in time")
    then codes "timeout"
    else if contains e.text (codes "begin connection")
    then codes "send_failed"
    else if contains e.text (codes "write request")
    then codes "write_failed"
    else if contains e.text (codes "read response")
    then codes "read_failed"
    else codes "proxy_failed"

-- The type under which a failure is counted.
unfoldable pub tunnel_error_type : Flow → Option Bytes
tunnel_error_type (proxied status) = none
tunnel_error_type no_service = some (codes "no_connection")
tunnel_error_type unavailable = some (codes "acquire_failed")
tunnel_error_type (gave_up e) = some (classify_proxy_error e)

abbrev pub max_retries : ℕ
max_retries = 2

abbrev pub no_error : ProxyError
no_error = record { text = []; eof = false }

-- What the server writes: an error with its status, the page of the metrics, of the management
-- subdomain, a client's answer with its status, a fake answer after a delay, or nothing, which Go
-- sends as an empty answer with status 200.
pub data Answer : Type 0 where
  http_error : ℕ → Answer
  metrics_page : Answer
  gunnel_page : Answer
  client_answer : ℕ → Answer
  fake_answer : ℤ → Answer
  nothing_written : Answer

-- `extractClientIP`
unfoldable pub extract_client_ip : Net → Request → Bytes
extract_client_ip net req =
    let xff = req.header (codes "X-Forwarded-For") in
    let xri = req.header (codes "X-Real-IP") in
    let fallback = if length xri == 0 then remote_host net req else trim_space xri in
    if length xff == 0
    then fallback
    else elim (split_csv xff) [ [] ↦ fallback | part ∷ _ ↦ trim_space part ]

-- `errors.Is(err, ErrNoConnection) || errors.Is(err, ErrSubdomainNotFound)`
unfoldable pub is_not_found : Flow → Bool
is_not_found unavailable = true
is_not_found _ = false

-- `serveHoneypotResponse`
unfoldable pub serve_honeypot_response : Net → Honeypot → ℕ → Request → Bytes → Honeypot × Answer
serve_honeypot_response net h now req subdomain =
    let ip = extract_client_ip net req in
    let h' = record_request net h now req subdomain in
    if is_suspicious h' ip then (h', fake_answer (get_delay h' ip)) else (h', nothing_written)

-- `handleProxyError`
unfoldable pub handle_proxy_error :
    Net → Option Honeypot → ℕ → Request → Bytes → Flow → Option Honeypot × Answer
handle_proxy_error net honeypot now req subdomain flow =
    if is_not_found flow
    then elim honeypot [
      | none ↦ (none, http_error 404)
      | some h ↦
          if length subdomain == 0
          then (some h, http_error 404)
          else (let (h', a) = serve_honeypot_response net h now req subdomain in (some h', a))
    ]
    else (honeypot, http_error 500)

-- `ServeHTTP` behind `handleProxyFlow`.
unfoldable pub answer_flow :
    Net → Option Honeypot → ℕ → Request → Bytes → Flow → Option Honeypot × Answer
answer_flow net honeypot now req subdomain (proxied status) = (honeypot, client_answer status)
answer_flow net honeypot now req subdomain no_service =
    handle_proxy_error net honeypot now req subdomain no_service
answer_flow net honeypot now req subdomain unavailable =
    handle_proxy_error net honeypot now req subdomain unavailable
answer_flow net honeypot now req subdomain (gave_up e) =
    handle_proxy_error net honeypot now req subdomain (gave_up e)

module _ {T S : Type 0} (ops : Transport T S) (close_stream : S → S)
    (attempt : ℕ → S → Attempt) where
  -- The loop of `handleProxyFlow`, with `left` attempts of the two left.
  unfoldable pub proxy_loop : (left : ℕ) → Manager T → ℕ → Bytes → ProxyError → Manager T × Flow
  proxy_loop zero m now subdomain last_err = (m, gave_up last_err)
  proxy_loop (suc left) m now subdomain last_err =
      let (m', got) = acquire_stream ops m now subdomain in
      elim got [
        | refused err_no_connection ↦ (m', no_service)
        | refused err_subdomain_not_found ↦ (m', unavailable)
        | acquired stream ↦ elim (attempt (1 - left) stream) [
          | answered status ↦ (release_stream ops m' now subdomain stream, proxied status)
          | failed err ↦
              let m'' = release_stream ops m' now subdomain (close_stream stream) in
              elim (is_retryable_error err) [
                | false ↦ (m'', gave_up err)
                | true ↦ proxy_loop left m'' now subdomain err
              ]
        ]
      ]

  unfoldable pub handle_proxy_flow : Manager T → ℕ → Bytes → Manager T × Flow
  handle_proxy_flow m now subdomain = proxy_loop max_retries m now subdomain no_error

  module _ (net : Net) (trim : Bytes → Bytes) where
    -- `ServeHTTP`
    unfoldable pub serve_http :
        Manager T → Option Honeypot → ℕ → Request → (Manager T × Option Honeypot) × Answer
    serve_http m honeypot now req =
        if str_eq req.path (codes "/metrics")
        then ((m, honeypot), metrics_page)
        else (let subdomain = extract_subdomain net trim req in
            if str_eq subdomain gunnel_subdomain
            then ((m, honeypot), gunnel_page)
            else (let (m', flow) = handle_proxy_flow m now subdomain in
                let (h', answer) = answer_flow net honeypot now req subdomain flow in
                ((m', h'), answer)))
