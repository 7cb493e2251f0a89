-- ===== src/Manager/Answers.antt =====
-- What a request is answered with.
use gunnel.Prelude.{
  Option, ℕ, ◌<◌, ◌≡◌, refl, arith, List, [], ◌∷◌, Bool, true, false, none, some, Bytes, codes,
  str_eq, leb, ltb, ◌&&◌, ◌==◌, length, if◌then◌else◌,
}
use gunnel.Http.{Request, Net}
use gunnel.Transport.{Transport}
use gunnel.Connection.{acquire}
use gunnel.Honeypot.Text.{trim_space, split_csv}
use gunnel.Honeypot.Client.{extract_ip, forwarded_ip, real_ip, remote_host}
use gunnel.Honeypot.Record.{Honeypot}
use gunnel.Honeypot.Summary.{Visit}
use gunnel.Honeypot.Visits.{visit}
use gunnel.Manager.Registry.{
  Manager, refused, acquire_stream, err_no_connection, stream_or_error, get_client,
  gunnel_subdomain,
}
use gunnel.Manager.Subdomain.{extract_subdomain}
use gunnel.Manager.Proxy.{
  Attempt, no_service, http_error, extract_client_ip, is_not_found, handle_proxy_error, answer_flow,
  proxy_loop, handle_proxy_flow, serve_http,
}

forwarded_ip-first :
    (net : Net) (xff part : Bytes) (parts : List Bytes)
    → split_csv xff ≡ part ∷ parts
    → 0 < length xff
    → forwarded_ip net xff
      ≡ (if net.parse_ip (trim_space part) then some (trim_space part) else none)
unfolding forwarded_ip
forwarded_ip-first net xff part parts e l =
    let nz : (length xff == 0) ≡ false = ground arith in rw (nz, e) refl

-- The one place where the addresses of the two packages differ: where the first forwarded address
-- is none, and there is no `X-Real-IP`, the proxy's answers go by the text as it stands, and the
-- honeypot counts the peer's own address.
pub extract_client_ip-spoofed :
    (net : Net) (req : Request) (part : Bytes) (parts : List Bytes)
    → split_csv (req.header (codes "X-Forwarded-For")) ≡ part ∷ parts
    → 0 < length (req.header (codes "X-Forwarded-For"))
    → net.parse_ip (trim_space part) ≡ false
    → req.header (codes "X-Real-IP") ≡ []
    → (extract_client_ip net req ≡ trim_space part) × (extract_ip net req ≡ remote_host net req)
unfolding extract_client_ip extract_ip forwarded_ip real_ip
extract_client_ip-spoofed net req part parts e l p x =
    let nz : (length (req.header (codes "X-Forwarded-For")) == 0) ≡ false = ground arith in
    (rw (nz, e) refl, rw (forwarded_ip-first net _ part parts e l, p, x, extract_ip) refl)

-- Where the first forwarded address is one, both take it.
pub extract_client_ip-forwarded :
    (net : Net) (req : Request) (part : Bytes) (parts : List Bytes)
    → split_csv (req.header (codes "X-Forwarded-For")) ≡ part ∷ parts
    → 0 < length (req.header (codes "X-Forwarded-For"))
    → net.parse_ip (trim_space part) ≡ true
    → extract_client_ip net req ≡ extract_ip net req
unfolding extract_client_ip extract_ip forwarded_ip
extract_client_ip-forwarded net req part parts e l p =
    let nz : (length (req.header (codes "X-Forwarded-For")) == 0) ≡ false = ground arith in
    rw (nz, e, p, extract_ip) refl

-- Whether there are visits, at least so many.
abbrev pub has_reached : ℕ → List Visit → Bool
has_reached threshold visits = ltb 0 (length visits) && leb threshold (length visits)

-- The visits of each address once one more request has been recorded.
abbrev pub visits_with : Net → (Bytes → List Visit) → ℕ → Request → Bytes → Bytes → List Visit
visits_with net log now req sub =
    visit log (extract_ip net req) (record { time = now; subdomain = sub })

module _ {T S : Type 0} (ops : Transport T S) (close_stream : S → S)
    (attempt : ℕ → S → Attempt) where
  acquire_stream-no_service :
      (m : Manager T) (now : ℕ) (sub : Bytes) (id : ℕ)
      → get_client m sub ≡ some id
      → (ops.acquire (m.conns id).transp).1 ≡ none
      → (acquire_stream ops m now sub).1 ≡ refused err_no_connection
  unfolding acquire_stream get_client acquire stream_or_error
  acquire_stream-no_service m now sub id e closed = rw (e, acquire_stream, closed) refl

  handle_proxy_flow-no_service :
      (m : Manager T) (now : ℕ) (sub : Bytes) (id : ℕ)
      → get_client m sub ≡ some id
      → (ops.acquire (m.conns id).transp).1 ≡ none
      → (handle_proxy_flow ops close_stream attempt m now sub).1 ≡ no_service
  unfolding handle_proxy_flow proxy_loop
  handle_proxy_flow-no_service m now sub id e closed =
      rw (acquire_stream-no_service m now sub id e closed, handle_proxy_flow, proxy_loop) refl

  module _ (net : Net) (trim : Bytes → Bytes) where
    -- A request for a subdomain whose client cannot open a stream is answered with status 500, with
    -- a honeypot or without one: the error does not wrap `ErrNoConnection`.
    pub serve_http-no_service :
        (m : Manager T) (honeypot : Option Honeypot) (now : ℕ) (req : Request) (id : ℕ)
        → str_eq req.path (codes "/metrics") ≡ false
        → str_eq (extract_subdomain net trim req) gunnel_subdomain ≡ false
        → get_client m (extract_subdomain net trim req) ≡ some id
        → (ops.acquire (m.conns id).transp).1 ≡ none
        → (serve_http ops close_stream attempt net trim m honeypot now req).1 ≡ http_error 500
    unfolding serve_http answer_flow handle_proxy_error is_not_found
    serve_http-no_service m honeypot now req id path sub e closed =
        rw (path, sub, handle_proxy_flow-no_service m now _ id e closed, answer_flow) refl
