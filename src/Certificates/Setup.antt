-- ===== src/Certificates/Setup.antt =====
-- `GetTLSConfigWithLetsEncrypt` of pkg/certmanager/cert.go with its helpers. What certmagic and
-- `url.Parse` do is a parameter; the package's variables that the code sets are a state. `W` is what
-- the checker of subdomains reads when a certificate is asked for.
use gunnel.Prelude.{
  ◌++◌, List, ◌∷◌, Bool, true, false, not, ◌||◌, Bytes, Option, none, some, codes, str_eq, ◌==◌,
  length, if◌then◌else◌,
}
use gunnel.Certificates.{decision}

-- What is read of a `url.URL`: `Host`, and what `Hostname` returns.
pub record Url : Type 0 where
  pub host : Bytes
  pub hostname : Bytes

-- `DefaultACME.Email` and `Default.OnDemand`, with whether the decision function returns no error.
pub record Acme (W : Type 0) : Type 0 where
  pub email : Bytes
  pub on_demand : Option (W → Bytes → Bool)

pub record TlsConfig : Type 0 where
  pub domain : Bytes
  pub next_protos : List Bytes

-- `url.Parse`, whether `ManageSync` works, and the protocols of what `certmagic.TLS` returns.
pub record Library (W : Type 0) : Type 0 where
  pub parse : Bytes → Option Url
  pub manage_sync : Acme W → Bytes → Bool
  pub tls : Acme W → Bytes → Option (List Bytes)

pub record CertReqInfo (W : Type 0) : Type 0 where
  pub domain : Bytes
  pub wildcard_domain : Bytes
  pub email : Bytes
  pub subdomain_checker : Option (W → Bytes → Bool)

-- Whether there is a URL with a host.
unfoldable pub has_host : Option Url → Bool
has_host none = false
has_host (some u) = not (length u.host == 0)

unfoldable pub is_its_host : Option Url → Bytes → Bool
is_its_host none domain = false
is_its_host (some u) domain = str_eq u.host domain || str_eq u.hostname domain

module _ {W : Type 0} where
  -- The checker of a request, over what it reads.
  unfoldable pub checker_at : Option (W → Bytes → Bool) → W → Option (Bytes → Bool)
  checker_at none w = none
  checker_at (some f) w = some (f w)

  unfoldable pub setup_certmagic : Bytes → Option (W → Bytes → Bool) → Acme W
  setup_certmagic email decision_func = record { email = email; on_demand = decision_func }

  unfoldable pub build_decision_func : CertReqInfo W → W → Bytes → Bool
  build_decision_func req w domain = decision req.domain (checker_at req.subdomain_checker w) domain

  module _ (lib : Library W) where
    unfoldable pub is_valid_domain : Bytes → Bool
    is_valid_domain domain =
        if length domain == 0
        then false
        else if has_host (lib.parse domain)
        then true
        else (let u = lib.parse (codes "https://" ++ domain) in
            if has_host u then is_its_host u domain else false)

    unfoldable pub tls_config : Bytes → Option (List Bytes) → Option TlsConfig
    tls_config domain none = none
    tls_config domain (some protos) =
        some (record { domain = domain; next_protos = codes "h2" ∷ codes "http/1.1" ∷ protos })

    -- None for an error.
    unfoldable pub manage_domain : Acme W → Bytes → Option TlsConfig
    manage_domain a domain =
        if not (is_valid_domain domain)
        then none
        else if not (lib.manage_sync a domain)
        then none
        else tls_config domain (lib.tls a domain)

    -- The attempt with the wildcard; none where there is none or where it fails.
    unfoldable pub try_wildcard : CertReqInfo W → Option TlsConfig
    try_wildcard req =
        if not (length req.wildcard_domain == 0)
        then manage_domain (setup_certmagic req.email none) req.wildcard_domain
        else none

    -- The state that is left, and the configuration, if there is one.
    unfoldable pub get_tls_config : CertReqInfo W → Acme W × Option TlsConfig
    get_tls_config req =
        let per_subdomain = setup_certmagic req.email (some (build_decision_func req)) in
        elim (try_wildcard req) [
          | some config ↦ (setup_certmagic req.email none, some config)
          | none ↦ (per_subdomain, manage_domain per_subdomain req.domain)
        ]
