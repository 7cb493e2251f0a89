-- ===== src/Server/Issuing.antt =====
-- `certInfo` and the TLS of `newHTTPServer` of pkg/server/server.go: for which names a server gets
-- certificates, by pkg/certmanager and the registry of pkg/manager.
mod Examples
use gunnel.Prelude.{
  ℕ, ◌+◌, ◌≡◌, ◌≢◌, ◌↔◌, ◌⊎◌, refl, List, [], ◌∷◌, ◌++◌, Bool, true, false, not, Option, none, some,
  Bytes, ◌==◌, length, if◌then◌else◌, Bool-cases, Option-cases,
}
use gunnel.Go.Slices.{Outcome, done, panicked}
use gunnel.Transport.{Transport}
use gunnel.Connection.{is_connected}
use gunnel.Certificates.{decision}
use gunnel.Certificates.Setup.{
  Acme, TlsConfig, Library, CertReqInfo, setup_certmagic, tls_config, manage_domain, try_wildcard,
  get_tls_config,
}
use gunnel.Certificates.Obtained.{IsWild, IsPerSubdomain, IsUnobtained}
use gunnel.Manager.Registry.{Manager, get_client, has_known_subdomain, gunnel_subdomain}
use gunnel.Server.{CertConfig, Server}

module _ {T S : Type 0} (ops : Transport T S) where
  -- `certInfo`; the checker asks the manager as it is when a certificate is asked for.
  unfoldable pub cert_info : Server T → CertConfig → CertReqInfo (Manager T)
  cert_info s cert = record {
    domain = s.config.domain;
    wildcard_domain = cert.wildcard_domain;
    email = cert.email;
    subdomain_checker = some (λ m subdomain. (has_known_subdomain ops m subdomain).1);
  }

  module _ (lib : Library (Manager T)) where
    -- `newHTTPServer`, as far as certificates go: what is set up, if they are enabled, and
    -- `TLSConfig`; a server without that part of the configuration panics.
    unfoldable pub new_http_server :
        Server T → Outcome (Option (Acme (Manager T)) × Option TlsConfig)
    new_http_server s = elim s.config.cert [
      | none ↦ panicked
      | some cert ↦
          if cert.enabled
          then (let (acme, tls) = get_tls_config lib (cert_info s cert) in done (some acme, tls))
          else done (none, none)
    ]

  -- The management subdomain, or one that a connected client has registered.
  abbrev pub Known : Manager T → Bytes → Type 0
  Known m sub =
      (sub ≡ gunnel_subdomain)
      ⊎ ((id : ℕ) × (get_client m sub ≡ some id) × ((is_connected ops (m.conns id)).1 ≡ true))

  -- A name for which a certificate is asked for: the base domain or a known one in front of it.
  abbrev pub Issued : Server T → Manager T → Bytes → Type 0
  Issued s m name =
      (name ≡ s.config.domain)
      ⊎ ((sub : Bytes) × (name ≡ sub ++ b'.' ∷ s.config.domain) × Known m sub)

  -- What certificates a server has and asks for: that of its wildcard, and no other; or on demand
  -- one for each issued name, with a TLS configuration of the base domain; or, where the base domain
  -- is not valid or certmagic fails for it, no TLS configuration, so that it serves without TLS.
  abbrev pub Certified :
      Library (Manager T)
      → Server T
      → CertConfig
      → Acme (Manager T)
      → Option TlsConfig
      → Manager T
      → Bytes
      → Type 0
  Certified lib s cert acme tls m name =
      ((acme.on_demand ≡ none)
        × ((c : TlsConfig) × (tls ≡ some c) × (c.domain ≡ cert.wildcard_domain)))
      ⊎ (((decide : Manager T → Bytes → Bool) × (acme.on_demand ≡ some decide)
            × ((decide m name ≡ true) ↔ Issued s m name))
          × (((c : TlsConfig) × (tls ≡ some c) × (c.domain ≡ s.config.domain))
              ⊎ ((tls ≡ none) × IsUnobtained lib acme s.config.domain)))
