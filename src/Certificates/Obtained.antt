-- ===== src/Certificates/Obtained.antt =====
-- Which configuration is returned, and what is set up for names that are asked for later.
use gunnel.Prelude.{
  ◌≡◌, ◌≢◌, false, ◌⊎◌, refl, ap, arith, List, [], Option, none, some, Bytes, ◌==◌, length,
  Bool-cases, Option-cases, inl, inr,
}
use gunnel.Certificates.Setup.{
  Acme, TlsConfig, Library, CertReqInfo, setup_certmagic, build_decision_func, tls_config,
  is_valid_domain, manage_domain, try_wildcard, get_tls_config,
}

module _ {W : Type 0} (lib : Library W) where
  -- The wildcard's certificate was obtained, and no name gets another on demand.
  pub record IsWild (req : CertReqInfo W) (acme : Acme W) (tls : Option TlsConfig) : Type 0 where
    pub config : TlsConfig
    pub wanted : req.wildcard_domain ≢ []
    pub returned : tls ≡ some config
    pub domain : config.domain ≡ req.wildcard_domain
    pub on_demand : acme.on_demand ≡ none

  -- Why there is no configuration: the domain is not valid, or certmagic fails.
  abbrev pub IsUnobtained : Acme W → Bytes → Type 0
  IsUnobtained a domain =
      (is_valid_domain lib domain ≡ false)
      ⊎ ((lib.manage_sync a domain ≡ false) ⊎ (lib.tls a domain ≡ none))

  -- Names get one on demand, and the configuration is that of the base domain, unless it cannot be
  -- obtained.
  pub record IsPerSubdomain (req : CertReqInfo W) (acme : Acme W) (tls : Option TlsConfig)
      : Type 0 where
    pub on_demand : acme.on_demand ≡ some (build_decision_func req)
    pub domain :
        ((tls ≡ none) × IsUnobtained acme req.domain)
        ⊎ ((c : TlsConfig) × (tls ≡ some c) × (c.domain ≡ req.domain))

  tls_config-domain :
      (domain : Bytes) (protos : Option (List Bytes)) (c : TlsConfig)
      → tls_config lib domain protos ≡ some c
      → c.domain ≡ domain
  unfolding tls_config
  tls_config-domain domain none c e = cc
  tls_config-domain domain (some protos) c e = ground (arith, e)

  manage_domain-domain :
      (a : Acme W) (domain : Bytes) (c : TlsConfig)
      → manage_domain lib a domain ≡ some c
      → c.domain ≡ domain
  unfolding manage_domain
  manage_domain-domain a domain c e =
      ground (arith, e, tls_config-domain domain (lib.tls a domain) c)

  manage_domain-IsUnobtained :
      (a : Acme W) (domain : Bytes) → manage_domain lib a domain ≡ none → IsUnobtained a domain
  unfolding manage_domain tls_config
  manage_domain-IsUnobtained a domain e = elim (Bool-cases (is_valid_domain lib domain)) [
    | inr v ↦ inl v
    | inl v ↦ elim (Bool-cases (lib.manage_sync a domain)) [
      | inr m ↦ inr (inl m)
      | inl m ↦ elim (Option-cases (lib.tls a domain)) [
        | inl t ↦ inr (inr t)
        | inr (protos, t) ↦ absurd (ground (arith, e, v, m, t))
      ]
    ]
  ]

  try_wildcard-wanted :
      (req : CertReqInfo W) (c : TlsConfig)
      → try_wildcard lib req ≡ some c
      → (req.wildcard_domain ≢ []) × (c.domain ≡ req.wildcard_domain)
  unfolding try_wildcard
  try_wildcard-wanted req c e = elim (Bool-cases (length req.wildcard_domain == 0)) [
    | inl y ↦ absurd (ground (arith, e, y))
    | inr n ↦ (
      (λ z. absurd (ground (arith, n, ap length z))),
      manage_domain-domain (setup_certmagic req.email none) req.wildcard_domain c
          (ground (arith, e, n)),
    )
  ]

  manage_domain-IsPerSubdomain :
      (req : CertReqInfo W) (o : Option TlsConfig)
      → let acme = setup_certmagic req.email (some (build_decision_func req)) in
        manage_domain lib acme req.domain ≡ o → IsPerSubdomain req acme o
  unfolding setup_certmagic
  manage_domain-IsPerSubdomain req none e = record {
    on_demand = refl;
    domain = inl (refl, manage_domain-IsUnobtained _ req.domain e);
  }
  manage_domain-IsPerSubdomain req (some c) e = record {
    on_demand = refl;
    domain = inr (c, refl, manage_domain-domain _ req.domain c e);
  }

  try_wildcard-IsWild :
      (req : CertReqInfo W) (c : TlsConfig)
      → try_wildcard lib req ≡ some c
      → IsWild req (setup_certmagic req.email none) (some c)
  unfolding setup_certmagic
  try_wildcard-IsWild req c e =
      let (wanted, domain) = try_wildcard-wanted req c e in
      record { config = c; wanted = wanted; returned = refl; domain = domain; on_demand = refl }

  pub get_tls_config_cases :
      (req : CertReqInfo W)
      → IsWild req (get_tls_config lib req).0 (get_tls_config lib req).1
        ⊎ IsPerSubdomain req (get_tls_config lib req).0 (get_tls_config lib req).1
  unfolding get_tls_config
  get_tls_config_cases req = elim (Option-cases (try_wildcard lib req)) [
    | inl e ↦ rw (e, get_tls_config) (inr (manage_domain-IsPerSubdomain req _ refl))
    | inr (c, e) ↦ rw (e, get_tls_config) (inl (try_wildcard-IsWild req c e))
  ]
