-- ===== src/Server/Issuing/Examples.antt =====
-- A server for `b.c` whose wildcard certificate cannot be obtained.
use gunnel.Prelude.{[], ◌∷◌, Bool, true, false, Option, none, some, codes, str_eq}
use gunnel.Prelude.Maps.{empty}
use gunnel.Transport.Switch.{switch}
use gunnel.Connection.{new}
use gunnel.Certificates.Setup.{Acme, TlsConfig, Library, build_decision_func, setup_certmagic}
use gunnel.Manager.Registry.{Manager}
use gunnel.Server.{CertConfig, Server}
use gunnel.Server.Issuing.{cert_info}

-- Only the base domain's certificate can be obtained.
abbrev lib : Library (Manager Bool)
lib = record {
  parse = λ s. some (record { host = s; hostname = s });
  manage_sync = λ a domain. str_eq domain (codes "b.c");
  tls = λ a domain. some [];
}

abbrev certs : CertConfig
certs = record { enabled = true; email = []; wildcard_domain = codes "*.b.c" }

abbrev server : Server Bool
server = record {
  config = record {
    domain = codes "b.c";
    token = [];
    server_port = 443;
    quic_port = 8081;
    cert = some certs;
    limits = none;
  };
  conn_manager = record {
    conns = λ id. new switch false 1;
    subdomains = empty;
    token_validator = none;
  };
  conn_limiter = none;
}

abbrev acme : Acme (Manager Bool)
acme = setup_certmagic [] (some (build_decision_func (cert_info switch server certs)))

abbrev tls : Option TlsConfig
tls = some (record { domain = codes "b.c"; next_protos = codes "h2" ∷ codes "http/1.1" ∷ [] })
