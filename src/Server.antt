-- ===== src/Server.antt =====
-- pkg/server/server.go and pkg/server/config.go: what a server is made of, and the way of a client's
-- connection through it. The listeners, the signals and pprof are I/O. Limits are taken not to be
-- negative.
pub mod Limiter
pub mod Serving
pub mod Issuing
mod Examples
use gunnel.Prelude.{
  ℕ, [], Bool, true, false, not, Option, none, some, Bytes, str_eq, ◌==◌, length, if◌then◌else◌,
}
use gunnel.Prelude.Maps.{empty}
use gunnel.Connection.{Connection}
use gunnel.Manager.Registry.{Manager, set_token_validator}
use gunnel.Server.Limiter.{Limiter as ConnectionLimiter, new, acquire, release}

pub record ConnectionLimits : Type 0 where
  pub max_connections : ℕ
  pub max_connections_per_ip : ℕ
  pub connection_rate_limit : ℕ

pub record CertConfig : Type 0 where
  pub enabled : Bool
  pub email : Bytes
  pub wildcard_domain : Bytes

-- `none` is a nil pointer.
pub record Config : Type 0 where
  pub domain : Bytes
  pub token : Bytes
  pub server_port : ℕ
  pub quic_port : ℕ
  pub cert : Option CertConfig
  pub limits : Option ConnectionLimits

-- `DefaultConfig`
unfoldable pub default_config : Config
default_config = record {
  domain = [];
  token = [];
  server_port = 8080;
  quic_port = 8081;
  cert = some (record { enabled = false; email = []; wildcard_domain = [] });
  limits =
      some (record { max_connections = 0; max_connections_per_ip = 0; connection_rate_limit = 0 });
}

-- `validate`, and whether it returns no error.
unfoldable pub validate : Config → Bool
validate c = not (length c.domain == 0)

pub record Server (T : Type 0) : Type 0 where
  pub config : Config
  pub conn_manager : Manager T
  pub conn_limiter : Option ConnectionLimiter

unfoldable pub limiter_of : Option ConnectionLimits → Option ConnectionLimiter
limiter_of none = none
limiter_of (some l) = some (new l.max_connections l.max_connections_per_ip l.connection_rate_limit)

-- What `handleQUICConn` does with a connection: it closes it, drops it, or starts a handler.
pub data Verdict : Type 0 where
  rejected dropped served : Verdict

module _ {T : Type 0} where
  unfoldable pub manager_of : (ℕ → Connection T) → Bytes → Manager T
  manager_of conns token =
      let m : Manager T = record { conns = conns; subdomains = empty; token_validator = none } in
      if not (length token == 0) then set_token_validator m (λ t. str_eq t token) else m

  -- `NewServer`, with the store in which its manager will find connections.
  unfoldable pub new_server : (ℕ → Connection T) → Config → Server T
  new_server conns config = record {
    config = config;
    conn_manager = manager_of conns config.token;
    conn_limiter = limiter_of config.limits;
  }

  module _ (split : Bytes → Option Bytes) where
    unfoldable pub acquire_conn : Server T → ℕ → Bytes → Server T × Bool
    acquire_conn s now addr = elim s.conn_limiter [
      | none ↦ (s, true)
      | some cl ↦
          let (cl', allowed) = acquire split cl now addr in
          (record s { conn_limiter = some cl' }, allowed)
    ]

    unfoldable pub release_conn : Server T → Bytes → Server T
    release_conn s addr = elim s.conn_limiter [
      | none ↦ s
      | some cl ↦ record s { conn_limiter = some (release split cl addr) }
    ]

    -- `handleQUICConn`; the last argument says whether `NewFromServer` works.
    unfoldable pub handle_quic_conn : Server T → ℕ → Bytes → Bool → Server T × Verdict
    handle_quic_conn s now addr works =
        let (s', allowed) = acquire_conn s now addr in
        if not allowed
        then (s', rejected)
        else if not works
        then (release_conn s' addr, dropped)
        else (s', served)

    -- The deferred part of `runQUICHandler`, when its handler ends in whatever way.
    unfoldable pub handler_done : Server T → Bytes → Server T
    handler_done s addr = release_conn s addr
