-- ===== src/Client/Config.antt =====
-- pkg/client/config.go, less the reading of the file, and `getBackend` of pkg/client/client.go. The
-- backends are a map that the source iterates over in any order; here a list of names with backends.
use gunnel.Prelude.{
  ℕ, List, [], ◌∷◌, Bool, true, false, ◌&&◌, not, Option, none, some, Bytes, codes, str_eq, ◌==◌,
  length, if◌then◌else◌,
}
use gunnel.Go.Strings.{has_suffix, starts_with, drop_last}
use gunnel.Protocol.Enum.{Protocol, http, valid}

pub record BackendConfig : Type 0 where
  pub host : Bytes
  pub port : ℕ  -- uint32
  pub subdomain : Bytes
  pub protocol : Protocol
  pub allowed_paths : List Bytes

-- `none` is a nil pointer.
pub record Config : Type 0 where
  pub server_addr : Bytes
  pub backend : List (Bytes × Option BackendConfig)

-- The errors of `validate`, that of a backend with its name.
pub data ConfigError : Type 0 where
  is_nil port_required subdomain_required : ConfigError
  protocol_invalid : Protocol → ConfigError
  server_addr_required backend_required : ConfigError
  backend_error : Bytes → ConfigError → ConfigError

pub data Checked (A : Type 0) : Type 0 where
  ok : A → Checked A
  error : ConfigError → Checked A

-- One entry of the list of allowed paths against a path.
unfoldable pub path_matches : Bytes → Bytes → Bool
path_matches path allowed =
    if has_suffix allowed b'*' then starts_with path (drop_last allowed) else str_eq path allowed

unfoldable pub any_matches : Bytes → List Bytes → Bool
any_matches path [] = false
any_matches path (allowed ∷ rest) =
    let later = any_matches path rest in if path_matches path allowed then true else later

-- `IsPathAllowed`
unfoldable pub is_path_allowed : BackendConfig → Bytes → Bool
is_path_allowed b path =
    if length b.allowed_paths == 0 then true else any_matches path b.allowed_paths

-- `BackendConfig.validate`, with the backend as it leaves it.
unfoldable pub validate_backend : Option BackendConfig → Checked BackendConfig
validate_backend none = error is_nil
validate_backend (some b) =
    let b' = if length b.host == 0 then record b { host = codes "localhost" } else b in
    if b'.port == 0
    then error port_required
    else if length b'.subdomain == 0
    then error subdomain_required
    else if not (length b'.protocol == 0) && not (valid b'.protocol)
    then error (protocol_invalid b'.protocol)
    else if length b'.protocol == 0
    then ok (record b' { protocol = http })
    else ok b'

-- The loop of `Config.validate`.
unfoldable pub validate_backends :
    List (Bytes × Option BackendConfig) → Checked (List (Bytes × Option BackendConfig))
validate_backends [] = ok []
validate_backends ((name, b) ∷ rest) = elim (validate_backend b) [
  | error e ↦ error (backend_error name e)
  | ok b' ↦ elim (validate_backends rest) [
    | error e ↦ error e
    | ok rest' ↦ ok ((name, some b') ∷ rest')
  ]
]

-- `Config.validate`
unfoldable pub validate : Config → Checked Config
validate c =
    if length c.server_addr == 0
    then error server_addr_required
    else if length c.backend == 0
    then error backend_required
    else elim (validate_backends c.backend) [
      | error e ↦ error e
      | ok backend ↦ ok (record c { backend = backend })
    ]

-- `getBackend`, on backends that are not nil, as they are once validated.
unfoldable pub get_backend : List (Bytes × Option BackendConfig) → Bytes → Option BackendConfig
get_backend [] subdomain = none
get_backend ((name, none) ∷ rest) subdomain = get_backend rest subdomain
get_backend ((name, some b) ∷ rest) subdomain =
    let later = get_backend rest subdomain in if str_eq b.subdomain subdomain then some b else later
