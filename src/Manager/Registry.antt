-- ===== src/Manager/Registry.antt =====
-- `Manager` of pkg/manager/manager.go and the registration of pkg/manager/registry.go. The map holds
-- pointers to connections: here the address of one in a store, so that an operation on a connection
-- shows wherever it is registered. Each operation is one step, as that of a `sync.Map` is.
use gunnel.Prelude.{
  ℕ, [], Bool, true, false, not, Option, none, some, Bytes, codes, str_eq, ◌==◌, length,
  if◌then◌else◌,
}
use gunnel.Prelude.Maps.{Map, put, remove}
use gunnel.Go.Slices.{Outcome, done, ◌>>=◌}
use gunnel.Protocol.Message.{Message}
use gunnel.Protocol.Register.{ConnectionRegister}
use gunnel.Protocol.Parsable.{unmarshal, register_parsable}
use gunnel.Transport.{Transport}
use gunnel.Connection.{Connection, register_resp, send, is_connected, close, acquire, release}

-- `conns` is the store of connections.
pub record Manager (T : Type 0) : Type 0 where
  pub conns : ℕ → Connection T
  pub subdomains : Map ℕ
  pub token_validator : Option (Bytes → Bool)

pub data AcquireError : Type 0 where
  err_no_connection : AcquireError
  err_subdomain_not_found : AcquireError

pub data Acquired (S : Type 0) : Type 0 where
  acquired : S → Acquired S
  refused : AcquireError → Acquired S

unfoldable pub stream_or_error : {S : Type 0} → Option S → Acquired S
stream_or_error none = refused err_no_connection
stream_or_error (some s) = acquired s

-- What `handleStreamWithRegistration` puts into the registration channel.
pub record RegistrationResult : Type 0 where
  pub subdomain : Bytes
  pub success : Bool

abbrev pub gunnel_subdomain : Bytes
gunnel_subdomain = codes "gunnel"

-- A registration's subdomain.
unfoldable pub subdomain_or_default : Bytes → Bytes
subdomain_or_default s = if length s == 0 then codes "default" else s

module _ {T : Type 0} where
  unfoldable pub set_conn : Manager T → ℕ → Connection T → Manager T
  set_conn m id c = record m { conns = λ j. if j == id then c else m.conns j }

  -- `subdomains.Store`
  unfoldable pub store : Manager T → Bytes → ℕ → Manager T
  store m subdomain id = record m { subdomains = put m.subdomains subdomain id }

  -- `IsAuthorized`
  unfoldable pub is_authorized : Manager T → Bytes → Bool
  is_authorized m token = elim m.token_validator [ none ↦ true | some valid ↦ valid token ]

  unfoldable pub set_token_validator : Manager T → (Bytes → Bool) → Manager T
  set_token_validator m validator = record m { token_validator = some validator }

  unfoldable pub get_client : Manager T → Bytes → Option ℕ
  get_client m subdomain = m.subdomains subdomain

  unfoldable pub remove_client : Manager T → Bytes → Manager T
  remove_client m subdomain = record m { subdomains = remove m.subdomains subdomain }

  -- The connection at `id` with its answer in the queue, if there was room.
  unfoldable pub answer_with :
      Manager T
      → ℕ
      → Option (Connection T)
      → RegistrationResult
      → Option (Manager T × RegistrationResult)
  answer_with m id none result = none
  answer_with m id (some c) result = some (set_conn m id c, result)

  module _ {S : Type 0} (ops : Transport T S) where
    -- `Connected` of the connection at `id`.
    unfoldable pub conn_connected : Manager T → ℕ → Manager T × Bool
    conn_connected m id = let (c, on) = is_connected ops (m.conns id) in (set_conn m id c, on)

    unfoldable pub close_conn : Manager T → ℕ → Manager T
    close_conn m id = set_conn m id (close ops (m.conns id))

    -- `addClient`
    unfoldable pub add_client : Manager T → Bytes → ℕ → Manager T
    add_client m subdomain id = elim (get_client m subdomain) [
      | none ↦ store m subdomain id
      | some old ↦
          let (m', on) = conn_connected m old in
          if not on
          then store m' subdomain id
          else if not (old == id)
          then store (close_conn m' old) subdomain id
          else m'
    ]

    -- `HasKnownSubdomain`
    unfoldable pub has_known_subdomain : Manager T → Bytes → Manager T × Bool
    has_known_subdomain m subdomain =
        if str_eq subdomain gunnel_subdomain
        then (m, true)
        else elim (get_client m subdomain) [ none ↦ (m, false) | some id ↦ conn_connected m id ]

    -- `Acquire`, less the subdomain that it sets for the stream's metrics.
    unfoldable pub acquire_stream : Manager T → ℕ → Bytes → Manager T × Acquired S
    acquire_stream m now subdomain = elim (get_client m subdomain) [
      | none ↦ (m, refused err_subdomain_not_found)
      | some id ↦
          let (c, stream) = acquire ops (m.conns id) now in
          (set_conn m id c, stream_or_error stream)
    ]

    -- `Release`
    unfoldable pub release_stream : Manager T → ℕ → Bytes → S → Manager T
    release_stream m now subdomain stream = elim (get_client m subdomain) [
      | none ↦ m
      | some id ↦ set_conn m id (release ops (m.conns id) now stream)
    ]

    -- The writes of `handleStreamWithRegistration` for a registration from the connection at `id`;
    -- none while the queue of the answer is full.
    unfoldable pub register_client :
        Manager T → ℕ → ConnectionRegister → Option (Manager T × RegistrationResult)
    register_client m id reg =
        let subdomain = subdomain_or_default reg.subdomain in
        let can_accept = is_authorized m reg.token in
        let reason = if can_accept then codes "success" else codes "unauthorized" in
        let m' = if can_accept then add_client m subdomain id else m in
        let answer =
          register_resp
            (record { success = can_accept; subdomain = subdomain; message = reason }) in
        answer_with m' id (send (m'.conns id) answer)
          (record { subdomain = subdomain; success = can_accept })

    -- `handleStreamWithRegistration`
    unfoldable pub handle_stream_with_registration :
        Manager T → ℕ → Message → Outcome (Option (Manager T × RegistrationResult))
    handle_stream_with_registration m id msg = do
      reg ←
          unmarshal (record { subdomain = []; host = []; port = 0; protocol = []; token = [] }) msg
      done (register_client m id reg)

    -- `HandleConnection`, when the context of the connection's transport is done.
    unfoldable pub connection_done : Manager T → ℕ → Option Bytes → Manager T
    connection_done m id registered =
        let m' = close_conn m id in
        elim registered [
          | none ↦ m'
          | some subdomain ↦ if length subdomain == 0 then m' else remove_client m' subdomain
        ]
