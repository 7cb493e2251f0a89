-- ===== src/Server/Serving.antt =====
-- The handlers that run on a server, against its limits, and the tokens that it takes.
use gunnel.Prelude.{
  ℕ, ◌<◌, ◌≡◌, ◌⊎◌, ◌↔◌, refl, arith, List, [], ◌∷◌, Bool, true, false, Option, none, some, Bytes,
  str_eq_iff, ◌==◌, length, inl, inr,
}
use gunnel.Connection.{Connection}
use gunnel.Manager.Registry.{is_authorized, set_token_validator}
use gunnel.Server.Limiter.{Limiter, ip_of, cleanup_old_rate_entries}
use gunnel.Server.Limiter.Ledger.{count, erase}
use gunnel.Server.Limiter.Admission.{Runs}
use gunnel.Server.{
  ConnectionLimits, Config, Server, manager_of, new_server, Verdict, rejected, dropped, served,
  handle_quic_conn, handler_done,
}

-- The hosts of the running handlers after a verdict on an address.
abbrev pub hosts_after : Verdict → Bytes → List Bytes → List Bytes
hosts_after rejected ip hosts = hosts
hosts_after dropped ip hosts = hosts
hosts_after served ip hosts = ip ∷ hosts

module _ {T : Type 0} (split : Bytes → Option Bytes) (conns : ℕ → Connection T)
    (config : Config) where
  -- A server and the hosts of the connections whose handlers run.
  pub data Serves : Server T → List Bytes → Type 0 where
    starts : Serves (new_server conns config) []
    accepts :
        {s : Server T} {hosts : List Bytes} (now : ℕ) (addr : Bytes) (works : Bool)
        → Serves s hosts
        → Serves
            (handle_quic_conn split s now addr works).0
            (hosts_after (handle_quic_conn split s now addr works).1 (ip_of split addr) hosts)
    finishes :
        {s : Server T} {hosts : List Bytes} (addr : Bytes)
        → Serves s hosts
        → 0 < count (ip_of split addr) hosts
        → Serves (handler_done split s addr) (erase (ip_of split addr) hosts)
    tidies :
        {s : Server T} {hosts : List Bytes} {cl : Limiter} (now : ℕ)
        → Serves s hosts
        → s.conn_limiter ≡ some cl
        → Serves (record s { conn_limiter = some (cleanup_old_rate_entries cl now) }) hosts

  -- The limiter of the server and the handlers fit, for some limits.
  record IsLimited (l : ConnectionLimits) (s : Server T) (hosts : List Bytes) : Type 0 where
    limiter : Limiter
    held_by : s.conn_limiter ≡ some limiter
    runs :
        Runs split l.max_connections l.max_connections_per_ip l.connection_rate_limit limiter hosts

  module _ (l : ConnectionLimits) where
    abbrev clean_limiter : ℕ → Option Limiter → Option Limiter
    clean_limiter now none = none
    clean_limiter now (some cl) = some (cleanup_old_rate_entries cl now)

secret_set : (b : ℕ) (secret : Bytes) → (length (b ∷ secret) == 0) ≡ false
secret_set b secret = ground arith

manager_of-is_authorized :
    {T : Type 0} (conns : ℕ → Connection T) (secret token : Bytes)
    → (is_authorized (manager_of conns secret) token ≡ true) ↔ ((secret ≡ []) ⊎ (token ≡ secret))
unfolding manager_of is_authorized set_token_validator
manager_of-is_authorized conns [] token = ((λ h. inl refl), (λ h. refl))
manager_of-is_authorized conns (b ∷ secret) token =
    let (there, back) = str_eq_iff token (b ∷ secret) in
    (
      (λ h. inr (there (rw (secret_set b secret) at h))),
      (λ h.
          rw (secret_set b secret)
            (elim h [ inl e ↦ absurd (ground (arith, e)) | inr e ↦ back e ])),
    )

-- The manager of a new server takes exactly the token of the configuration, or any where that is
-- empty.
pub new_server-is_authorized :
    {T : Type 0} (conns : ℕ → Connection T) (config : Config) (token : Bytes)
    → (is_authorized (new_server conns config).conn_manager token ≡ true)
      ↔ ((config.token ≡ []) ⊎ (token ≡ config.token))
unfolding new_server
new_server-is_authorized conns config token = manager_of-is_authorized conns config.token token
