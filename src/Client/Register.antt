-- ===== src/Client/Register.antt =====
-- The registration of pkg/client/client.go. What the root stream answers to a registration is a
-- parameter, as QUIC and the server stand behind it; a backend's configuration is not nil, as
-- `validate` sees to.
use gunnel.Prelude.{
  ℕ, ◌+◌, List, [], ◌∷◌, Bool, true, false, not, Option, none, some, Bytes, ◌==◌, if◌then◌else◌,
}
use gunnel.Go.Slices.{Outcome, done, ◌>>=◌}
use gunnel.Protocol.Enum.{message_error, message_connection_register_resp}
use gunnel.Protocol.Message.{Message}
use gunnel.Protocol.Text.{ErrorMessage}
use gunnel.Protocol.Register.{ConnectionRegister, ConnectionRegisterResp}
use gunnel.Protocol.Parsable.{unmarshal, error_parsable, resp_parsable}
use gunnel.Transport.{Transport}
use gunnel.Connection.{Connection, new, close}
use gunnel.Client.Config.{BackendConfig}

-- What becomes of `Send` of a registration and the `Receive` after it.
pub data Reply : Type 0 where
  send_fails receive_fails : Reply
  replied : Message → Reply

-- The message that a backend is registered with.
unfoldable pub registration_of : BackendConfig → Bytes → ConnectionRegister
registration_of b token = record {
  subdomain = b.subdomain;
  host = b.host;
  port = b.port;
  protocol = b.protocol;
  token = token;
}

abbrev pub blank_resp : ConnectionRegisterResp
blank_resp = record { success = false; subdomain = []; message = [] }

-- A transport and a backend after a registration, and whether it returned no error.
abbrev pub Registered : Type 0 → Type 0
Registered T = T × (BackendConfig × Bool)

module _ {T S : Type 0} (ops : Transport T S) where
  unfoldable pub fail_registration : T → BackendConfig → Registered T
  fail_registration t b = (ops.close t, (b, false))

  unfoldable pub take_answer : T → BackendConfig → ConnectionRegisterResp → Registered T
  take_answer t b resp =
      if not resp.success
      then fail_registration t b
      else (t, (record b { subdomain = resp.subdomain }, true))

  unfoldable pub read_answer : T → BackendConfig → Message → Outcome (Registered T)
  read_answer t b msg =
      if msg.type == message_error
      then (do
        e ← unmarshal {M = ErrorMessage} (record { message = [] }) msg
        done (fail_registration t b))
      else if not (msg.type == message_connection_register_resp)
      then done (fail_registration t b)
      else (do resp ← unmarshal blank_resp msg; done (take_answer t b resp))

  -- `registryBackendWithTransport`
  unfoldable pub registry_backend_with_transport :
      T → BackendConfig → Reply → Outcome (Registered T)
  registry_backend_with_transport t b send_fails = done (fail_registration t b)
  registry_backend_with_transport t b receive_fails = done (fail_registration t b)
  registry_backend_with_transport t b (replied msg) = read_answer t b msg

  -- The loop over the backends, where an error is logged only; `replies i` answers the `i`th.
  unfoldable pub register_backends :
      T → (ℕ → Reply) → ℕ → List BackendConfig → Outcome (T × List BackendConfig)
  register_backends t replies i [] = done (t, [])
  register_backends t replies i (b ∷ bs) = do
    (t', (b', ok)) ← registry_backend_with_transport t b (replies i)
    (t'', bs') ← register_backends t' replies (i + 1) bs
    done (t'', b' ∷ bs')

  unfoldable pub wrap_if_open :
      ℕ → T × List BackendConfig → T × (List BackendConfig × Option (Connection T))
  wrap_if_open now (t, bs) = (t, (bs, if ops.is_closed t then none else some (new ops t now)))

  -- `register` on a transport that is not nil, with the new `connWrapper`.
  unfoldable pub register :
      T
      → (ℕ → Reply)
      → ℕ
      → List BackendConfig
      → Outcome (T × (List BackendConfig × Option (Connection T)))
  register t replies now bs =
      if ops.is_closed t
      then done (t, (bs, none))
      else (do r ← register_backends t replies 0 bs; done (wrap_if_open now r))

  -- `registerWithTransport` with the old `connWrapper`, which it closes, and the new one.
  unfoldable pub register_with_transport :
      T
      → (ℕ → Reply)
      → ℕ
      → List BackendConfig
      → Option (Connection T)
      → Outcome (Option (Connection T) × (List BackendConfig × Connection T))
  register_with_transport t replies now bs old = do
    (t', bs') ← register_backends t replies 0 bs
    done (elim old [ none ↦ none | some c ↦ some (close ops c) ], (bs', new ops t' now))
