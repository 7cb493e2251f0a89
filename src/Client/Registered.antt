-- ===== src/Client/Registered.antt =====
-- What a registration does, and how it fits with the answer of the manager.
use gunnel.Prelude.{
  ℕ, ◌≡◌, ◌⊎◌, refl, sym, ap, subst, arith, [], Bool, true, false, ◌==◌, if◌then◌else◌, codes,
  Bool-cases, inl, inr,
}
use gunnel.Go.Slices.{Outcome, done, panicked, ◌>>=◌}
use gunnel.Protocol.Enum.{message_error, message_connection_register_resp}
use gunnel.Protocol.Message.{Message}
use gunnel.Protocol.Text.{ErrorMessage}
use gunnel.Protocol.Register.{ConnectionRegister, ConnectionRegisterResp}
use gunnel.Protocol.Parsable.{unmarshal, error_parsable, resp_parsable, register_parsable}
use gunnel.Transport.{Transport}
use gunnel.Connection.{Connection}
use gunnel.Client.Config.{BackendConfig}
use gunnel.Client.Register.{
  Reply, send_fails, receive_fails, replied, blank_resp, Registered, fail_registration, take_answer,
  read_answer, registry_backend_with_transport,
}
use gunnel.Manager.Registry.{Manager, is_authorized, add_client, subdomain_or_default}

module _ {T S : Type 0} (ops : Transport T S) where
  -- The server accepted the registration under the subdomain that the backend then has.
  pub record IsAccepted (t : T) (b : BackendConfig) (reply : Reply) (result : Registered T)
      : Type 0 where
    pub message : Message
    pub resp : ConnectionRegisterResp
    pub is_reply : reply ≡ replied message
    pub typed : message.type ≡ message_connection_register_resp
    pub decoded : unmarshal blank_resp message ≡ done resp
    pub success : resp.success ≡ true
    pub kept : result ≡ (t, (record b { subdomain = resp.subdomain }, true))

  -- Whatever else happened, the transport is closed and the backend is as it was.
  pub record IsRefused (t : T) (b : BackendConfig) (result : Registered T) : Type 0 where
    pub failed : result ≡ (ops.close t, (b, false))

  abbrev Explained : T → BackendConfig → Reply → Outcome (Registered T) → Type 0
  Explained t b reply panicked = Unit {0}
  Explained t b reply (done r) = IsAccepted t b reply r ⊎ IsRefused t b r

  error_refused :
      (t : T) (b : BackendConfig) (reply : Reply) (o : Outcome ErrorMessage)
      → Explained t b reply (do e ← o; done (fail_registration ops t b))
  unfolding fail_registration
  error_refused t b reply panicked = tt
  error_refused t b reply (done e) = inr (record { failed = refl })

  answer-Explained :
      (t : T) (b : BackendConfig) (msg : Message) (o : Outcome ConnectionRegisterResp)
      → msg.type ≡ message_connection_register_resp
      → unmarshal blank_resp msg ≡ o
      → Explained t b (replied msg) (do resp ← o; done (take_answer ops t b resp))
  unfolding take_answer fail_registration
  answer-Explained t b msg panicked y e = tt
  answer-Explained t b msg (done resp) y e = elim (Bool-cases resp.success) [
    | inl s ↦ rw s (
        inl (record {
          message = msg;
          resp = resp;
          is_reply = refl;
          typed = y;
          decoded = e;
          success = s;
          kept = refl;
        }))
    | inr s ↦ rw s (inr (record { failed = refl }))
  ]

  read_answer-Explained :
      (t : T) (b : BackendConfig) (msg : Message)
      → Explained t b (replied msg) (read_answer ops t b msg)
  unfolding read_answer
  read_answer-Explained t b msg = elim (Bool-cases (msg.type == message_error)) [
    | inl e ↦ rw e (error_refused t b (replied msg) (unmarshal (record { message = [] }) msg))
    | inr n ↦ elim (Bool-cases (msg.type == message_connection_register_resp)) [
      | inr m ↦ rw (n, m) (unfold fail_registration in inr (record { failed = refl }))
      | inl y ↦
          rw (n, y) (answer-Explained t b msg (unmarshal blank_resp msg) (ground (arith, y)) refl)
    ]
  ]

  all-Explained :
      (t : T) (b : BackendConfig) (reply : Reply)
      → Explained t b reply (registry_backend_with_transport ops t b reply)
  unfolding registry_backend_with_transport fail_registration
  all-Explained t b send_fails = inr (record { failed = refl })
  all-Explained t b receive_fails = inr (record { failed = refl })
  all-Explained t b (replied msg) = read_answer-Explained t b msg

  -- A registration that returns either got the answer of a server that accepts, and then returns no
  -- error, leaves the transport alone and gives the backend the subdomain of the answer; or, for an
  -- error while sending or receiving, an error message, a message of another type and an answer of a
  -- server that refuses alike, it returns an error, closes the transport and leaves the backend.
  pub registry_backend_with_transport_cases :
      (t : T) (b : BackendConfig) (reply : Reply) (r : Registered T)
      → registry_backend_with_transport ops t b reply ≡ done r
      → IsAccepted t b reply r ⊎ IsRefused t b r
  registry_backend_with_transport_cases t b reply r e =
      subst (Explained t b reply) e (all-Explained t b reply)

  pub closed_stays :
      (t t' : T) (b : BackendConfig) (reply : Reply) (r : BackendConfig × Bool)
      → registry_backend_with_transport ops t b reply ≡ done (t', r)
      → ops.is_closed t ≡ true
      → ops.is_closed t' ≡ true
  closed_stays t t' b reply r e c =
      elim (registry_backend_with_transport_cases t b reply (t', r) e) [
        | inl a ↦ subst (λ u. ops.is_closed u ≡ true) (sym (ap (λ x. x.0) a.kept)) c
        | inr f ↦
            subst (λ u. ops.is_closed u ≡ true) (sym (ap (λ x. x.0) f.failed))
              (ops.close-is_closed t)
      ]

abbrev pub blank_registration : ConnectionRegister
blank_registration = record { subdomain = []; host = []; port = 0; protocol = []; token = [] }

-- The answer of the manager to a registration.
abbrev pub answer_of : {U : Type 0} → Manager U → ConnectionRegister → ConnectionRegisterResp
answer_of m reg = record {
  success = is_authorized m reg.token;
  subdomain = subdomain_or_default reg.subdomain;
  message = if is_authorized m reg.token then codes "success" else codes "unauthorized";
}

module _ {U V : Type 0} (remote : Transport U V) where
  -- The manager after it may have added the client.
  abbrev pub added : Manager U → ℕ → ConnectionRegister → Manager U
  added m id reg =
      if is_authorized m reg.token
      then add_client remote m (subdomain_or_default reg.subdomain) id
      else m
