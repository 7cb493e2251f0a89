-- ===== src/Client/Worker/Examples.antt =====
-- A client whose connection fails, and that dials another one.
use gunnel.Prelude.{◌<◌, ◌≡◌, ◌≢◌, ◌⊎◌, refl, arith, [], ◌∷◌, Bool, true, false, none, some, codes}
use gunnel.Go.Slices.{done, at, slice, be_bytes, slice_from, be_uint32}
use gunnel.Protocol.Register.{resp_unmarshal, byte_to_bool, bool_to_byte}
use gunnel.Protocol.Registration.{resp_message, resp_payload}
use gunnel.Protocol.Parsable.{unmarshal}
use gunnel.Transport.Switch.{switch}
use gunnel.Client.Config.{BackendConfig}
use gunnel.Client.Register.{
  Reply, replied, register_backends, registry_backend_with_transport, read_answer, take_answer,
}
use gunnel.Client.Shared.{AllAccepted, register_backends-AllAccepted}
use gunnel.Client.Worker.{
  Client, waits, accepts, crashed, is_needed, needs_reconnect, close_at, set_transport, dial,
  finds_open, fails, finds_closed, dials, started, Runs, start, next,
}
use gunnel.Client.Worker.Closing.{Closed}
use gunnel.Client.Worker.Leaks.{in_hand, Runs-accounted}
use gunnel.Client.Worker.Alive.{Runs-alive}

abbrev backend : BackendConfig
backend = record {
  host = codes "localhost";
  port = 3000;
  subdomain = [];
  protocol = codes "http";
  allowed_paths = [];
}

abbrev fresh : Client Bool
fresh = started switch false (backend ∷ [])

abbrev failed : Client Bool
failed = close_at switch fresh 0

abbrev wanting : Client Bool
wanting = record failed { reconnecter = is_needed }

abbrev dialling : Client Bool
dialling = dial switch wanting false

dialling_run : Runs switch false (backend ∷ []) dialling
unfolding started needs_reconnect close_at set_transport
dialling_run =
    next
      (next (next start (fails fresh (record { transp = 0; closed = false }) refl))
        (finds_closed failed refl refl))
      (dials wanting false refl)

dialling_count : 0 < dialling.count
unfolding dial set_transport close_at started
dialling_count = omega arith

Runs-accounted_example :
    Closed switch dialling 0 ⊎ ((dialling.conn ≡ some 0) ⊎ (in_hand dialling.reconnecter ≡ some 0))
Runs-accounted_example =
    Runs-accounted switch false (backend ∷ []) dialling 0 dialling_run dialling_count

abbrev waiting : Client Bool
waiting = record fresh { worker = accepts }

waiting_run : Runs switch false (backend ∷ []) waiting
unfolding started needs_reconnect
waiting_run = next start (finds_open fresh refl refl)

not_stopped : waiting.stopped ≡ false
unfolding started
not_stopped = refl

not_cancelled : waiting.cancelled ≡ false
unfolding started
not_cancelled = refl

Runs-alive_example : waiting.worker ≢ crashed
Runs-alive_example =
    Runs-alive switch false (backend ∷ []) waiting waiting_run not_stopped not_cancelled

abbrev accepted_reply : Reply
accepted_reply =
    replied (resp_message (record { success = true; subdomain = codes "app"; message = [] }))

is_accepted :
    register_backends switch false (λ i. accepted_reply) 0 (backend ∷ [])
    ≡ done (false, record backend { subdomain = codes "app" } ∷ [])
unfolding register_backends registry_backend_with_transport read_answer unmarshal resp_unmarshal at
    resp_payload slice be_bytes slice_from be_uint32 take_answer byte_to_bool bool_to_byte
is_accepted = refl

register_backends-AllAccepted_example :
    (◌≡◌ {A = Bool} false false)
    × AllAccepted switch false
        (λ i. accepted_reply)
        0
        (backend ∷ [])
        (record backend { subdomain = codes "app" } ∷ [])
register_backends-AllAccepted_example =
    register_backends-AllAccepted switch false (λ i. accepted_reply) 0 (backend ∷ []) false
      (record backend { subdomain = codes "app" } ∷ []) is_accepted refl

abbrev alone : Client Bool
alone = record fresh { worker = waits; conn = none }
