-- ===== src/Client/Examples.antt =====
-- Backends, one with a prefix among its allowed paths, and a manager that takes every client in.
use gunnel.Prelude.{
  ◌≡◌, ◌⊎◌, refl, List, [], ◌∷◌, Bool, true, false, Option, none, some, Bytes, codes, str_eq,
}
use gunnel.Prelude.Maps.{empty}
use gunnel.Go.Slices.{at, slice, slice_from, be_uint32}
use gunnel.Go.Strings.{has_suffix, starts_with, drop_last}
use gunnel.Protocol.Message.{Message}
use gunnel.Protocol.Text.{begin_unmarshal, read_long}
use gunnel.Protocol.Register.{ConnectionRegister, ConnectionRegisterResp}
use gunnel.Protocol.Parsable.{unmarshal}
use gunnel.Protocol.Registration.{arrived}
use gunnel.Transport.Switch.{switch}
use gunnel.Connection.{new}
use gunnel.Manager.Registry.{Manager, RegistrationResult, register_client}
use gunnel.Client.Config.{
  BackendConfig, ok, path_matches, any_matches, is_path_allowed, validate_backend, get_backend,
}
use gunnel.Client.Register.{registration_of}
use gunnel.Client.Registered.{answer_of}
use gunnel.Client.Streams.{
  Io, Handled, with_backend, proxy_request, begin_stream, handle_begin_stream, dispatch_message,
  idle, arrives, handle_stream,
}
use gunnel.Client.Handling.{
  dialled_of, dial_count, close_count, begin_stream-dials, handle_stream-Balanced,
}

abbrev backend : BackendConfig
backend = record {
  host = [];
  port = 3000;
  subdomain = codes "app";
  protocol = [];
  allowed_paths = codes "/api/*" ∷ codes "/" ∷ [];
}

abbrev completed : BackendConfig
completed = record backend { host = codes "localhost"; protocol = codes "http" }

is_completed : validate_backend (some backend) ≡ ok completed
unfolding validate_backend
is_completed = refl

abbrev fresh_manager : Manager Bool
fresh_manager = record {
  conns = λ id. new switch false 1;
  subdomains = empty;
  token_validator = none;
}

abbrev sent : ConnectionRegister
sent = arrived (registration_of completed [])

abbrev registered : Option (Manager Bool × RegistrationResult)
registered = register_client switch fresh_manager 3 sent

abbrev or_fresh : Option (Manager Bool × RegistrationResult) → Manager Bool × RegistrationResult
or_fresh none = (fresh_manager, record { subdomain = []; success = false })
or_fresh (some r) = r

abbrev answer : ConnectionRegisterResp
answer = answer_of fresh_manager sent

abbrev all_well : Io
all_well = record {
  ready_sent = true;
  request = some (codes "/api/v1");
  dialled = true;
  request_written = true;
  response_read = true;
  response_written = false;
}

abbrev one_backend : List (Bytes × Option BackendConfig)
one_backend = (codes "web", some completed) ∷ []

begin_stream-dials_example :
    (dialled_of (begin_stream all_well one_backend (codes "app")).0 ≡ [])
    ⊎ ((b : BackendConfig) × (path : Bytes) × (get_backend one_backend (codes "app") ≡ some b)
        × (true ≡ true)
        × (some (codes "/api/v1") ≡ some path)
        × (is_path_allowed b path ≡ true)
        × (dialled_of (begin_stream all_well one_backend (codes "app")).0 ≡ b ∷ []))
begin_stream-dials_example = begin_stream-dials all_well one_backend (codes "app")

abbrev beginning : Message
beginning = record { type = 6; len = 7; payload = 0 ∷ 0 ∷ 0 ∷ 3 ∷ codes "app" }

abbrev run_of_stream : Option Handled
run_of_stream = handle_stream one_backend (arrives beginning all_well ∷ idle ∷ [])

abbrev or_quiet : Option Handled → Handled
or_quiet none = ([], none)
or_quiet (some h) = h

handle_stream-run : run_of_stream ≡ some (or_quiet run_of_stream)
unfolding handle_stream dispatch_message handle_begin_stream begin_stream proxy_request with_backend
    unmarshal begin_unmarshal read_long at slice slice_from be_uint32 get_backend is_path_allowed
    any_matches path_matches has_suffix starts_with drop_last str_eq
handle_stream-run = refl

handle_stream-Balanced_example :
    dial_count (or_quiet run_of_stream).0 ≡ close_count (or_quiet run_of_stream).0
handle_stream-Balanced_example =
    handle_stream-Balanced one_backend (arrives beginning all_well ∷ idle ∷ [])
      (or_quiet run_of_stream).0 (or_quiet run_of_stream).1 handle_stream-run
