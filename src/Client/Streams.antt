-- ===== src/Client/Streams.antt =====
-- pkg/client/stream.go: the messages of one stream that the server opened. `Io` is what the stream,
-- the parser of package net/http and the backend do with one request; the calls that have an effect
-- are listed in their order, also where they fail, but for a dial that fails.
use gunnel.Prelude.{
  ℕ, List, [], ◌∷◌, ◌++◌, Bool, not, Option, none, some, Bytes, ◌==◌, if◌then◌else◌,
}
use gunnel.Go.Slices.{Outcome, done, panicked, ◌>>=◌}
use gunnel.Protocol.Enum.{
  message_begin_stream, message_end_stream, message_disconnect, message_error,
}
use gunnel.Protocol.Message.{Message}
use gunnel.Protocol.Text.{BeginConnection, CloseConnection, ErrorMessage}
use gunnel.Protocol.Parsable.{unmarshal, begin_parsable, close_parsable, error_parsable}
use gunnel.Client.Config.{BackendConfig, is_path_allowed, get_backend}

-- Whether the ready message is sent, the path of the request that `http.ReadRequest` reads, whether
-- the backend answers the dialer, takes the request, gives a response, and whether the response is
-- written to the stream.
pub record Io : Type 0 where
  pub ready_sent : Bool
  pub request : Option Bytes
  pub dialled : Bool
  pub request_written : Bool
  pub response_read : Bool
  pub response_written : Bool

pub data Effect : Type 0 where
  sends_ready : Bytes → Effect
  sends_forbidden : Effect
  dials : BackendConfig → Effect
  writes_request : Effect
  closes_backend : Effect
  reads_response : Effect
  closes_body : Effect
  sends_response : Effect
  sends_unknown_type : Effect

-- Why a message is not handled, as the errors are wrapped.
pub data StreamError : Type 0 where
  no_backend : Bytes → StreamError
  ready_not_sent request_not_read not_dialled request_not_written : StreamError
  response_not_read response_not_written : StreamError
  unknown_type : ℕ → StreamError
  end_of_stream receive_failed : StreamError

-- The calls that it makes, and its error, if any.
abbrev pub Handled : Type 0
Handled = List Effect × Option StreamError

abbrev pub after : Effect → Handled → Handled
after e (es, err) = (e ∷ es, err)

-- The deferred close, and the rest of `handleBeginStream` once it has dialled.
unfoldable pub with_backend : Io → Handled
with_backend io = after writes_request (
    if not io.request_written
    then (closes_backend ∷ [], some request_not_written)
    else if not io.response_read
    then (closes_backend ∷ [], some response_not_read)
    else after reads_response (
        if not io.response_written
        then (sends_response ∷ closes_body ∷ closes_backend ∷ [], some response_not_written)
        else (sends_response ∷ closes_body ∷ closes_backend ∷ [], none)))

-- `handleBeginStream` for a request that was read.
unfoldable pub proxy_request : Io → BackendConfig → Bytes → Handled
proxy_request io backend path =
    if not (is_path_allowed backend path)
    then (sends_forbidden ∷ [], none)
    else if not io.dialled
    then ([], some not_dialled)
    else after (dials backend) (with_backend io)

-- `handleBeginStream` for a subdomain.
unfoldable pub begin_stream : Io → List (Bytes × Option BackendConfig) → Bytes → Handled
begin_stream io backends subdomain = elim (get_backend backends subdomain) [
  | none ↦ ([], some (no_backend subdomain))
  | some backend ↦ after (sends_ready subdomain) (
      if not io.ready_sent then ([], some ready_not_sent) else elim io.request [
        | none ↦ ([], some request_not_read)
        | some path ↦ proxy_request io backend path
      ])
]

unfoldable pub handle_begin_stream :
    Io → List (Bytes × Option BackendConfig) → Message → Outcome Handled
handle_begin_stream io backends msg = do
  begin ← unmarshal {M = BeginConnection} (record { subdomain = [] }) msg
  done (begin_stream io backends begin.subdomain)

-- `dispatchMessage`
unfoldable pub dispatch_message :
    Io → List (Bytes × Option BackendConfig) → Message → Outcome Handled
dispatch_message io backends msg =
    if msg.type == message_begin_stream
    then handle_begin_stream io backends msg
    else if msg.type == message_end_stream
    then done ([], none)
    else if msg.type == message_disconnect
    then (do c ← unmarshal {M = CloseConnection} (record { reason = [] }) msg; done ([], none))
    else if msg.type == message_error
    then (do e ← unmarshal {M = ErrorMessage} (record { message = [] }) msg; done ([], none))
    else done (sends_unknown_type ∷ [], some (unknown_type msg.type))

-- What one round of the loop of `handleStream` meets: the context is done, before the round or
-- while it waits for an error; 30 seconds pass; `Receive` fails; or a message arrives.
pub data Event : Type 0 where
  cancelled idle ends breaks : Event
  arrives : Message → Io → Event

-- What a handler whose panic is recovered leaves behind: the stream is closed, with no error.
unfoldable pub handle_stream : List (Bytes × Option BackendConfig) → List Event → Option Handled
handle_stream backends [] = none
handle_stream backends (event ∷ events) =
    let later = handle_stream backends events in
    elim event [
      | cancelled ↦ some ([], none)
      | idle ↦ some ([], none)
      | ends ↦ some ([], some end_of_stream)
      | breaks ↦ some ([], some receive_failed)
      | arrives msg io ↦ elim (dispatch_message io backends msg) [
        | panicked ↦ some ([], none)
        | done (effects, some err) ↦ some (effects, some err)
        | done (effects, none) ↦ elim later [
          | none ↦ none
          | some (rest, err) ↦ some (effects ++ rest, err)
        ]
      ]
    ]
