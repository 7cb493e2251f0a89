-- ===== src/Client/Handling.antt =====
-- What a client does for the requests of a stream, whatever goes wrong.
use gunnel.Prelude.{
  ℕ, suc, ◌+◌, ◌≡◌, ◌⊎◌, refl, subst, arith, List, [], ◌∷◌, ◌++◌, true, Option, none, some, Bytes,
  ◌==◌, Bool-cases, Option-cases, inl, inr,
}
use gunnel.Go.Slices.{Outcome, done, panicked, ◌>>=◌}
use gunnel.Protocol.Enum.{
  message_begin_stream, message_end_stream, message_disconnect, message_error,
}
use gunnel.Protocol.Message.{Message}
use gunnel.Protocol.Text.{BeginConnection, CloseConnection, ErrorMessage}
use gunnel.Protocol.Parsable.{unmarshal, begin_parsable, close_parsable, error_parsable}
use gunnel.Client.Config.{BackendConfig, is_path_allowed, get_backend}
use gunnel.Client.Streams.{
  Io, Effect, sends_ready, sends_forbidden, dials, writes_request, closes_backend, reads_response,
  closes_body, sends_response, sends_unknown_type, StreamError, Handled, with_backend,
  proxy_request, begin_stream, handle_begin_stream, dispatch_message, Event, cancelled, idle, ends,
  breaks, arrives, handle_stream,
}

-- The backends that are dialled, and how many calls close one.
unfoldable pub dialled_of : List Effect → List BackendConfig
dialled_of [] = []
dialled_of (dials b ∷ es) = b ∷ dialled_of es
dialled_of (_ ∷ es) = dialled_of es

unfoldable pub dial_count : List Effect → ℕ
dial_count [] = 0
dial_count (dials b ∷ es) = suc (dial_count es)
dial_count (_ ∷ es) = dial_count es

unfoldable pub close_count : List Effect → ℕ
close_count [] = 0
close_count (closes_backend ∷ es) = suc (close_count es)
close_count (_ ∷ es) = close_count es

dial_count-append : (a b : List Effect) → dial_count (a ++ b) ≡ dial_count a + dial_count b
unfolding dial_count
dial_count-append [] b = omega arith
dial_count-append (dials c ∷ a) b = omega (arith, dial_count-append a b)
dial_count-append (sends_ready s ∷ a) b = dial_count-append a b
dial_count-append (sends_forbidden ∷ a) b = dial_count-append a b
dial_count-append (writes_request ∷ a) b = dial_count-append a b
dial_count-append (closes_backend ∷ a) b = dial_count-append a b
dial_count-append (reads_response ∷ a) b = dial_count-append a b
dial_count-append (closes_body ∷ a) b = dial_count-append a b
dial_count-append (sends_response ∷ a) b = dial_count-append a b
dial_count-append (sends_unknown_type ∷ a) b = dial_count-append a b

close_count-append : (a b : List Effect) → close_count (a ++ b) ≡ close_count a + close_count b
unfolding close_count
close_count-append [] b = omega arith
close_count-append (closes_backend ∷ a) b = omega (arith, close_count-append a b)
close_count-append (dials c ∷ a) b = close_count-append a b
close_count-append (sends_ready s ∷ a) b = close_count-append a b
close_count-append (sends_forbidden ∷ a) b = close_count-append a b
close_count-append (writes_request ∷ a) b = close_count-append a b
close_count-append (reads_response ∷ a) b = close_count-append a b
close_count-append (closes_body ∷ a) b = close_count-append a b
close_count-append (sends_response ∷ a) b = close_count-append a b
close_count-append (sends_unknown_type ∷ a) b = close_count-append a b

-- As many backends are closed as are dialled.
abbrev Balanced : List Effect → Type 0
Balanced es = dial_count es ≡ close_count es

begin_stream-Balanced :
    (io : Io) (backends : List (Bytes × Option BackendConfig)) (sub : Bytes)
    → Balanced (begin_stream io backends sub).0
unfolding begin_stream proxy_request with_backend dial_count close_count
begin_stream-Balanced io backends sub = ground arith

-- A backend is dialled for a message that begins a stream only if it is the one of the subdomain,
-- the ready message was sent, a request was read and its path is allowed; and at most once.
pub begin_stream-dials :
    (io : Io) (backends : List (Bytes × Option BackendConfig)) (sub : Bytes)
    → (dialled_of (begin_stream io backends sub).0 ≡ [])
      ⊎ ((b : BackendConfig) × (path : Bytes) × (get_backend backends sub ≡ some b)
          × (io.ready_sent ≡ true)
          × (io.request ≡ some path)
          × (is_path_allowed b path ≡ true)
          × (dialled_of (begin_stream io backends sub).0 ≡ b ∷ []))
unfolding begin_stream proxy_request with_backend dialled_of
begin_stream-dials io backends sub = elim (Option-cases (get_backend backends sub)) [
  | inl e ↦ inl (ground (arith, e))
  | inr (b, e) ↦ elim (Option-cases io.request) [
    | inl q ↦ inl (ground (arith, e, q))
    | inr (path, q) ↦ elim (Bool-cases io.ready_sent) [
      | inr r ↦ inl (ground (arith, e, r))
      | inl r ↦ elim (Bool-cases (is_path_allowed b path)) [
        | inr a ↦ inl (ground (arith, e, q, r, a))
        | inl a ↦ elim (Bool-cases io.dialled) [
          | inr d ↦ inl (ground (arith, e, q, r, a, d))
          | inl d ↦ inr (b, path, e, r, q, a, ground (arith, e, q, r, a, d))
        ]
      ]
    ]
  ]
]

-- Of an outcome that is a result.
abbrev Every : Outcome Handled → Type 0
Every panicked = Unit {0}
Every (done h) = Balanced h.0

begin-Every :
    (io : Io) (backends : List (Bytes × Option BackendConfig)) (o : Outcome BeginConnection)
    → Every (do begin ← o; done (begin_stream io backends begin.subdomain))
begin-Every io backends panicked = tt
begin-Every io backends (done b) = begin_stream-Balanced io backends b.subdomain

quiet-Every : {A : Type 0} (o : Outcome A) → Every (do a ← o; done ([], none))
unfolding dial_count close_count
quiet-Every panicked = tt
quiet-Every (done a) = refl

dispatch-Every :
    (io : Io) (backends : List (Bytes × Option BackendConfig)) (msg : Message)
    → Every (dispatch_message io backends msg)
unfolding dispatch_message handle_begin_stream
dispatch-Every io backends msg = elim (Bool-cases (msg.type == message_begin_stream)) [
  | inl b ↦ rw b (begin-Every io backends (unmarshal (record { subdomain = [] }) msg))
  | inr b ↦ elim (Bool-cases (msg.type == message_end_stream)) [
    | inl e ↦ rw (b, e) (unfold dial_count close_count in refl)
    | inr e ↦ elim (Bool-cases (msg.type == message_disconnect)) [
      | inl d ↦
          rw (b, e, d) (quiet-Every (unmarshal {M = CloseConnection} (record { reason = [] }) msg))
      | inr d ↦ elim (Bool-cases (msg.type == message_error)) [
        | inl r ↦
            rw (b, e, d, r)
              (quiet-Every (unmarshal {M = ErrorMessage} (record { message = [] }) msg))
        | inr r ↦ rw (b, e, d, r) (unfold dial_count close_count in refl)
      ]
    ]
  ]
]

abbrev EveryEnd : Option Handled → Type 0
EveryEnd none = Unit {0}
EveryEnd (some h) = Balanced h.0

after_message :
    (o : Outcome Handled) (later : Option Handled)
    → Every o
    → EveryEnd later
    → EveryEnd (elim o [
      | panicked ↦ some ([], none)
      | done (effects, some err) ↦ some (effects, some err)
      | done (effects, none) ↦ elim later [
        | none ↦ none
        | some (rest, err) ↦ some (effects ++ rest, err)
      ]
    ])
after_message panicked later h l = unfold dial_count close_count in refl
after_message (done (es, some err)) later h l = h
after_message (done (es, none)) none h l = tt
after_message (done (es, none)) (some (rest, err)) h l =
    omega (arith, dial_count-append es rest, close_count-append es rest, h, l)

handle_stream-every :
    (backends : List (Bytes × Option BackendConfig)) (events : List Event)
    → EveryEnd (handle_stream backends events)
unfolding handle_stream
handle_stream-every backends [] = tt
handle_stream-every backends (cancelled ∷ events) = unfold dial_count close_count in refl
handle_stream-every backends (idle ∷ events) = unfold dial_count close_count in refl
handle_stream-every backends (ends ∷ events) = unfold dial_count close_count in refl
handle_stream-every backends (breaks ∷ events) = unfold dial_count close_count in refl
handle_stream-every backends (arrives msg io ∷ events) =
    after_message (dispatch_message io backends msg) (handle_stream backends events)
      (dispatch-Every io backends msg) (handle_stream-every backends events)

-- However a stream goes on and ends, by the context, the time, an error or a panic, every backend
-- that was dialled for it has been closed.
pub handle_stream-Balanced :
    (backends : List (Bytes × Option BackendConfig)) (events : List Event) (es : List Effect)
    (err : Option StreamError)
    → handle_stream backends events ≡ some (es, err)
    → dial_count es ≡ close_count es
handle_stream-Balanced backends events es err e =
    subst EveryEnd e (handle_stream-every backends events)
