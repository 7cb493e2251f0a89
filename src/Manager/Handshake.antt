-- ===== src/Manager/Handshake.antt =====
-- `tryProxyRequest` and `readClientMessagesAndProxy` of pkg/manager/http.go up to the point where the
-- request is written: a handler and a goroutine that meet on channels without a buffer.
use gunnel.Prelude.{
  ◌≡◌, ◌∙◌, refl, arith, [], Bool, true, false, Option, none, some, ◌==◌, if◌then◌else◌,
}
use gunnel.Go.Slices.{Outcome, done, ◌>>=◌}
use gunnel.Protocol.Enum.{message_end_stream, message_connection_ready, message_error}
use gunnel.Protocol.Message.{Message}
use gunnel.Protocol.Text.{ConnectionReady, ErrorMessage}
use gunnel.Protocol.Parsable.{unmarshal, ready_parsable, error_parsable}

-- What the goroutine does about one `Receive`: it sends on `readyChan`, sends an error on
-- `respChan`, or reads on.
pub data Signal : Type 0 where
  says_ready says_error reads_on : Signal

-- One round of `readClientMessagesAndProxy`; none is a `Receive` that fails.
unfoldable pub signal_of : Option Message → Outcome Signal
signal_of none = done says_error
signal_of (some msg) =
    if msg.type == message_end_stream
    then done says_error
    else if msg.type == message_connection_ready
    then (do r ← unmarshal {M = ConnectionReady} (record { subdomain = [] }) msg; done says_ready)
    else if msg.type == message_error
    then (do e ← unmarshal {M = ErrorMessage} (record { message = [] }) msg; done says_error)
    else done reads_on

-- The goroutine reads, waits for a receiver on one of the two channels, or has returned, and with
-- that closed `doneChan`.
pub data Reader : Type 0 where
  reading offers_ready offers_error returned : Reader

-- The handler is in its `select`, then waits for `doneChan` in the case it chose, and goes on.
pub data Handler : Type 0 where
  selecting saw_ready saw_error timed_out : Handler
  goes_on gives_up : Handler

pub record Handshake : Type 0 where
  pub handler : Handler
  pub reader : Reader

abbrev pub at : Handler → Reader → Handshake
at h r = record { handler = h; reader = r }

-- The goroutine after a round.
unfoldable pub after_signal : Signal → Reader
after_signal says_ready = offers_ready
after_signal says_error = offers_error
after_signal reads_on = reading

pub data Step : Handshake → Handshake → Type 0 where
  receives :
      (h : Handler) (received : Option Message) (s : Signal)
      → signal_of received ≡ done s
      → Step (at h reading) (at h (after_signal s))
  meets_ready : Step (at selecting offers_ready) (at saw_ready returned)
  meets_error : Step (at selecting offers_error) (at saw_error returned)
  times_out : (r : Reader) → Step (at selecting r) (at timed_out r)
  sees_done_ready : Step (at saw_ready returned) (at goes_on returned)
  sees_done_error : Step (at saw_error returned) (at gives_up returned)
  sees_done_late : Step (at timed_out returned) (at gives_up returned)

pub data Steps (a : Handshake) : Handshake → Type 0 where
  nothing : Steps a a
  more : {b c : Handshake} → Steps a b → Step b c → Steps a c

abbrev pub begun : Handshake
begun = at selecting reading

-- Whether a handler may have to wait for a goroutine that has not returned.
abbrev is_open : Handler → Bool
is_open selecting = true
is_open timed_out = true
is_open _ = false

abbrev is_running : Reader → Bool
is_running returned = false
is_running _ = true

-- The goroutine returns only by meeting the handler in its `select`.
IsCoupled : Handshake → Type 0
IsCoupled s = is_running s.reader ≡ is_open s.handler

is_running-after_signal : (s : Signal) → is_running (after_signal s) ≡ true
unfolding after_signal
is_running-after_signal says_ready = refl
is_running-after_signal says_error = refl
is_running-after_signal reads_on = refl

Step-IsCoupled : {a b : Handshake} → IsCoupled a → Step a b → IsCoupled b
unfolding IsCoupled
Step-IsCoupled c (receives h m s e) = is_running-after_signal s ∙ c
Step-IsCoupled c meets_ready = refl
Step-IsCoupled c meets_error = refl
Step-IsCoupled c (times_out r) = c
Step-IsCoupled c sees_done_ready = refl
Step-IsCoupled c sees_done_error = refl
Step-IsCoupled c sees_done_late = refl

Steps-IsCoupled : {a b : Handshake} → IsCoupled a → Steps a b → IsCoupled b
Steps-IsCoupled c nothing = c
Steps-IsCoupled c (more run step) = Step-IsCoupled (Steps-IsCoupled c run) step

stays_late :
    {b c : Handshake} → IsCoupled b → Step b c → b.handler ≡ timed_out → c.handler ≡ timed_out
unfolding IsCoupled
stays_late i (receives h m s e) l = l
stays_late i meets_ready l = absurd (ground (arith, l))
stays_late i meets_error l = absurd (ground (arith, l))
stays_late i (times_out r) l = refl
stays_late i sees_done_ready l = absurd (ground (arith, l))
stays_late i sees_done_error l = absurd (ground (arith, l))
stays_late i sees_done_late l = absurd (ground (arith, i))

begun-IsCoupled : IsCoupled begun
unfolding IsCoupled
begun-IsCoupled = refl

-- Once the five seconds have passed in the `select`, the handler waits for `doneChan` for ever: it
-- never comes back to its caller, whatever the client sends from then on.
pub Steps-timed_out :
    {a b : Handshake} → Steps begun a → a.handler ≡ timed_out → Steps a b → b.handler ≡ timed_out
Steps-timed_out run late nothing = late
Steps-timed_out run late (more later step) =
    stays_late (Steps-IsCoupled (Steps-IsCoupled begun-IsCoupled run) later) step
      (Steps-timed_out run late later)
