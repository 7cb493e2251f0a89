-- ===== src/Transport/Stream.antt =====
-- pkg/transport/stream.go: one stream over a QUIC stream. Each call takes the time, and what the
-- QUIC stream answers, as arguments; a `StreamInfo` is a part of its stream, and of the collector's
-- state only the two totals are kept. Deadlines and logs are left out.
pub mod Gauge
pub mod Locks
pub mod Traffic
mod Examples
use gunnel.Prelude.{
  ℕ, ◌+◌, List, [], ◌∷◌, Bool, true, false, ◌&&◌, not, Bytes, ◌==◌, length, if◌then◌else◌, str_eq,
}
use gunnel.Go.Slices.{Outcome, done, panicked}
use gunnel.Metrics.{StreamInfo, fresh_info}
use gunnel.Metrics.Prometheus.{
  Counters, inc_active_stream, dec_active_stream, record_stream_connection, record_bytes_received,
  record_bytes_sent,
}
use gunnel.Protocol.Message.{Message, write, ReadError, Reading, got, failed, read_message}

-- `stream` is nil where `is_open` is false.
pub record StreamClient : Type 0 where
  pub id : Bytes
  pub is_open : Bool
  pub metrics_info : StreamInfo

-- The counters that all streams share.
pub record Shared : Type 0 where
  pub counters : Counters
  pub total_in : ℕ
  pub total_out : ℕ

-- `newStreamHandler`, for a stream that is not nil.
unfoldable pub new_stream_handler : ℕ → Bytes → Shared → StreamClient × Shared
new_stream_handler now id w = (
  record { id = id; is_open = true; metrics_info = fresh_info now id },
  record w { counters = inc_active_stream w.counters [] },
)

unfoldable pub mark_inactive : ℕ → StreamClient → StreamClient
mark_inactive now s = record s {
  metrics_info = record s.metrics_info { is_active = false; last_active = now };
}

-- `Close`, and whether it returned no error; `fails` says whether closing the QUIC stream does.
unfoldable pub close : Bool → ℕ → StreamClient → Shared → (StreamClient × Shared) × Bool
close fails now s w =
    let w' = record w { counters = dec_active_stream w.counters s.metrics_info.subdomain } in
    if not s.is_open
    then ((s, w), true)
    else if fails
    then ((mark_inactive now s, w'), false)
    else ((record (mark_inactive now s) { is_open = false }, w'), true)

-- A stream that `cleanupClosedStreams` has closed: that sets the QUIC stream to nil and leaves the
-- gauge alone.
abbrev pub swept : StreamClient → StreamClient
swept s = record s { is_open = false }

-- `CloseWrite`
unfoldable pub close_write : Bool → StreamClient → Bool
close_write fails s = if not s.is_open then true else not fails

unfoldable pub set_id : StreamClient → Bytes → StreamClient
set_id s id = record s { id = id }

-- `SetSubdomain`
unfoldable pub set_subdomain : StreamClient → Shared → Bytes → StreamClient × Shared
set_subdomain s w subdomain =
    let old_subdomain = s.metrics_info.subdomain in
    let s' = record s { metrics_info = record s.metrics_info { subdomain = subdomain } } in
    if not (str_eq old_subdomain subdomain) && not (length subdomain == 0)
    then (
      s',
      record w {
        counters =
            record_stream_connection
              (inc_active_stream (dec_active_stream w.counters old_subdomain) subdomain) subdomain;
      },
    )
    else (s', w)

-- `isValid`, where `ended` says whether the QUIC stream's context is done.
unfoldable pub is_valid : Bool → StreamClient → Bool
is_valid ended s = s.is_open && not ended

-- `markIdle`
unfoldable pub mark_idle : ℕ → StreamClient → StreamClient
mark_idle now s = mark_inactive now s

-- `UpdateIn` of the stream's information, with `RecordBytesReceived`.
unfoldable pub count_in : ℕ → ℕ → StreamClient → Shared → StreamClient × Shared
count_in now n s w = (
  record s {
    metrics_info = record s.metrics_info {
      bytes_received = s.metrics_info.bytes_received + n;
      last_active = now;
    };
  },
  record w {
    counters = record_bytes_received w.counters s.metrics_info.subdomain n;
    total_in = w.total_in + n;
  },
)

-- `UpdateOut` of the stream's information, with `RecordBytesSent`.
unfoldable pub count_out : ℕ → ℕ → StreamClient → Shared → StreamClient × Shared
count_out now n s w = (
  record s {
    metrics_info = record s.metrics_info {
      bytes_sent = s.metrics_info.bytes_sent + n;
      last_active = now;
    };
  },
  record w {
    counters = record_bytes_sent w.counters s.metrics_info.subdomain n;
    total_out = w.total_out + n;
  },
)

-- What a call on the QUIC stream gives: it refuses the deadline, or it moves `n` bytes and may fail.
pub data Moved : Type 0 where
  no_deadline : Moved
  moved : ℕ → Bool → Moved

-- `Read` and `Write`: the bytes moved, and whether without an error.
unfoldable pub read : Moved → ℕ → StreamClient → Shared → (StreamClient × Shared) × (ℕ × Bool)
read result now s w = if not s.is_open then ((s, w), (0, false)) else elim result [
  | no_deadline ↦ ((s, w), (0, false))
  | moved n ok ↦ (count_in now n s w, (n, ok))
]

unfoldable pub write_bytes :
    Moved → ℕ → StreamClient → Shared → (StreamClient × Shared) × (ℕ × Bool)
write_bytes result now s w = if not s.is_open then ((s, w), (0, false)) else elim result [
  | no_deadline ↦ ((s, w), (0, false))
  | moved n ok ↦ (count_out now n s w, (n, ok))
]

-- `Send` of a message that is marshalled: `Message.Write` hands its frame to `Write`, and `answer`
-- is what the QUIC stream does with it.
unfoldable pub send :
    (Bytes → Moved) → ℕ → StreamClient → Shared → Message → (StreamClient × Shared) × Bool
send answer now s w msg =
    let (after, (n, ok)) = write_bytes (answer (write msg)) now s w in
    if not s.is_open
    then ((s, w), false)
    else if not ok
    then (after, false)
    else (count_out now n after.0 after.1, true)

-- The results of `Receive`.
pub data Received : Type 0 where
  stream_closed : Received
  deadline_refused : Received
  read_failed : ReadError → Received
  received : Message → Bytes → Received

-- `Receive`, on a reader that still holds some bytes before the end of the stream.
unfoldable pub receive :
    Bool → ℕ → StreamClient → Shared → Bytes → Outcome ((StreamClient × Shared) × Received)
receive refused now s w r =
    if not s.is_open
    then done ((s, w), stream_closed)
    else if refused
    then done ((s, w), deadline_refused)
    else elim (read_message r) [
      | panicked ↦ panicked
      | done (failed n e) ↦ done ((s, w), read_failed e)
      | done (got n msg rest) ↦ done (count_in now n s w, received msg rest)
    ]
