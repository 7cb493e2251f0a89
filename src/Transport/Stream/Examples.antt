-- ===== src/Transport/Stream/Examples.antt =====
-- Streams with and without a name, and a message of three bytes.
use gunnel.Prelude.{◌+◌, ◌*◌, ◌≡◌, ◌⊎◌, ◌↔◌, refl, arith, [], ◌∷◌, ◌++◌, true, false, codes}
use gunnel.Go.Slices.{done}
use gunnel.Metrics.Prometheus.{zeroes}
use gunnel.Protocol.Message.{Message, write}
use gunnel.Protocol.Frames.{IsFramed}
use gunnel.Transport.Stream.{
  StreamClient, Shared, new_stream_handler, set_subdomain, send, receive, received, count_in,
}
use gunnel.Transport.Stream.Locks.{
  State, at, in_send, waits, middle, Step, IsFinished, IsDeadlocked, deadlock-Reachable,
  deadlock_iff,
}
use gunnel.Transport.Stream.Traffic.{takes_all, send-receive}

abbrev quiet : Shared
quiet = record { counters = zeroes; total_in = 0; total_out = 0 }

abbrev opened : StreamClient × Shared
opened = new_stream_handler 1 (codes "s") quiet

abbrev named : StreamClient × Shared
named = set_subdomain opened.0 opened.1 (codes "app")

abbrev stuck : State
stuck = at (record middle { writer_waits = true }) in_send waits

deadlock_iff_example :
    (¬ ((st' : State) × Step stuck st')) ↔ (IsFinished stuck ⊎ IsDeadlocked stuck)
deadlock_iff_example = deadlock_iff stuck deadlock-Reachable

abbrev note : Message
note = record { type = 4; len = 3; payload = codes "abc" }

note-IsFramed : IsFramed note
note-IsFramed = record { type_byte = omega arith; counted = refl; fits = omega arith }

opened_is_open : opened.0.is_open ≡ true
unfolding new_stream_handler
opened_is_open = refl

send-receive_example :
    ((send takes_all 2 opened.0 opened.1 note).1 ≡ true)
    × ((send takes_all 2 opened.0 opened.1 note).0.0.metrics_info.bytes_sent
        ≡ opened.0.metrics_info.bytes_sent + 2 * (5 + 3))
    × ((send takes_all 2 opened.0 opened.1 note).0.1.total_out ≡ opened.1.total_out + 2 * (5 + 3))
    × (receive false 3 opened.0 quiet (write note ++ 9 ∷ [])
        ≡ done (count_in 3 (5 + 3) opened.0 quiet, received note (9 ∷ [])))
send-receive_example =
    send-receive 2 3 opened.0 opened.0 opened.1 quiet note (9 ∷ []) opened_is_open opened_is_open
      note-IsFramed
