-- ===== src/Manager/Late.antt =====
-- A client that says it is ready after the handler has stopped waiting for that.
use gunnel.Prelude.{◌≡◌, refl, [], ◌∷◌, some}
use gunnel.Go.Slices.{done, slice, slice_from, be_uint32}
use gunnel.Protocol.Message.{Message}
use gunnel.Protocol.Text.{ready_unmarshal, read_long}
use gunnel.Protocol.Parsable.{unmarshal}
use gunnel.Manager.Handshake.{
  says_ready, signal_of, reading, after_signal, timed_out, Handshake, receives, times_out, Steps,
  nothing, more, begun, Steps-timed_out,
}

abbrev ready_message : Message
ready_message = record { type = 8; len = 4; payload = 0 ∷ 0 ∷ 0 ∷ 0 ∷ [] }

abbrev late : Handshake
late = record { handler = timed_out; reader = reading }

late_run : Steps begun late
late_run = more nothing (times_out reading)

abbrev stuck : Handshake
stuck = record { handler = timed_out; reader = after_signal says_ready }

ready_is_ready : signal_of (some ready_message) ≡ done says_ready
unfolding signal_of unmarshal ready_unmarshal read_long slice_from be_uint32 slice
ready_is_ready = refl

stuck_run : Steps late stuck
stuck_run = more nothing (receives timed_out (some ready_message) says_ready ready_is_ready)

Steps-timed_out_example : stuck.handler ≡ timed_out
Steps-timed_out_example = Steps-timed_out late_run refl stuck_run
