-- ===== src/Connection/Examples.antt =====
-- Connections over a transport that is open or closed, and nothing else.
use gunnel.Prelude.{◌+◌, ◌≡◌, ◌≤◌, ◌⊎◌, refl, Bool, true, false, Option, none, some, codes, length}
use gunnel.Protocol.Message.{Message}
use gunnel.Protocol.Text.{short_text}
use gunnel.Transport.Switch.{switch}
use gunnel.Connection.{
  Connection, channel_capacity, enqueue, count_sent, heartbeat_received, new, close_transport,
  disconnect, stream_fails, is_connected, close,
}
use gunnel.Connection.Lifecycle.{
  disconnects, closes, Steps, nothing, more, fails, IsSound, Steps-IsSound,
}
use gunnel.Connection.Heartbeats.{Beating, queued, start, beats, Beating-counted}

abbrev opened : Connection Bool
opened = new switch false 1

abbrev lost : Connection Bool
lost = disconnect switch opened 2

lost_run : Steps switch opened lost 0
lost_run = more nothing (disconnects opened 2)

lost_is_off : (is_connected switch lost).1 ≡ false
unfolding is_connected disconnect close_transport new
lost_is_off = refl

abbrev closed_too : Connection Bool
closed_too = close switch lost

closed_run : Steps switch lost closed_too 0
closed_run = more nothing (closes lost)

-- A read that failed before `disconnect`, and whose goroutine has not closed the transport.
failed_run : Steps switch opened (stream_fails switch opened) 1
failed_run = fails nothing

Steps-IsSound_example : IsSound switch (stream_fails switch opened) 1
Steps-IsSound_example = Steps-IsSound switch false 1 failed_run

abbrev answered : Option (Connection Bool)
answered = heartbeat_received opened 3

abbrev or_opened : Option (Connection Bool) → Connection Bool
or_opened none = opened
or_opened (some c) = c

abbrev after_beat : Connection Bool
after_beat = or_opened answered

is_answered : heartbeat_received opened 3 ≡ some after_beat
unfolding heartbeat_received enqueue count_sent new
is_answered = refl

one_beat : Beating switch false 1 after_beat 0
unfolding new
one_beat = beats 3 start is_answered

Beating-counted_example :
    ((true ≡ true)
      × (after_beat.heartbeat_stats.sent ≡ queued switch false 1 after_beat 0)
      × (after_beat.heartbeat_stats.received ≡ queued switch false 1 after_beat 0)
      × (length after_beat.send_channel ≤ channel_capacity))
    ⊎ ((true ≡ false)
        × (after_beat.heartbeat_stats.sent
            ≡ queued switch false 1 after_beat 0 + after_beat.heartbeat_stats.received)
        × (length after_beat.send_channel ≤ channel_capacity))
Beating-counted_example = Beating-counted switch false 1 one_beat

abbrev complaint : Message
complaint = record { type = 5; len = 4; payload = short_text (codes "bad") }
