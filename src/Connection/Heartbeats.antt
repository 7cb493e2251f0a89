-- ===== src/Connection/Heartbeats.antt =====
-- What a connection counts of its heartbeats, and what it does with the messages it handles itself.
use gunnel.Prelude.{
  ℕ, ◌+◌, ◌≡◌, ◌≤◌, ◌⊎◌, refl, ◌∙◌, ap, subst, arith, List, [], ◌∷◌, ◌++◌, Bool, true, false, not,
  Option, some, Bytes, length, length-append, length-take, take, ◌==◌, if◌then◌else◌, Bool-cases,
  inl, inr,
}
use gunnel.Go.Slices.{Outcome, done, byte}
use gunnel.Protocol.Enum.{message_error}
use gunnel.Protocol.Message.{Message}
use gunnel.Protocol.Text.{short_text, error_unmarshal}
use gunnel.Protocol.RoundTrip.{read_short-short_text}
use gunnel.Transport.{Transport}
use gunnel.Connection.{
  Connection, Outgoing, heartbeat, register, register_resp, beat, enqueue, dequeue, mark_active,
  count_sent, heartbeat_tick, send, heartbeat_received, new, disconnect, error_received,
  handle_message, channel_capacity,
}

-- One on a server or one on a client.
abbrev pub one_if : Bool → ℕ
one_if b = if b then 1 else 0

abbrev pub is_beat : Outgoing → Bool
is_beat (heartbeat h) = true
is_beat (register c) = false
is_beat (register_resp c) = false

-- The heartbeats in a queue.
unfoldable pub beats_in : List Outgoing → ℕ
beats_in [] = 0
beats_in (msg ∷ msgs) = one_if (is_beat msg) + beats_in msgs

beats_in-append : (a b : List Outgoing) → beats_in (a ++ b) ≡ beats_in a + beats_in b
unfolding beats_in
beats_in-append [] b = omega arith
beats_in-append (msg ∷ a) b = omega (arith, beats_in-append a b)

module _ {T : Type 0} where
  tick_beats :
      (c c' : Connection T)
      → heartbeat_tick c ≡ some c'
      → beats_in c'.send_channel ≡ beats_in c.send_channel + one_if c.heartbeat_emitter
  unfolding heartbeat_tick enqueue count_sent
  tick_beats c c' e =
      let one : beats_in (beat ∷ []) ≡ 1 = unfold beats_in in refl in
      ground (arith, e, one, beats_in-append c.send_channel (beat ∷ []))

  answer_beats :
      (c c' : Connection T) (now : ℕ)
      → heartbeat_received c now ≡ some c'
      → beats_in c'.send_channel ≡ beats_in c.send_channel + one_if (not c.heartbeat_emitter)
  unfolding heartbeat_received enqueue count_sent
  answer_beats c c' now e =
      let one : beats_in (beat ∷ []) ≡ 1 = unfold beats_in in refl in
      ground (arith, e, one, beats_in-append c.send_channel (beat ∷ []))

  send_beats :
      (c c' : Connection T) (msg : Outgoing)
      → is_beat msg ≡ false
      → send c msg ≡ some c'
      → beats_in c'.send_channel ≡ beats_in c.send_channel
  unfolding send enqueue
  send_beats c c' msg b e =
      let none_more : beats_in (msg ∷ []) ≡ 0 = unfold beats_in in rw b refl in
      ground (arith, e, none_more, beats_in-append c.send_channel (msg ∷ []))

  dequeue_beats :
      (c c' : Connection T) (msg : Outgoing)
      → dequeue c ≡ some (c', msg)
      → beats_in c.send_channel ≡ one_if (is_beat msg) + beats_in c'.send_channel
  unfolding dequeue beats_in
  dequeue_beats c c' msg e = ground (arith, e)

module _ {T S : Type 0} (ops : Transport T S) (transp : T) (start_time : ℕ) where
  -- A connection, and how many heartbeats `watchSend` has taken off its queue. The program sends
  -- heartbeats by the ticker and by the answers to heartbeats only.
  pub data Beating : Connection T → ℕ → Type 0 where
    start : Beating (new ops transp start_time) 0
    ticks :
        {c c' : Connection T} {taken : ℕ}
        → Beating c taken
        → heartbeat_tick c ≡ some c'
        → Beating c' taken
    beats :
        {c c' : Connection T} {taken : ℕ} (now : ℕ)
        → Beating c taken
        → heartbeat_received c now ≡ some c'
        → Beating c' taken
    sends :
        {c c' : Connection T} {taken : ℕ} (msg : Outgoing)
        → Beating c taken
        → is_beat msg ≡ false
        → send c msg ≡ some c'
        → Beating c' taken
    flushes :
        {c c' : Connection T} {taken : ℕ} (msg : Outgoing)
        → Beating c taken
        → dequeue c ≡ some (c', msg)
        → Beating c' (taken + one_if (is_beat msg))

  pub record IsCounted (c : Connection T) (queued : ℕ) : Type 0 where
    pub emitter : c.heartbeat_emitter ≡ not (ops.im_server transp)
    pub sent :
        c.heartbeat_stats.sent
        ≡ queued + (if ops.im_server transp then 0 else c.heartbeat_stats.received)
    pub received : queued ≡ c.heartbeat_stats.received ⊎ ops.im_server transp ≡ false
    pub room : length c.send_channel ≤ channel_capacity

  ticks-IsCounted :
      (c c' : Connection T) (queued : ℕ)
      → IsCounted c queued
      → heartbeat_tick c ≡ some c'
      → IsCounted c' (queued + one_if c.heartbeat_emitter)
  unfolding heartbeat_tick enqueue count_sent
  ticks-IsCounted c c' queued i e = record {
    emitter = ground (arith, i.emitter);
    sent = ground (arith, i.emitter, i.sent);
    received = ground (arith, i.emitter, i.received);
    room = ground (arith, i.room, length-append c.send_channel (beat ∷ []));
  }

  beats-IsCounted :
      (c c' : Connection T) (queued now : ℕ)
      → IsCounted c queued
      → heartbeat_received c now ≡ some c'
      → IsCounted c' (queued + one_if (not c.heartbeat_emitter))
  unfolding heartbeat_received enqueue count_sent
  beats-IsCounted c c' queued now i e = record {
    emitter = ground (arith, i.emitter);
    sent = ground (arith, i.emitter, i.sent);
    received = ground (arith, i.emitter, i.received);
    room = ground (arith, i.room, length-append c.send_channel (beat ∷ []));
  }

  sends-IsCounted :
      (c c' : Connection T) (queued : ℕ) (msg : Outgoing)
      → IsCounted c queued
      → send c msg ≡ some c'
      → IsCounted c' queued
  unfolding send enqueue
  sends-IsCounted c c' queued msg i e = record {
    emitter = ground (arith, i.emitter);
    sent = ground (arith, i.emitter, i.sent);
    received = ground (arith, i.emitter, i.received);
    room = ground (arith, i.room, length-append c.send_channel (msg ∷ []));
  }

  flushes-IsCounted :
      (c c' : Connection T) (queued : ℕ) (msg : Outgoing)
      → IsCounted c queued
      → dequeue c ≡ some (c', msg)
      → IsCounted c' queued
  unfolding dequeue
  flushes-IsCounted c c' queued msg i e = record {
    emitter = ground (arith, i.emitter);
    sent = ground (arith, i.emitter, i.sent);
    received = ground (arith, i.emitter, i.received);
    room = ground (arith, i.room);
  }

  -- The heartbeats that were taken off the queue or are in it.
  abbrev pub queued : Connection T → ℕ → ℕ
  queued c taken = taken + beats_in c.send_channel

  Beating-IsCounted :
      {c : Connection T} {taken : ℕ} → Beating c taken → IsCounted c (queued c taken)
  unfolding new
  Beating-IsCounted start =
      unfold beats_in in
      record { emitter = refl; sent = ground arith; received = inl refl; room = omega arith }
  Beating-IsCounted (ticks {c} {c'} {taken} run e) =
      subst (IsCounted c') (omega (arith, tick_beats c c' e))
        (ticks-IsCounted c c' (queued c taken) (Beating-IsCounted run) e)
  Beating-IsCounted (beats {c} {c'} {taken} now run e) =
      subst (IsCounted c') (omega (arith, answer_beats c c' now e))
        (beats-IsCounted c c' (queued c taken) now (Beating-IsCounted run) e)
  Beating-IsCounted (sends {c} {c'} {taken} msg run b e) =
      subst (IsCounted c') (omega (arith, send_beats c c' msg b e))
        (sends-IsCounted c c' (queued c taken) msg (Beating-IsCounted run) e)
  Beating-IsCounted (flushes {c} {c'} {taken} msg run e) =
      subst (IsCounted c') (omega (arith, dequeue_beats c c' msg e))
        (flushes-IsCounted c c' (queued c taken) msg (Beating-IsCounted run) e)

  -- Whatever ticks, heartbeats, other messages and flushes of the queue follow the start of a
  -- connection: on a server the counters of heartbeats sent and received are both the number of
  -- those taken off the queue to be written and of those in it together, so each one received is
  -- answered by one; on a client, which answers none, the counter of those sent is that number and
  -- the one of those received together. The queue never holds more than the channel's capacity.
  pub Beating-counted :
      {c : Connection T} {taken : ℕ}
      → Beating c taken
      → ((ops.im_server transp ≡ true)
          × (c.heartbeat_stats.sent ≡ queued c taken)
          × (c.heartbeat_stats.received ≡ queued c taken)
          × (length c.send_channel ≤ channel_capacity))
        ⊎ ((ops.im_server transp ≡ false)
            × (c.heartbeat_stats.sent ≡ queued c taken + c.heartbeat_stats.received)
            × (length c.send_channel ≤ channel_capacity))
  Beating-counted {c} {taken} run =
      let i = Beating-IsCounted run in
      elim (Bool-cases (ops.im_server transp)) [
        | inl s ↦ inl (s, ground (arith, i.sent, s), ground (arith, i.received, s), i.room)
        | inr s ↦ inr (s, ground (arith, i.sent, s), i.room)
      ]

module _ {T S : Type 0} (ops : Transport T S) where
  -- An `ErrorMessage` that carries a text disconnects if the length of the text is 0 modulo 256, as
  -- it is of an empty one, and otherwise only marks the connection as active. Neither calls the
  -- handler or panics.
  pub handle_message-error :
      (handler : Option (Connection T → Message → Outcome (Option (Connection T))))
      (c : Connection T) (now : ℕ) (m : Message) (s : Bytes)
      → m.type ≡ message_error
      → m.payload ≡ short_text s
      → handle_message ops handler c now m
        ≡ done (
            some (
              if byte (length s) == 0
              then disconnect ops (mark_active c now) now
              else mark_active c now))
  unfolding handle_message error_received error_unmarshal
  handle_message-error handler c now m s t p =
      let l : length (take (byte (length s)) s) ≡ byte (length s) =
        length-take (byte (length s)) s ∙ ground arith in
      rw (t, p, read_short-short_text s)
        (ap
          (λ n.
            done
              (some (if n == 0 then disconnect ops (mark_active c now) now else mark_active c now)))
          l)
