-- ===== src/Connection.antt =====
-- pkg/connection: one client's connection, its queue of messages to send and its heartbeats. Times
-- and durations are nanoseconds; each call takes the time at which it is made. The mutex makes a
-- call one step. The root stream is never nil, as `Root` of a transport is not.
pub mod Lifecycle
pub mod Heartbeats
pub mod Stuck
mod Examples
use gunnel.Prelude.{
  ℕ, ◌+◌, ◌*◌, ◌^◌, List, [], ◌∷◌, ◌++◌, Bool, true, false, not, Option, none, some, Bytes, ltb,
  leb, ◌==◌, length, if◌then◌else◌,
}
use gunnel.Prelude.Int.{ℤ, pos, ltb_ℤ, ◌-ℤ◌}
use gunnel.Go.Slices.{Outcome, done, panicked, ◌>>=◌}
use gunnel.Protocol.Enum.{message_heartbeat, message_disconnect, message_error}
use gunnel.Protocol.Message.{Message}
use gunnel.Protocol.Text.{Heartbeat, ErrorMessage, error_unmarshal}
use gunnel.Protocol.Register.{ConnectionRegister, ConnectionRegisterResp}
use gunnel.Transport.{Transport}

-- What the program sends on connections, of the values of type `Parsable`.
pub data Outgoing : Type 0 where
  heartbeat : Heartbeat → Outgoing
  register : ConnectionRegister → Outgoing
  register_resp : ConnectionRegisterResp → Outgoing

pub record HeartbeatStats : Type 0 where
  pub last : ℕ
  pub sent : ℕ
  pub received : ℕ
  pub missed : ℕ

-- `closed` says whether the channel of that name is closed.
pub record Connection (T : Type 0) : Type 0 where
  pub transp : T
  pub connected : Bool
  pub heartbeat_emitter : Bool
  pub last_active : ℕ
  pub send_channel : List Outgoing
  pub heartbeat_interval : ℤ
  pub heartbeat_timeout : ℤ
  pub heartbeat_stats : HeartbeatStats
  pub closed : Bool

abbrev pub channel_capacity : ℕ
channel_capacity = 100

abbrev pub beat : Outgoing
beat = heartbeat (record { message = [] })

module _ {T : Type 0} where
  -- `c.sendChannel <- msg`, none while the queue is full and the call waits.
  unfoldable pub enqueue : Connection T → Outgoing → Option (Connection T)
  enqueue c msg =
      if ltb (length c.send_channel) channel_capacity
      then some (record c { send_channel = c.send_channel ++ msg ∷ [] })
      else none

  -- `watchSend` takes the oldest message off the queue.
  unfoldable pub dequeue : Connection T → Option (Connection T × Outgoing)
  dequeue c = elim c.send_channel [
    | [] ↦ none
    | msg ∷ rest ↦ some (record c { send_channel = rest }, msg)
  ]

  unfoldable pub mark_active : Connection T → ℕ → Connection T
  mark_active c now = record c { last_active = now }

  -- `Send`
  unfoldable pub send : Connection T → Outgoing → Option (Connection T)
  send c msg = if not c.connected then some c else enqueue c msg

  -- `SetHeartbeatConfig`
  unfoldable pub set_heartbeat_config : Connection T → ℤ → ℤ → Connection T
  set_heartbeat_config c interval timeout =
      let c' = if ltb_ℤ (pos 0) interval then record c { heartbeat_interval = interval } else c in
      if ltb_ℤ (pos 0) timeout then record c' { heartbeat_timeout = timeout } else c'

  unfoldable pub get_last_active : Connection T → ℕ
  get_last_active c = c.last_active

  unfoldable pub get_heartbeat_stats : Connection T → HeartbeatStats
  get_heartbeat_stats c = c.heartbeat_stats

  unfoldable pub count_sent : Connection T → Connection T
  count_sent c = record c {
    heartbeat_stats = record c.heartbeat_stats { sent = c.heartbeat_stats.sent + 1 };
  }

  -- `observeConnection`, when the heartbeat ticker fires.
  unfoldable pub heartbeat_tick : Connection T → Option (Connection T)
  heartbeat_tick c =
      if c.heartbeat_emitter
      then elim (enqueue c beat) [ none ↦ none | some c' ↦ some (count_sent c') ]
      else some c

  -- The heartbeat's case of `handleMessage`.
  unfoldable pub heartbeat_received : Connection T → ℕ → Option (Connection T)
  heartbeat_received c now =
      let c' = record c {
        heartbeat_stats = record c.heartbeat_stats {
          last = now;
          received = c.heartbeat_stats.received + 1;
        };
      } in
      if not c.heartbeat_emitter
      then elim (enqueue c' beat) [ none ↦ none | some c'' ↦ some (count_sent c'') ]
      else some (count_sent c')

  module _ {S : Type 0} (ops : Transport T S) where
    -- `New`
    unfoldable pub new : T → ℕ → Connection T
    new transp now = record {
      transp = transp;
      connected = true;
      heartbeat_emitter = not (ops.im_server transp);
      last_active = now;
      send_channel = [];
      heartbeat_interval = pos (30 * 10 ^ 9);
      heartbeat_timeout = pos (90 * 10 ^ 9);
      heartbeat_stats = record { last = now; sent = 0; received = 0; missed = 0 };
      closed = false;
    }

    unfoldable pub close_transport : Connection T → Connection T
    close_transport c = record c { transp = ops.close c.transp }

    -- `disconnect`
    unfoldable pub disconnect : Connection T → ℕ → Connection T
    disconnect c now = close_transport (record c { connected = false; last_active = now })

    -- What `watchReceive` and `watchSend` do first when the stream fails.
    unfoldable pub stream_fails : Connection T → Connection T
    stream_fails c = record c { connected = false }

    -- What `watchReceive` does then, once `markActive` has the mutex, and what `watchSend` does.
    unfoldable pub receive_failed : Connection T → ℕ → Connection T
    receive_failed c now = close_transport (mark_active c now)

    unfoldable pub send_failed : Connection T → ℕ → Connection T
    send_failed c now = close_transport (record c { last_active = now })

    -- `Connected`, which may change what it reads.
    unfoldable pub is_connected : Connection T → Connection T × Bool
    is_connected c =
        if not c.connected
        then (c, false)
        else if ops.is_closed c.transp
        then (record c { connected = false }, false)
        else (c, true)

    -- `Close`
    unfoldable pub close : Connection T → Connection T
    close c =
        if c.closed then c else close_transport (record c { closed = true; connected = false })

    -- `Acquire`, `Release`, `GetConnCount`
    unfoldable pub acquire : Connection T → ℕ → Connection T × Option S
    acquire c now =
        let (transp, stream) = ops.acquire c.transp in
        (record c { last_active = now; transp = transp }, stream)

    unfoldable pub release : Connection T → ℕ → S → Connection T
    release c now stream = record c { last_active = now; transp = ops.release c.transp stream }

    unfoldable pub get_conn_count : Connection T → Option Bytes → ℕ
    get_conn_count c subdomain = ops.len_active c.transp subdomain

    -- `observeConnection`, when the timeout ticker fires.
    unfoldable pub timeout_tick : Connection T → ℕ → Connection T
    timeout_tick c now =
        if ltb_ℤ c.heartbeat_timeout (pos now -ℤ pos c.heartbeat_stats.last)
        then disconnect
            (record c {
              heartbeat_stats = record c.heartbeat_stats { missed = c.heartbeat_stats.missed + 1 };
            })
            now
        else c

    -- `observeConnection`, when the connection's context is done.
    unfoldable pub context_done : Connection T → Connection T
    context_done c = close_transport c

    -- The error's case of `handleMessage`.
    unfoldable pub error_received : Connection T → ℕ → Bytes → Outcome (Connection T)
    error_received c now payload = do
      e ← error_unmarshal (record { message = [] }) payload
      done (if length e.message == 0 then disconnect c now else c)

    -- `handleMessage`. The handler's error is only logged; none while a queue is full.
    unfoldable pub handle_message :
        Option (Connection T → Message → Outcome (Option (Connection T)))
        → Connection T
        → ℕ
        → Message
        → Outcome (Option (Connection T))
    handle_message handler c now msg =
        let active = mark_active c now in
        if msg.type == message_heartbeat
        then done (heartbeat_received active now)
        else if msg.type == message_disconnect
        then done (some (disconnect active now))
        else if msg.type == message_error
        then (do c' ← error_received active now msg.payload; done (some c'))
        else elim handler [ none ↦ done (some active) | some f ↦ f active msg ]
