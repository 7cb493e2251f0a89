-- ===== src/Connection/Stuck.antt =====
-- `Send`, `watchSend` and `Close` of pkg/connection/connection.go between the mutex and the channel of
-- messages: `Send` waits for room in the channel while it holds the mutex. Of the channel there is
-- how many messages it holds.
mod Examples
use gunnel.Prelude.{ℕ, ◌+◌, ◌-◌, ◌<◌, ◌≡◌, ◌≢◌, ◌⊎◌, refl, arith, Bool, true, false, inl, inr}
use gunnel.Connection.{channel_capacity}

-- The goroutine that calls `Send`, and that of `watchSend`.
pub data Caller : Type 0 where
  outside waits : Caller

pub data Watcher : Type 0 where
  running returned : Watcher

-- The goroutine that calls `Close`.
pub data Closer : Type 0 where
  asks closed : Closer

pub record State : Type 0 where
  pub connected : Bool
  pub queued : ℕ
  pub caller : Caller
  pub watcher : Watcher
  pub closer : Closer

abbrev pub fresh : State
fresh = record { connected = true; queued = 0; caller = outside; watcher = running; closer = asks }

-- The mutex is free where the caller is outside of `Send`; `Close` needs it in one step.
pub data Step : State → State → Type 0 where
  enters_send :
      (s : State) → s.caller ≡ outside → s.connected ≡ true → Step s (record s { caller = waits })
  puts :
      (s : State)
      → s.caller ≡ waits
      → s.queued < channel_capacity
      → Step s (record s { caller = outside; queued = s.queued + 1 })
  takes :
      (s : State) → s.watcher ≡ running → 0 < s.queued → Step s (record s { queued = s.queued - 1 })
  stream_fails :
      (s : State)
      → s.watcher ≡ running
      → Step s (record s { watcher = returned; connected = false })
  context_done : (s : State) → s.watcher ≡ running → Step s (record s { watcher = returned })
  receive_fails : (s : State) → Step s (record s { connected = false })
  closes :
      (s : State)
      → s.caller ≡ outside
      → s.closer ≡ asks
      → Step s (record s { closer = closed; connected = false })

pub data Steps (a : State) : State → Type 0 where
  nothing : Steps a a
  more : {b c : State} → Steps a b → Step b c → Steps a c

-- A connection that was closed lets nobody into `Send`.
record IsSound (s : State) : Type 0 where
  shut : (s.closer ≡ asks) ⊎ ((s.caller ≡ outside) × (s.connected ≡ false))

Step-IsSound : {a b : State} → IsSound a → Step a b → IsSound b
Step-IsSound i (enters_send s g o) = ground (arith, i.shut)
Step-IsSound i (puts s g l) = ground (arith, i.shut)
Step-IsSound i (takes s g l) = ground (arith, i.shut)
Step-IsSound i (stream_fails s g) = ground (arith, i.shut)
Step-IsSound i (context_done s g) = ground (arith, i.shut)
Step-IsSound i (receive_fails s) = ground (arith, i.shut)
Step-IsSound i (closes s g h) = record { shut = inr (g, refl) }

Steps-IsSound : {s : State} → Steps fresh s → IsSound s
Steps-IsSound nothing = record { shut = inl refl }
Steps-IsSound (more run step) = Step-IsSound (Steps-IsSound run) step

record IsStuck (s : State) : Type 0 where
  caller : s.caller ≡ waits
  full : s.queued ≡ channel_capacity
  watcher : s.watcher ≡ returned
  closer : s.closer ≡ asks

Step-IsStuck : {a b : State} → IsStuck a → Step a b → IsStuck b
Step-IsStuck i (enters_send s g o) = absurd (ground (arith, i.caller, g))
Step-IsStuck i (puts s g l) = absurd (ground (arith, i.full, l))
Step-IsStuck i (takes s g l) = absurd (ground (arith, i.watcher, g))
Step-IsStuck i (stream_fails s g) = absurd (ground (arith, i.watcher, g))
Step-IsStuck i (context_done s g) = absurd (ground (arith, i.watcher, g))
Step-IsStuck i (receive_fails s) = record {
  caller = i.caller;
  full = i.full;
  watcher = i.watcher;
  closer = i.closer;
}
Step-IsStuck i (closes s g h) = absurd (ground (arith, i.caller, g))

Steps-IsStuck : {a b : State} → IsStuck a → Steps a b → IsStuck b
Steps-IsStuck i nothing = i
Steps-IsStuck i (more run step) = Step-IsStuck (Steps-IsStuck i run) step

-- When `watchSend` has returned, as it does where the stream fails or its context is done, while a `Send` waits at a full
-- channel, that `Send` never returns, and no `Close` of the connection ever does.
pub Steps-waits :
    (a b : State)
    → Steps fresh a
    → a.caller ≡ waits
    → a.queued ≡ channel_capacity
    → a.watcher ≡ returned
    → Steps a b
    → (b.caller ≡ waits) × (b.closer ≡ asks)
Steps-waits a b run c q w later =
    let sound = Steps-IsSound run in
    let stuck : IsStuck a = record {
      caller = c;
      full = q;
      watcher = w;
      closer = ground (arith, sound.shut, c);
    } in
    let i = Steps-IsStuck stuck later in (i.caller, i.closer)
