-- ===== src/Connection/Lifecycle.antt =====
-- When a connection counts as connected, over any sequence of its operations.
use gunnel.Prelude.{
  ℕ, ◌+◌, ◌<◌, ◌≡◌, refl, ◌∙◌, sym, subst, arith, Bool, true, false, not, ◌&&◌, ◌⊎◌, some,
  if◌then◌else◌, Bool-cases, inl, inr,
}
use gunnel.Prelude.Int.{ℤ, pos, ltb_ℤ, ◌-ℤ◌}
use gunnel.Transport.{Transport}
use gunnel.Connection.{
  Connection, Outgoing, enqueue, dequeue, mark_active, send, set_heartbeat_config, count_sent,
  heartbeat_tick, heartbeat_received, new, close_transport, disconnect, stream_fails,
  receive_failed, send_failed, is_connected, close, acquire, release, timeout_tick, context_done,
}

-- What queues, heartbeats and settings leave alone.
abbrev Same : {T : Type 0} → Connection T → Connection T → Type 0
Same c c' = (c'.connected ≡ c.connected) × (c'.transp ≡ c.transp) × (c'.closed ≡ c.closed)

module _ {T : Type 0} where
  send-Same : (c c' : Connection T) (msg : Outgoing) → send c msg ≡ some c' → Same c c'
  unfolding send enqueue
  send-Same c c' msg e = ground arith

  dequeue-Same : (c c' : Connection T) (msg : Outgoing) → dequeue c ≡ some (c', msg) → Same c c'
  unfolding dequeue
  dequeue-Same c c' msg e = ground arith

  heartbeat_tick-Same : (c c' : Connection T) → heartbeat_tick c ≡ some c' → Same c c'
  unfolding heartbeat_tick enqueue count_sent
  heartbeat_tick-Same c c' e = ground arith

  heartbeat_received-Same :
      (c c' : Connection T) (now : ℕ)
      → heartbeat_received (mark_active c now) now ≡ some c'
      → Same c c'
  unfolding heartbeat_received enqueue count_sent mark_active
  heartbeat_received-Same c c' now e = ground arith

  configure-Same : (c : Connection T) (i t : ℤ) → Same c (set_heartbeat_config c i t)
  unfolding set_heartbeat_config
  configure-Same c i t = ground arith

module _ {T S : Type 0} (ops : Transport T S) where
  -- One operation on a connection. `drops` is the transport closed from the other side.
  pub data Step : Connection T → Connection T → Type 0 where
    sends : {c c' : Connection T} (msg : Outgoing) → send c msg ≡ some c' → Step c c'
    flushes : {c c' : Connection T} (msg : Outgoing) → dequeue c ≡ some (c', msg) → Step c c'
    ticks : {c c' : Connection T} → heartbeat_tick c ≡ some c' → Step c c'
    beats :
        {c c' : Connection T} (now : ℕ)
        → heartbeat_received (mark_active c now) now ≡ some c'
        → Step c c'
    disconnects : (c : Connection T) (now : ℕ) → Step c (disconnect ops c now)
    asks : (c : Connection T) → Step c (is_connected ops c).0
    closes : (c : Connection T) → Step c (close ops c)
    acquires : (c : Connection T) (now : ℕ) → Step c (acquire ops c now).0
    releases : (c : Connection T) (now : ℕ) (s : S) → Step c (release ops c now s)
    times_out : (c : Connection T) (now : ℕ) → Step c (timeout_tick ops c now)
    ends : (c : Connection T) → Step c (context_done ops c)
    drops : (c : Connection T) → Step c (close_transport ops c)
    configures :
        (c : Connection T) (interval timeout : ℤ) → Step c (set_heartbeat_config c interval timeout)

  -- Any sequence of operations, and how many goroutines have found the stream failing and have not
  -- closed the transport yet; `markActive` may keep one of them waiting for the mutex.
  pub data Steps (c : Connection T) : Connection T → ℕ → Type 0 where
    nothing : Steps c c 0
    more :
        {c' c'' : Connection T} {pending : ℕ}
        → Steps c c' pending
        → Step c' c''
        → Steps c c'' pending
    fails :
        {c' : Connection T} {pending : ℕ}
        → Steps c c' pending
        → Steps c (stream_fails ops c') (pending + 1)
    receive_closes :
        {c' : Connection T} {pending : ℕ} (now : ℕ)
        → Steps c c' (pending + 1)
        → Steps c (receive_failed ops c' now) pending
    send_closes :
        {c' : Connection T} {pending : ℕ} (now : ℕ)
        → Steps c c' (pending + 1)
        → Steps c (send_failed ops c' now) pending

  -- A connection that is not connected has a closed transport, or a goroutine that has still to
  -- close it; and one whose channel is closed is not connected.
  pub record IsSound (c : Connection T) (pending : ℕ) : Type 0 where
    pub transport_closed : (c.connected ≡ true) ⊎ ((ops.is_closed c.transp ≡ true) ⊎ (0 < pending))
    pub disconnected : c.closed ≡ false ⊎ c.connected ≡ false

  -- A step never brings a connection or its transport back, and keeps it sound.
  abbrev Keeps : Connection T → Connection T → Type 0
  Keeps c c' =
      (c.connected ≡ false → c'.connected ≡ false)
      × (ops.is_closed c.transp ≡ true → ops.is_closed c'.transp ≡ true)
      × ((n : ℕ) → IsSound c n → IsSound c' n)

  Same-Keeps : (c c' : Connection T) → Same c c' → Keeps c c'
  Same-Keeps c c' (a, t, d) = (
    (λ h. a ∙ h),
    (λ h. rw t h),
    (λ n s. record {
      transport_closed = rw (a, t) s.transport_closed;
      disconnected = rw (a, d) s.disconnected;
    }),
  )

  close_transport-Keeps : (c : Connection T) → Keeps c (close_transport ops c)
  unfolding close_transport
  close_transport-Keeps c = (
    (λ h. h),
    (λ h. ops.close-is_closed c.transp),
    (λ n s. record {
      transport_closed = inr (inl (ops.close-is_closed c.transp));
      disconnected = s.disconnected;
    }),
  )

  -- A connection made not connected, with its transport closed.
  ended-Keeps :
      (c c' : Connection T) → c'.connected ≡ false → ops.is_closed c'.transp ≡ true → Keeps c c'
  ended-Keeps c c' a t =
      ((λ h. a), (λ h. t), (λ n s. record { transport_closed = inr (inl t); disconnected = inr a }))

  disconnect-Keeps : (c : Connection T) (now : ℕ) → Keeps c (disconnect ops c now)
  unfolding disconnect close_transport
  disconnect-Keeps c now = ended-Keeps c _ refl (ops.close-is_closed c.transp)

  choice-Keeps :
      (b : Bool) (c l r : Connection T)
      → (b ≡ true → Keeps c l)
      → (b ≡ false → Keeps c r)
      → Keeps c (if b then l else r)
  choice-Keeps true c l r f g = f refl
  choice-Keeps false c l r f g = g refl

  self-Keeps : (c : Connection T) → Keeps c c
  self-Keeps c = Same-Keeps c c (refl, refl, refl)

  is_connected_state :
      (c : Connection T)
      → (is_connected ops c).0 ≡ (
          if not c.connected
          then c
          else if ops.is_closed c.transp
          then record c { connected = false }
          else c)
  unfolding is_connected
  is_connected_state c = ground arith

  is_connected-Keeps : (c : Connection T) → Keeps c (is_connected ops c).0
  is_connected-Keeps c = subst (Keeps c) (sym (is_connected_state c)) (
      choice-Keeps (not c.connected) c c _ (λ _. self-Keeps c)
        (λ _.
          choice-Keeps (ops.is_closed c.transp) c (record c { connected = false }) c
            (λ y. ended-Keeps c (record c { connected = false }) refl y) (λ _. self-Keeps c)))

  close-Keeps : (c : Connection T) → Keeps c (close ops c)
  unfolding close close_transport
  close-Keeps c =
      choice-Keeps c.closed c c _ (λ _. self-Keeps c)
        (λ _. ended-Keeps c _ refl (ops.close-is_closed c.transp))

  -- An operation of the transport that does not close it.
  moved-Keeps :
      (c c' : Connection T)
      → c'.connected ≡ c.connected
      → c'.closed ≡ c.closed
      → ops.is_closed c'.transp ≡ ops.is_closed c.transp
      → Keeps c c'
  moved-Keeps c c' a d t = (
    (λ h. a ∙ h),
    (λ h. t ∙ h),
    (λ n s. record {
      transport_closed = rw (a, t) s.transport_closed;
      disconnected = rw (a, d) s.disconnected;
    }),
  )

  timeout_tick-Keeps : (c : Connection T) (now : ℕ) → Keeps c (timeout_tick ops c now)
  unfolding timeout_tick disconnect close_transport
  timeout_tick-Keeps c now =
      choice-Keeps (ltb_ℤ c.heartbeat_timeout (pos now -ℤ pos c.heartbeat_stats.last)) c _ c
        (λ _. ended-Keeps c _ refl (ops.close-is_closed c.transp)) (λ _. self-Keeps c)

  Step-Keeps : {c c' : Connection T} → Step c c' → Keeps c c'
  unfolding receive_failed send_failed close_transport acquire release context_done mark_active
  Step-Keeps (sends msg e) = Same-Keeps _ _ (send-Same _ _ msg e)
  Step-Keeps (flushes msg e) = Same-Keeps _ _ (dequeue-Same _ _ msg e)
  Step-Keeps (ticks e) = Same-Keeps _ _ (heartbeat_tick-Same _ _ e)
  Step-Keeps (beats {c} {c'} now e) = Same-Keeps c c' (heartbeat_received-Same c c' now e)
  Step-Keeps (disconnects c now) = disconnect-Keeps c now
  Step-Keeps (asks c) = is_connected-Keeps c
  Step-Keeps (closes c) = close-Keeps c
  Step-Keeps (acquires c now) = moved-Keeps c _ refl refl (ops.acquire-is_closed c.transp)
  Step-Keeps (releases c now s) = moved-Keeps c _ refl refl (ops.release-is_closed c.transp s)
  Step-Keeps (times_out c now) = timeout_tick-Keeps c now
  Step-Keeps (ends c) = close_transport-Keeps c
  Step-Keeps (drops c) = close_transport-Keeps c
  Step-Keeps (configures c i t) = Same-Keeps _ _ (configure-Same c i t)

  -- A sequence keeps what each step keeps, and a failing goroutine accounts for what it has not done.
  record IsKept (c c' : Connection T) (pending : ℕ) : Type 0 where
    off : c.connected ≡ false → c'.connected ≡ false
    shut : ops.is_closed c.transp ≡ true → ops.is_closed c'.transp ≡ true
    sound : IsSound c 0 → IsSound c' pending

  fails-IsKept :
      {c c' : Connection T} {n : ℕ} → IsKept c c' n → IsKept c (stream_fails ops c') (n + 1)
  unfolding stream_fails
  fails-IsKept k = record {
    off = λ h. refl;
    shut = k.shut;
    sound = λ s. record { transport_closed = inr (inr (omega arith)); disconnected = inr refl };
  }

  -- A goroutine that closes the transport.
  closed-IsKept :
      {c c' c'' : Connection T} {n : ℕ}
      → IsKept c c' (n + 1)
      → c''.connected ≡ c'.connected
      → c''.closed ≡ c'.closed
      → ops.is_closed c''.transp ≡ true
      → IsKept c c'' n
  closed-IsKept k a d t = record {
    off = λ h. a ∙ k.off h;
    shut = λ h. t;
    sound = λ s. record {
      transport_closed = inr (inl t);
      disconnected = rw (a, d) (k.sound s).disconnected;
    };
  }

  Steps-IsKept : {c c' : Connection T} {n : ℕ} → Steps c c' n → IsKept c c' n
  unfolding receive_failed send_failed close_transport mark_active
  Steps-IsKept nothing = record { off = λ h. h; shut = λ h. h; sound = λ s. s }
  Steps-IsKept (more {c'} {c''} {pending} run step) =
      let k = Steps-IsKept run in
      let (a, t, s) = Step-Keeps step in
      record {
        off = λ h. a (k.off h);
        shut = λ h. t (k.shut h);
        sound = λ x. s pending (k.sound x);
      }
  Steps-IsKept (fails run) = fails-IsKept (Steps-IsKept run)
  Steps-IsKept (receive_closes {c'} now run) =
      closed-IsKept (Steps-IsKept run) refl refl (ops.close-is_closed c'.transp)
  Steps-IsKept (send_closes {c'} now run) =
      closed-IsKept (Steps-IsKept run) refl refl (ops.close-is_closed c'.transp)

  is_connected_eq :
      (c : Connection T) → (is_connected ops c).1 ≡ (c.connected && not (ops.is_closed c.transp))
  unfolding is_connected
  is_connected_eq c = ground arith

  -- Whatever is sent, received, acquired, released, closed or timed out in between, `Connected`
  -- never says true again once it has said false.
  pub Steps-is_connected :
      {c c' : Connection T} {pending : ℕ}
      → Steps c c' pending
      → (is_connected ops c).1 ≡ false
      → (is_connected ops c').1 ≡ false
  Steps-is_connected {c} {c'} run h =
      let k = Steps-IsKept run in
      let off : c.connected && not (ops.is_closed c.transp) ≡ false = sym (is_connected_eq c) ∙ h in
      is_connected_eq c' ∙ (elim (Bool-cases c.connected) [
        | inr e ↦ rw (k.off e) refl
        | inl e ↦ rw (k.shut (ground (arith, off, e))) (ground arith)
      ])

  -- After any operations on a new connection, one that is marked as not connected has a closed
  -- transport, unless a goroutine that found the stream failing has still to close it, which it does
  -- after it has got the mutex; and one that was closed is marked so.
  pub Steps-IsSound :
      (transp : T) (now : ℕ) {c : Connection T} {pending : ℕ}
      → Steps (new ops transp now) c pending
      → IsSound c pending
  unfolding new
  Steps-IsSound transp now run =
      (Steps-IsKept run).sound (record { transport_closed = inl refl; disconnected = inl refl })
