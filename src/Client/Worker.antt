-- ===== src/Client/Worker.antt =====
-- `worker`, `disconnect`, `Stop` and the goroutine of `reconnectLoop` of pkg/client/client.go, as
-- steps on the client. A transport stands at an address, since the client and its wrapper share it;
-- of the wrapper there is what `Close` reads. The server's answers to registrations are parameters.
mod Closing
pub mod Leaks
pub mod Alive
mod Examples
use gunnel.Prelude.{ℕ, ◌+◌, ◌≡◌, List, Bool, true, false, Option, none, some, ◌==◌, if◌then◌else◌}
use gunnel.Go.Slices.{done}
use gunnel.Transport.{Transport}
use gunnel.Client.Config.{BackendConfig}
use gunnel.Client.Register.{Reply, register_backends}

-- A `connection.Connection`: the address of its transport, and whether it was closed.
pub record Wrapper : Type 0 where
  pub transp : ℕ
  pub closed : Bool

-- `worker` is at the top of its loop, waits for a reconnection, is on its way to
-- `c.conn.AcceptStream`, or has returned; that call on a nil connection ends the program.
pub data Worker : Type 0 where
  asks waits accepts : Worker
  returned crashed : Worker

-- What `AcceptStream` gives: a stream, `context.Canceled` or another error.
pub data Accepted : Type 0 where
  a_stream canceled an_error : Accepted

-- `reconnectLoop` sleeps, has found that it is needed, has dialled the transport at an address, or
-- has registered the backends with it.
pub data Reconnecter : Type 0 where
  sleeps is_needed : Reconnecter
  dialled registered : ℕ → Reconnecter

-- `count` transports have been dialled; the flags say whether `Stop` was called and whether the
-- context is done.
pub record Client (T : Type 0) : Type 0 where
  pub backends : List BackendConfig
  pub transports : ℕ → T
  pub count : ℕ
  pub conn : Option ℕ
  pub conn_wrapper : Option Wrapper
  pub worker : Worker
  pub reconnecter : Reconnecter
  pub stopped : Bool
  pub cancelled : Bool

module _ {T S : Type 0} (ops : Transport T S) where
  unfoldable pub set_transport : Client T → ℕ → T → Client T
  set_transport c p t = record c { transports = λ q. if q == p then t else c.transports q }

  unfoldable pub close_at : Client T → ℕ → Client T
  close_at c p = set_transport c p (ops.close (c.transports p))

  -- `Close` of a wrapper, less what it does to the wrapper itself.
  unfoldable pub close_wrapper : Client T → Option Wrapper → Client T
  close_wrapper c none = c
  close_wrapper c (some w) = if w.closed then c else close_at c w.transp

  -- `c.conn == nil || c.conn.IsClosed()`
  unfoldable pub needs_reconnect : Client T → Bool
  needs_reconnect c = elim c.conn [ none ↦ true | some p ↦ ops.is_closed (c.transports p) ]

  unfoldable pub close_conn : Client T → Option ℕ → Client T
  close_conn c none = c
  close_conn c (some p) = record (close_at c p) { conn = none }

  -- `disconnect`
  unfoldable pub disconnect : Client T → Client T
  disconnect c = close_conn (record (close_wrapper c c.conn_wrapper) { conn_wrapper = none }) c.conn

  -- The connection's `AcceptStream` and what follows, where the connection is not nil.
  unfoldable pub accepted : Client T → Accepted → Client T
  accepted c a_stream = record c { worker = asks }
  accepted c canceled = record c { worker = returned }
  accepted c an_error = record (disconnect c) { worker = asks }

  unfoldable pub accept : Client T → Accepted → Client T
  accept c a = elim c.conn [ none ↦ record c { worker = crashed } | some p ↦ accepted c a ]

  -- A new transport, at the next address.
  unfoldable pub dial : Client T → T → Client T
  dial c t = record (set_transport c c.count t) {
    count = c.count + 1;
    reconnecter = dialled c.count;
  }

  -- `registerWithTransport`, once the backends are registered.
  unfoldable pub wrap : Client T → ℕ → T → List BackendConfig → Client T
  wrap c p t backends = record (close_wrapper (set_transport c p t) c.conn_wrapper) {
    backends = backends;
    conn_wrapper = some (record { transp = p; closed = false });
    reconnecter = registered p;
  }

  pub data Step : Client T → Client T → Type 0 where
    finds_open :
        (c : Client T)
        → c.worker ≡ asks
        → needs_reconnect c ≡ false
        → Step c (record c { worker = accepts })
    finds_none :
        (c : Client T)
        → c.worker ≡ asks
        → needs_reconnect c ≡ true
        → Step c (record c { worker = waits })
    waited : (c : Client T) → c.worker ≡ waits → Step c (record c { worker = asks })
    -- `shouldWaitForReconnection` returns false when the context is done, as if it need not wait.
    waited_in_vain :
        (c : Client T)
        → c.worker ≡ waits
        → c.cancelled ≡ true
        → Step c (record c { worker = accepts })
    ends :
        (c : Client T)
        → c.worker ≡ asks
        → c.cancelled ≡ true
        → Step c (record c { worker = returned })
    accepts_stream : (c : Client T) (a : Accepted) → c.worker ≡ accepts → Step c (accept c a)
    cancels : (c : Client T) → Step c (record c { cancelled = true })
    stops : (c : Client T) → Step c (record (disconnect c) { stopped = true })
    -- A goroutine of the wrapper gives the connection up.
    fails : (c : Client T) (w : Wrapper) → c.conn_wrapper ≡ some w → Step c (close_at c w.transp)
    finds_closed :
        (c : Client T)
        → c.reconnecter ≡ sleeps
        → needs_reconnect c ≡ true
        → Step c (record c { reconnecter = is_needed })
    dial_fails :
        (c : Client T) → c.reconnecter ≡ is_needed → Step c (record c { reconnecter = sleeps })
    dials : (c : Client T) (t : T) → c.reconnecter ≡ is_needed → Step c (dial c t)
    registers :
        (c : Client T) (p : ℕ) (replies : ℕ → Reply) (t : T) (bs : List BackendConfig)
        → c.reconnecter ≡ dialled p
        → register_backends ops (c.transports p) replies 0 c.backends ≡ done (t, bs)
        → Step c (wrap c p t bs)
    reconnects :
        (c : Client T) (p : ℕ)
        → c.reconnecter ≡ registered p
        → Step c (record c { conn = some p; reconnecter = sleeps })

  -- `New` and `Start`, up to its loops: the backends are registered with the first transport.
  unfoldable pub started : T → List BackendConfig → Client T
  started t bs = record {
    backends = bs;
    transports = λ p. t;
    count = 1;
    conn = some 0;
    conn_wrapper = if ops.is_closed t then none else some (record { transp = 0; closed = false });
    worker = asks;
    reconnecter = sleeps;
    stopped = false;
    cancelled = false;
  }

  pub data Runs (t : T) (bs : List BackendConfig) : Client T → Type 0 where
    start : Runs t bs (started t bs)
    next : {c c' : Client T} → Runs t bs c → Step c c' → Runs t bs c'
