-- ===== src/Client/Worker/Closing.antt =====
-- What closing a wrapper, a connection or both does to a client.
use gunnel.Prelude.{
  ℕ, ◌≡◌, refl, ◌∙◌, arith, Bool, true, false, Option, none, some, ◌==◌, if◌then◌else◌,
}
use gunnel.Transport.{Transport}
use gunnel.Client.Worker.{
  Wrapper, Client, close_at, set_transport, close_wrapper, close_conn, disconnect,
}

module _ {T S : Type 0} (ops : Transport T S) where
  abbrev pub Closed : Client T → ℕ → Type 0
  Closed c p = ops.is_closed (c.transports p) ≡ true

  -- The transports are what may differ, and none is open that was closed.
  pub record OnlyCloses (c d : Client T) : Type 0 where
    pub conn : d.conn ≡ c.conn
    pub worker : d.worker ≡ c.worker
    pub reconnecter : d.reconnecter ≡ c.reconnecter
    pub count : d.count ≡ c.count
    pub stopped : d.stopped ≡ c.stopped
    pub cancelled : d.cancelled ≡ c.cancelled
    pub closed : (p : ℕ) → Closed c p → Closed d p

  closed_at :
      (t u : T) (p q : ℕ)
      → ops.is_closed u ≡ true
      → ops.is_closed t ≡ true
      → ops.is_closed (if q == p then u else t) ≡ true
  closed_at t u p q a b = ground (arith, a, b)

  pub close_at_self : (c : Client T) (p : ℕ) → Closed (close_at ops c p) p
  unfolding close_at set_transport
  close_at_self c p =
      let same : (p == p) ≡ true = ground arith in rw same (ops.close-is_closed (c.transports p))

  pub close_at-OnlyCloses : (c : Client T) (p : ℕ) → OnlyCloses c (close_at ops c p)
  unfolding close_at set_transport
  close_at-OnlyCloses c p = record {
    conn = refl;
    worker = refl;
    reconnecter = refl;
    count = refl;
    stopped = refl;
    cancelled = refl;
    closed = λ q h. closed_at (c.transports q) _ p q (ops.close-is_closed (c.transports p)) h;
  }

  itself : (c : Client T) → OnlyCloses c c
  itself c = record {
    conn = refl;
    worker = refl;
    reconnecter = refl;
    count = refl;
    stopped = refl;
    cancelled = refl;
    closed = λ q h. h;
  }

  pub close_wrapper-OnlyCloses :
      (c : Client T) (w : Option Wrapper) → OnlyCloses c (close_wrapper ops c w)
  unfolding close_wrapper
  close_wrapper-OnlyCloses c none = itself c
  close_wrapper-OnlyCloses c (some w) = by_flag w w.closed
    where
      by_flag : (w : Wrapper) (b : Bool) → OnlyCloses c (if b then c else close_at ops c w.transp)
      by_flag w true = itself c
      by_flag w false = close_at-OnlyCloses c w.transp

  -- After `disconnect` there is no connection, and the one there was is closed.
  pub record IsDisconnected (c d : Client T) : Type 0 where
    pub conn : d.conn ≡ none
    pub worker : d.worker ≡ c.worker
    pub reconnecter : d.reconnecter ≡ c.reconnecter
    pub count : d.count ≡ c.count
    pub stopped : d.stopped ≡ c.stopped
    pub cancelled : d.cancelled ≡ c.cancelled
    pub closed : (p : ℕ) → Closed c p → Closed d p
    pub gone : (p : ℕ) → c.conn ≡ some p → Closed d p

  conn_closed :
      (c d : Client T) (o : Option ℕ)
      → OnlyCloses c d
      → c.conn ≡ o
      → IsDisconnected c (close_conn ops d o)
  unfolding close_conn
  conn_closed c d none k e = record {
    conn = k.conn ∙ e;
    worker = k.worker;
    reconnecter = k.reconnecter;
    count = k.count;
    stopped = k.stopped;
    cancelled = k.cancelled;
    closed = k.closed;
    gone = λ p h. absurd (ground (arith, e, h));
  }
  conn_closed c d (some p) k e =
      let a = close_at-OnlyCloses d p in
      record {
        conn = refl;
        worker = a.worker ∙ k.worker;
        reconnecter = a.reconnecter ∙ k.reconnecter;
        count = a.count ∙ k.count;
        stopped = a.stopped ∙ k.stopped;
        cancelled = a.cancelled ∙ k.cancelled;
        closed = λ q h. a.closed q (k.closed q h);
        gone = λ q h. let same : p ≡ q = ground (arith, e, h) in rw (← same) (close_at_self d p);
      }

  pub disconnect-IsDisconnected : (c : Client T) → IsDisconnected c (disconnect ops c)
  unfolding disconnect
  disconnect-IsDisconnected c =
      let k = close_wrapper-OnlyCloses c c.conn_wrapper in
      conn_closed c (record (close_wrapper ops c c.conn_wrapper) { conn_wrapper = none }) c.conn
        (record {
          conn = k.conn;
          worker = k.worker;
          reconnecter = k.reconnecter;
          count = k.count;
          stopped = k.stopped;
          cancelled = k.cancelled;
          closed = k.closed;
        })
        refl
