-- ===== src/Client/Worker/Alive.antt =====
-- That the worker does not call a nil connection.
use gunnel.Prelude.{
  ◌≡◌, ◌≢◌, refl, sym, ◌∙◌, arith, List, inl, inr, Option-cases, true, false, none,
}
use gunnel.Transport.{Transport}
use gunnel.Client.Config.{BackendConfig}
use gunnel.Client.Worker.Closing.{OnlyCloses, close_at-OnlyCloses, close_wrapper-OnlyCloses}
use gunnel.Client.Worker.{
  Client, Accepted, a_stream, canceled, an_error, waits, accepts, crashed, accepted, finds_none,
  waited, waited_in_vain, ends, cancels, needs_reconnect, set_transport, accept, dial, wrap, Step,
  finds_open, accepts_stream, stops, fails, finds_closed, dial_fails, dials, registers, reconnects,
  started, Runs, start, next,
}

module _ {T S : Type 0} (ops : Transport T S) where
  -- As long as nobody has called `Stop` and the context is not done.
  record IsAlive (c : Client T) : Type 0 where
    running : c.stopped ≡ false → c.cancelled ≡ false → c.worker ≢ crashed
    connected : c.stopped ≡ false → c.cancelled ≡ false → c.worker ≡ accepts → c.conn ≢ none

  carried : {c d : Client T} → IsAlive c → OnlyCloses ops c d → IsAlive d
  carried i k = record {
    running = λ s x h. i.running (sym k.stopped ∙ s) (sym k.cancelled ∙ x) (sym k.worker ∙ h);
    connected = λ s x h e.
        i.connected (sym k.stopped ∙ s) (sym k.cancelled ∙ x) (sym k.worker ∙ h) (sym k.conn ∙ e);
  }

  -- Where the worker is neither about to accept nor has crashed.
  elsewhere : (c : Client T) → c.worker ≢ crashed → c.worker ≢ accepts → IsAlive c
  elsewhere c n m = record { running = λ s x. n; connected = λ s x h. absurd (m h) }

  accepted-IsAlive : (c : Client T) (a : Accepted) → IsAlive (accepted ops c a)
  unfolding accepted
  accepted-IsAlive c a_stream = elsewhere _ (λ e. cc) (λ e. cc)
  accepted-IsAlive c canceled = elsewhere _ (λ e. cc) (λ e. cc)
  accepted-IsAlive c an_error = elsewhere _ (λ e. cc) (λ e. cc)

  accept-IsAlive :
      (c : Client T) (a : Accepted) → c.worker ≡ accepts → IsAlive c → IsAlive (accept ops c a)
  unfolding accept
  accept-IsAlive c a g i = elim (Option-cases c.conn) [
    | inl e ↦ rw e (record {
      running = λ s x. absurd (i.connected s x g e);
      connected = λ s x. absurd (i.connected s x g e);
    })
    | inr (p, e) ↦ rw (e, accept) (accepted-IsAlive c a)
  ]

  Step-IsAlive : {c c' : Client T} → IsAlive c → Step ops c c' → IsAlive c'
  unfolding needs_reconnect dial wrap set_transport
  Step-IsAlive i (finds_open c g o) = record {
    running = λ s x h. cc;
    connected = λ s x h e. absurd (ground (arith, o, e));
  }
  Step-IsAlive i (finds_none c g o) = elsewhere _ (λ e. cc) (λ e. cc)
  Step-IsAlive i (waited c g) = elsewhere _ (λ e. cc) (λ e. cc)
  Step-IsAlive i (waited_in_vain c g k) = record {
    running = λ s x h. cc;
    connected = λ s x h. absurd (ground (arith, k, x));
  }
  Step-IsAlive i (ends c g k) = elsewhere _ (λ e. cc) (λ e. cc)
  Step-IsAlive i (accepts_stream c a g) = accept-IsAlive c a g i
  Step-IsAlive i (cancels c) = record {
    running = λ s x. absurd (ground (arith, x));
    connected = λ s x. absurd (ground (arith, x));
  }
  Step-IsAlive i (stops c) = record {
    running = λ s. absurd (ground (arith, s));
    connected = λ s. absurd (ground (arith, s));
  }
  Step-IsAlive i (fails c w e) = carried i (close_at-OnlyCloses ops c w.transp)
  Step-IsAlive i (finds_closed c g o) = record { running = i.running; connected = i.connected }
  Step-IsAlive i (dial_fails c g) = record { running = i.running; connected = i.connected }
  Step-IsAlive i (dials c t g) = record { running = i.running; connected = i.connected }
  Step-IsAlive i (registers c p replies t bs g e) =
      let j =
        carried (record { running = i.running; connected = i.connected })
          (close_wrapper-OnlyCloses ops (set_transport ops c p t) c.conn_wrapper) in
      record { running = j.running; connected = j.connected }
  Step-IsAlive i (reconnects c p g) = record {
    running = i.running;
    connected = λ s x h e. absurd (ground (arith, e));
  }

  Runs-IsAlive : {t : T} {bs : List BackendConfig} {c : Client T} → Runs ops t bs c → IsAlive c
  unfolding started
  Runs-IsAlive start = elsewhere _ (λ e. cc) (λ e. cc)
  Runs-IsAlive (next run step) = Step-IsAlive (Runs-IsAlive run) step

  -- As long as nobody calls `Stop` and the context is not done, the worker never calls `AcceptStream`
  -- on a connection that is nil, whatever the reconnecting goroutine and those of the wrapper do in
  -- between.
  pub Runs-alive :
      (t : T) (bs : List BackendConfig) (c : Client T)
      → Runs ops t bs c
      → c.stopped ≡ false
      → c.cancelled ≡ false
      → c.worker ≢ crashed
  Runs-alive t bs c run s x = (Runs-IsAlive run).running s x

  pub data Steps (c : Client T) : Client T → Type 0 where
    nothing : Steps c c
    more : {d e : Client T} → Steps c d → Step ops d e → Steps c e

  -- But from a state in which the worker waits for a reconnection after `disconnect`, there are steps,
  -- the end of the context and two of the worker, to the call on the nil connection, which ends the
  -- program.
  pub waiting-crashes :
      (c : Client T)
      → c.worker ≡ waits
      → c.conn ≡ none
      → (d : Client T) × Steps c d × (d.worker ≡ crashed)
  unfolding accept
  waiting-crashes c g e =
      let b = record (record c { cancelled = true }) { worker = accepts } in
      (
        accept ops b canceled,
        more
            (more (more nothing (cancels c))
              (waited_in_vain (record c { cancelled = true }) g refl))
            (accepts_stream b canceled refl),
        ground (arith, e),
      )
