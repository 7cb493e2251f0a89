-- ===== src/Manager/Serving/Crash.antt =====
-- What becomes of a handler whose goroutine has stopped accepting streams.
use gunnel.Prelude.{ℕ, ◌≡◌, ◌⊎◌, refl, arith, true, inl, inr}
use gunnel.Transport.{Transport}
use gunnel.Manager.Registry.{Manager}
use gunnel.Manager.Serving.{
  accepting, ended, is_running, accept_fails, after_accept, Handler, selecting, returned, panicked,
  Serving, begun, crash, finish, Step, accepts, takes_stream, takes_nil, registers,
  takes_registration, context_ends, others, returns, Steps, nothing, more,
}

-- What a failing `AcceptStream` leads to.
abbrev pub accept_failed : {T : Type 0} → Serving T → Serving T
accept_failed s = record s { acceptor = after_accept accept_fails }

module _ {T S : Type 0} (ops : Transport T S) (id : ℕ) where
  -- The program ends only by the closed channel, and the handler returns only at the context's end.
  record IsExplained (s : Serving T) : Type 0 where
    crashed : s.handler ≡ panicked → s.acceptor ≡ ended
    left : s.handler ≡ returned → s.context_done ≡ true

  Step-IsExplained : {a b : Serving T} → IsExplained a → Step ops id a b → IsExplained b
  unfolding finish
  Step-IsExplained i (accepts s a g h) = record {
    crashed = λ e. absurd (ground (arith, e, g));
    left = i.left;
  }
  Step-IsExplained i (takes_stream s g h) = record {
    crashed = λ e. absurd (ground (arith, e, g));
    left = i.left;
  }
  Step-IsExplained i (takes_nil s g h) = record {
    crashed = λ e. h;
    left = λ e. absurd (ground (arith, e));
  }
  Step-IsExplained i (registers s reg m r g e) = record { crashed = i.crashed; left = i.left }
  Step-IsExplained i (takes_registration s r g e) = record { crashed = i.crashed; left = i.left }
  Step-IsExplained i (context_ends s g) = record { crashed = i.crashed; left = λ e. refl }
  Step-IsExplained i (others s m g) = record { crashed = i.crashed; left = i.left }
  Step-IsExplained i (returns s g h) = record {
    crashed = λ e. absurd (ground (arith, e));
    left = λ e. h;
  }

  begun-IsExplained : (m : Manager T) → IsExplained (begun m)
  begun-IsExplained m = record {
    crashed = λ e. absurd (ground (arith, e));
    left = λ e. absurd (ground (arith, e));
  }

  Steps-IsExplained : {a b : Serving T} → IsExplained a → Steps ops id a b → IsExplained b
  Steps-IsExplained i nothing = i
  Steps-IsExplained i (more run step) = Step-IsExplained (Steps-IsExplained i run) step

  ended_stays : {a b : Serving T} → Step ops id a b → a.acceptor ≡ ended → b.acceptor ≡ ended
  unfolding finish
  ended_stays (accepts s a g h) e = absurd (ground (arith, e, h))
  ended_stays (takes_stream s g h) e = absurd (ground (arith, e, h))
  ended_stays (takes_nil s g h) e = e
  ended_stays (registers s reg m r g x) e = e
  ended_stays (takes_registration s r g x) e = e
  ended_stays (context_ends s g) e = e
  ended_stays (others s m g) e = e
  ended_stays (returns s g h) e = e

  Steps-ended : {a b : Serving T} → Steps ops id a b → a.acceptor ≡ ended → b.acceptor ≡ ended
  Steps-ended nothing e = e
  Steps-ended (more run step) e = ended_stays step (Steps-ended run e)

  now_or_never :
      (s : Serving T) (h : Handler)
      → s.handler ≡ h
      → IsExplained s
      → s.acceptor ≡ ended
      → Step ops id s (crash s)
        ⊎ ((s.handler ≡ panicked) ⊎ ((s.handler ≡ returned) × (s.context_done ≡ true)))
  now_or_never s selecting g i e = inl (takes_nil s g e)
  now_or_never s returned g i e = inr (inr (g, i.left g))
  now_or_never s panicked g i e = inr (inl g)

  accept_fails-ended : (s : Serving T) → (accept_failed s).acceptor ≡ ended
  unfolding after_accept
  accept_fails-ended s = refl

  -- `AcceptStream` fails in a run, for another reason than its five seconds, while the program runs.
  -- At any later time, whatever this handler and the others did in between, no stream of this
  -- connection is accepted any more; and the next step of the handler can be the receive from the
  -- closed channel, which ends the program, unless that has happened or the handler has returned,
  -- for which the transport's context had to be done.
  pub Steps-panicked :
      (m : Manager T) (s s' : Serving T)
      → Steps ops id (begun m) s
      → is_running s.handler ≡ true
      → s.acceptor ≡ accepting
      → Steps ops id (accept_failed s) s'
      → (s'.acceptor ≡ ended)
        × (Step ops id s' (crash s')
            ⊎ ((s'.handler ≡ panicked) ⊎ ((s'.handler ≡ returned) × (s'.context_done ≡ true))))
  Steps-panicked m s s' run on at later =
      let failed =
        Step-IsExplained (Steps-IsExplained (begun-IsExplained m) run)
          (accepts s accept_fails on at) in
      let e = Steps-ended later (accept_fails-ended s) in
      (e, now_or_never s' s'.handler refl (Steps-IsExplained failed later) e)
