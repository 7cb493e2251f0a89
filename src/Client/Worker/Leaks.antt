-- ===== src/Client/Worker/Leaks.antt =====
-- That the client keeps no transport open but the one that it uses.
use gunnel.Prelude.{
  ℕ, ◌<◌, ◌≡◌, ◌⊎◌, refl, sym, ◌∙◌, ap, arith, List, Bool, true, false, Option, none, some, ◌==◌,
  inl, inr, Bool-cases, Option-cases,
}
use gunnel.Go.Slices.{done}
use gunnel.Transport.{Transport}
use gunnel.Client.Config.{BackendConfig}
use gunnel.Client.Register.{Reply, register_backends}
use gunnel.Client.Shared.{register_backends-closed}
use gunnel.Client.Worker.{
  Client, Accepted, a_stream, canceled, an_error, accepted, Reconnecter, Worker, waits, returned,
  finds_none, waited, waited_in_vain, ends, cancels, asks, accepts, crashed, sleeps, is_needed,
  dialled, registered, needs_reconnect, set_transport, disconnect, accept, dial, wrap, Step,
  finds_open, accepts_stream, stops, fails, finds_closed, dial_fails, dials, registers, reconnects,
  started, Runs, start, next,
}
use gunnel.Client.Worker.Closing.{
  Closed, OnlyCloses, close_at-OnlyCloses, close_wrapper-OnlyCloses, IsDisconnected,
  disconnect-IsDisconnected,
}

-- The transport that is being set up.
abbrev pub in_hand : Reconnecter → Option ℕ
in_hand sleeps = none
in_hand is_needed = none
in_hand (dialled p) = some p
in_hand (registered p) = some p

abbrev is_asleep : Reconnecter → Bool
is_asleep sleeps = true
is_asleep _ = false

module _ {T S : Type 0} (ops : Transport T S) where
  record IsTidy (c : Client T) : Type 0 where
    used_up : (q : ℕ) → is_asleep c.reconnecter ≡ false → c.conn ≡ some q → Closed ops c q
    conn_bound : (q : ℕ) → c.conn ≡ some q → q < c.count
    hand_bound : (q : ℕ) → in_hand c.reconnecter ≡ some q → q < c.count
    accounted :
        (q : ℕ)
        → q < c.count
        → Closed ops c q ⊎ ((c.conn ≡ some q) ⊎ (in_hand c.reconnecter ≡ some q))

  carried : {c d : Client T} → IsTidy c → OnlyCloses ops c d → IsTidy d
  carried i k = record {
    used_up = λ q a h. k.closed q (i.used_up q (rw (← k.reconnecter) a) (rw (← k.conn) h));
    conn_bound = λ q h. rw k.count (i.conn_bound q (rw (← k.conn) h));
    hand_bound = λ q h. rw k.count (i.hand_bound q (rw (← k.reconnecter) h));
    accounted = λ q l. elim (i.accounted q (rw (← k.count) l)) [
      | inl h ↦ inl (k.closed q h)
      | inr (inl h) ↦ inr (inl (k.conn ∙ h))
      | inr (inr h) ↦ inr (inr (rw k.reconnecter h))
    ];
  }

  disconnected : {c d : Client T} → IsTidy c → IsDisconnected ops c d → IsTidy d
  disconnected i k = record {
    used_up = λ q a h. absurd (ground (arith, h, k.conn));
    conn_bound = λ q h. absurd (ground (arith, h, k.conn));
    hand_bound = λ q h. rw k.count (i.hand_bound q (rw (← k.reconnecter) h));
    accounted = λ q l. elim (i.accounted q (rw (← k.count) l)) [
      | inl h ↦ inl (k.closed q h)
      | inr (inl h) ↦ inl (k.gone q h)
      | inr (inr h) ↦ inr (inr (rw k.reconnecter h))
    ];
  }

  flagged :
      {c : Client T} → IsTidy c → (a b : Bool) → IsTidy (record c { stopped = a; cancelled = b })
  flagged i a b = record {
    used_up = i.used_up;
    conn_bound = i.conn_bound;
    hand_bound = i.hand_bound;
    accounted = i.accounted;
  }

  relabelled : {c : Client T} → IsTidy c → (w : Worker) → IsTidy (record c { worker = w })
  relabelled i w = record {
    used_up = i.used_up;
    conn_bound = i.conn_bound;
    hand_bound = i.hand_bound;
    accounted = i.accounted;
  }

  accepted-IsTidy : (c : Client T) (a : Accepted) → IsTidy c → IsTidy (accepted ops c a)
  unfolding accepted
  accepted-IsTidy c a_stream i = relabelled i asks
  accepted-IsTidy c canceled i = relabelled i returned
  accepted-IsTidy c an_error i = relabelled (disconnected i (disconnect-IsDisconnected ops c)) asks

  accept-IsTidy : (c : Client T) (a : Accepted) → IsTidy c → IsTidy (accept ops c a)
  unfolding accept
  accept-IsTidy c a i = elim (Option-cases c.conn) [
    | inl e ↦ rw (e, accept) (relabelled i crashed)
    | inr (p, e) ↦ rw (e, accept) (accepted-IsTidy c a i)
  ]

  set_transport-OnlyCloses :
      (c : Client T) (p : ℕ) (t : T)
      → (Closed ops c p → ops.is_closed t ≡ true)
      → OnlyCloses ops c (set_transport ops c p t)
  unfolding set_transport
  set_transport-OnlyCloses c p t h = record {
    conn = refl;
    worker = refl;
    reconnecter = refl;
    count = refl;
    stopped = refl;
    cancelled = refl;
    closed = λ q k. elim (Bool-cases (q == p)) [
      | inr n ↦ rw n k
      | inl y ↦ let at_p : q ≡ p = ground (arith, y) in rw y (h (rw (← at_p) k))
    ];
  }

  -- A new transport stands at an address that nobody has.
  dial-Closed :
      (c : Client T) (t : T) (q : ℕ) → q < c.count → Closed ops c q → Closed ops (dial ops c t) q
  unfolding dial set_transport
  dial-Closed c t q l h = let old : (q == c.count) ≡ false = ground arith in rw old h

  dial-IsTidy :
      (c : Client T) (t : T) → c.reconnecter ≡ is_needed → IsTidy c → IsTidy (dial ops c t)
  unfolding dial set_transport
  dial-IsTidy c t g i = record {
    used_up = λ q _ h. dial-Closed c t q (i.conn_bound q h) (i.used_up q (rw g refl) h);
    conn_bound = λ q h. omega (arith, i.conn_bound q h);
    hand_bound = λ q h. ground (arith, h);
    accounted = λ q l. elim (Bool-cases (q == c.count)) [
      | inl y ↦ inr (inr (ground (arith, y)))
      | inr n ↦
          let lt : q < c.count = ground (arith, l, n) in
          elim (i.accounted q lt) [
            | inl h ↦ inl (dial-Closed c t q lt h)
            | inr (inl h) ↦ inr (inl h)
            | inr (inr h) ↦ absurd (ground (arith, ap in_hand g, h))
          ]
    ];
  }

  wrap-IsTidy :
      (c : Client T) (p : ℕ) (replies : ℕ → Reply) (t : T) (bs : List BackendConfig)
      → c.reconnecter ≡ dialled p
      → register_backends ops (c.transports p) replies 0 c.backends ≡ done (t, bs)
      → IsTidy c
      → IsTidy (wrap ops c p t bs)
  unfolding wrap
  wrap-IsTidy c p replies t bs g e i =
      let k =
        set_transport-OnlyCloses c p t
          (register_backends-closed ops (c.transports p) replies 0 c.backends t bs e) in
      let k' = close_wrapper-OnlyCloses ops (set_transport ops c p t) c.conn_wrapper in
      let j = carried (carried i k) k' in
      let hand = k'.reconnecter ∙ k.reconnecter ∙ g in
      record {
        used_up = λ q a h. j.used_up q (ap is_asleep hand) h;
        conn_bound = j.conn_bound;
        hand_bound = λ q h. j.hand_bound q (ap in_hand hand ∙ h);
        accounted = λ q l. elim (j.accounted q l) [
          | inl h ↦ inl h
          | inr (inl h) ↦ inr (inl h)
          | inr (inr h) ↦ inr (inr (ap in_hand (sym hand) ∙ h))
        ];
      }

  reconnect-IsTidy :
      (c : Client T) (p : ℕ)
      → c.reconnecter ≡ registered p
      → IsTidy c
      → IsTidy (record c { conn = some p; reconnecter = sleeps })
  reconnect-IsTidy c p g i = record {
    used_up = λ q a h. absurd (ground (arith, a));
    conn_bound = λ q h. i.hand_bound q (rw g h);
    hand_bound = λ q h. absurd (ground (arith, h));
    accounted = λ q l. elim (i.accounted q l) [
      | inl h ↦ inl h
      | inr (inl h) ↦ inl (i.used_up q (ap is_asleep g) h)
      | inr (inr h) ↦ inr (inl (ap in_hand (sym g) ∙ h))
    ];
  }

  resting :
      {c : Client T} {r : Reconnecter}
      → IsTidy c
      → c.reconnecter ≡ r
      → (q : ℕ) → q < c.count
      → Closed ops c q ⊎ ((c.conn ≡ some q) ⊎ (in_hand r ≡ some q))
  resting i g q l = elim (i.accounted q l) [
    | inl h ↦ inl h
    | inr (inl h) ↦ inr (inl h)
    | inr (inr h) ↦ inr (inr (ap in_hand (sym g) ∙ h))
  ]

  Step-IsTidy : {c c' : Client T} → IsTidy c → Step ops c c' → IsTidy c'
  Step-IsTidy i (finds_open c g o) = relabelled i accepts
  Step-IsTidy i (finds_none c g o) = relabelled i waits
  Step-IsTidy i (waited c g) = relabelled i asks
  Step-IsTidy i (waited_in_vain c g k) = relabelled i accepts
  Step-IsTidy i (ends c g k) = relabelled i returned
  Step-IsTidy i (accepts_stream c a g) = accept-IsTidy c a i
  Step-IsTidy i (cancels c) = flagged i c.stopped true
  Step-IsTidy i (stops c) =
      flagged (disconnected i (disconnect-IsDisconnected ops c)) true (disconnect ops c).cancelled
  Step-IsTidy i (fails c w e) = carried i (close_at-OnlyCloses ops c w.transp)
  Step-IsTidy i (finds_closed c g o) = record {
    used_up = λ q a h. unfold needs_reconnect in ground (arith, o, h);
    conn_bound = i.conn_bound;
    hand_bound = λ q h. absurd (ground (arith, h));
    accounted = λ q l. resting i g q l;
  }
  Step-IsTidy i (dial_fails c g) = record {
    used_up = λ q a h. absurd (ground (arith, a));
    conn_bound = i.conn_bound;
    hand_bound = λ q h. absurd (ground (arith, h));
    accounted = λ q l. resting i g q l;
  }
  Step-IsTidy i (dials c t g) = dial-IsTidy c t g i
  Step-IsTidy i (registers c p replies t bs g e) = wrap-IsTidy c p replies t bs g e i
  Step-IsTidy i (reconnects c p g) = reconnect-IsTidy c p g i

  Runs-IsTidy : {t : T} {bs : List BackendConfig} {c : Client T} → Runs ops t bs c → IsTidy c
  unfolding started
  Runs-IsTidy start = record {
    used_up = λ q a h. absurd (ground (arith, a));
    conn_bound = λ q h. ground (arith, h);
    hand_bound = λ q h. absurd (ground (arith, h));
    accounted = λ q l. inr (inl (ground (arith, l)));
  }
  Runs-IsTidy (next run step) = Step-IsTidy (Runs-IsTidy run) step

  -- At any time every transport that the client has dialled is closed, but its connection and one
  -- that is being set up: no disconnection, failure or reconnection leaves one open behind it.
  pub Runs-accounted :
      (t : T) (bs : List BackendConfig) (c : Client T) (p : ℕ)
      → Runs ops t bs c
      → p < c.count
      → Closed ops c p ⊎ ((c.conn ≡ some p) ⊎ (in_hand c.reconnecter ≡ some p))
  Runs-accounted t bs c p run l = (Runs-IsTidy run).accounted p l
