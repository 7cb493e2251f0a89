-- ===== src/Transport/Pool/Runs.antt =====
-- Everything that happens to a transport, and what then holds of it.
use gunnel.Prelude.{
  ℕ, ◌+◌, ◌≡◌, ◌<◌, refl, sym, ◌∙◌, ap, subst, arith, [], ◌∷◌, Bool, true, false, Option, none,
  some, Bytes, Bool-cases, inl, inr, List, fun_ext, ==_iff, ◌==◌,
}
use mathlib.Core.List.{Memᴰ}
use gunnel.Go.Slices.{done}
use gunnel.Transport.Stream.{
  StreamClient, Shared, set_subdomain, set_id, count_in, count_out, is_valid, close,
}
use gunnel.Transport.Pool.{
  Network, ConnectionTransport, default_pool_config, set_stream, new_stream, add_stream, add_opened,
  blank, with_root, new_wrapper, new_from_server, close_stream, acquire, accept_stream, release,
  shut, close_all, close_transport, valid_stream,
}
use gunnel.Transport.Pool.Cleanup.{
  find_inactive_stream_ids, remove_streams, cleanup_closed_streams, cleanup_idle_pool,
}
use gunnel.Transport.Pool.Tame.{
  set_stream-IsTame, set_subdomain-IsMilder, close_stream-IsTame, close_streams-IsTame, ClosesWell,
}
use gunnel.Transport.Pool.Sound.{IsSound, IsTame-IsSound, rest-IsSound, add_opened-IsSound}
use gunnel.Transport.Pool.Kept.{
  close_root-IsTame, acquire-IsSound, release-IsSound, close_transport-IsSound,
  remove_streams-IsSound, cleanup_closed_streams-IsSound, cleanup_idle_pool-IsSound,
}

module _ (net : Network) where
  -- A transport and the number of calls of `Acquire` on it. Time passes, other transports move the
  -- shared counters, and whoever holds a stream uses and closes it.
  pub data Runs : ConnectionTransport → ℕ → Type 0 where
    dials :
        {t : ConnectionTransport} (now : ℕ) (store : ℕ → StreamClient) (w : Shared)
        → new_wrapper net now store w ≡ some t
        → Runs t 0
    answers :
        {t : ConnectionTransport} (now : ℕ) (store : ℕ → StreamClient) (w : Shared)
        → new_from_server net now store w ≡ some t
        → Runs t 0
    waits :
        {t : ConnectionTransport} {n : ℕ} (d : ℕ) → Runs t n → Runs (record t { now = t.now + d }) n
    others :
        {t : ConnectionTransport} {n : ℕ} (w : Shared) → Runs t n → Runs (record t { shared = w }) n
    acquires : {t : ConnectionTransport} {n : ℕ} → Runs t n → Runs (acquire net t).0 (n + 1)
    accepts : {t : ConnectionTransport} {n : ℕ} → Runs t n → Runs (accept_stream net t).0 n
    releases :
        {t t' : ConnectionTransport} {n : ℕ} {ok : Bool} (p : ℕ)
        → Runs t n
        → p < t.next
        → release net t p ≡ done (t', ok)
        → Runs t' n
    reads :
        {t : ConnectionTransport} {n : ℕ} (p k : ℕ)
        → Runs t n
        → Runs (set_stream t p (count_in t.now k (t.store p) t.shared)) n
    writes :
        {t : ConnectionTransport} {n : ℕ} (p k : ℕ)
        → Runs t n
        → Runs (set_stream t p (count_out t.now k (t.store p) t.shared)) n
    names :
        {t : ConnectionTransport} {n : ℕ} (p : ℕ) (subdomain : Bytes)
        → Runs t n
        → Runs (set_stream t p (set_subdomain (t.store p) t.shared subdomain)) n
    relabels :
        {t : ConnectionTransport} {n : ℕ} (p : ℕ) (id : Bytes)
        → Runs t n
        → Runs (set_stream t p (set_id (t.store p) id, t.shared)) n
    ends : {t : ConnectionTransport} {n : ℕ} (p : ℕ) → Runs t n → Runs (close_stream net t p).0 n
    closes : {t : ConnectionTransport} {n : ℕ} → Runs t n → Runs (close_transport net t) n
    sweeps : {t : ConnectionTransport} {n : ℕ} → Runs t n → Runs (cleanup_closed_streams t) n
    removes :
        {t : ConnectionTransport} {n : ℕ} (max : ℕ)
        → Runs t n
        → Runs (remove_streams net t (find_inactive_stream_ids t max)) n
    tidies :
        {t t' : ConnectionTransport} {n : ℕ} (fuel : ℕ)
        → Runs t n
        → cleanup_idle_pool net fuel t ≡ some (done t')
        → Runs t' n

  blank-IsSound :
      (now : ℕ) (store : ℕ → StreamClient) (w : Shared) (server : Bool)
      → IsSound net (blank now store w server) 0
  unfolding blank default_pool_config
  blank-IsSound now store w server = record {
    room = omega arith;
    channel = refl;
    drained = inl refl;
    counted = omega arith;
    enabled = refl;
    idle = λ p m. elim m [ ];
    known = λ p m. elim m [ ];
    listed = λ p k c. absurd (omega (arith, k));
  }

  abbrev OrNone : ℕ → Option ConnectionTransport → Type 0
  OrNone n none = Unit {0}
  OrNone n (some t) = IsSound net t n

  with_root-IsSound :
      {t t' : ConnectionTransport} (opened : Option Bytes)
      → IsSound net t 0
      → with_root t opened ≡ some t'
      → IsSound net t' 0
  unfolding with_root new_stream add_stream set_stream add_opened
  with_root-IsSound none s e = absurd (ground (arith, e))
  with_root-IsSound {t} (some id) s e = subst (OrNone 0) e (
      rest-IsSound net t.now (some (new_stream t id).1) (new_stream t id).0.shared t.pool_gauge
        (add_opened-IsSound net (some id) s))

  -- Whatever happens to a transport: its pool never holds more streams than it has room for, is
  -- closed exactly with the transport and then empty, and holds no stream that counts as active;
  -- every call of `Acquire` counts as one hit or one miss; and every stream that is open is in the
  -- list of streams, unless QUIC at some time fails to close it.
  pub Runs-IsSound : {t : ConnectionTransport} {n : ℕ} → Runs t n → IsSound net t n
  unfolding new_wrapper new_from_server accept_stream count_in count_out set_id
  Runs-IsSound (dials now store w e) =
      with_root-IsSound (net.open_stream now) (blank-IsSound now store w false) e
  Runs-IsSound (answers now store w e) =
      with_root-IsSound (net.accept_stream now) (blank-IsSound now store w true) e
  Runs-IsSound (waits {t} {n} d run) =
      rest-IsSound net (t.now + d) t.root t.shared t.pool_gauge (Runs-IsSound run)
  Runs-IsSound (others {t} {n} w run) =
      rest-IsSound net t.now t.root w t.pool_gauge (Runs-IsSound run)
  Runs-IsSound (acquires run) = acquire-IsSound net (Runs-IsSound run)
  Runs-IsSound (accepts {t} run) =
      add_opened-IsSound net (net.accept_stream t.now) (Runs-IsSound run)
  Runs-IsSound (releases p run k e) = release-IsSound net p (Runs-IsSound run) k e
  Runs-IsSound (reads {t} p k run) =
      IsTame-IsSound net (set_stream-IsTame t p _ _ (record { idle = λ h. h; shut = λ h. h }))
        (Runs-IsSound run)
  Runs-IsSound (writes {t} p k run) =
      IsTame-IsSound net (set_stream-IsTame t p _ _ (record { idle = λ h. h; shut = λ h. h }))
        (Runs-IsSound run)
  Runs-IsSound (names {t} p sub run) =
      IsTame-IsSound net
        (set_stream-IsTame t p _ _ (set_subdomain-IsMilder (t.store p) t.shared sub))
        (Runs-IsSound run)
  Runs-IsSound (relabels {t} p id run) =
      IsTame-IsSound net (set_stream-IsTame t p _ _ (record { idle = λ h. h; shut = λ h. h }))
        (Runs-IsSound run)
  Runs-IsSound (ends {t} p run) =
      IsTame-IsSound net (close_stream-IsTame net t p) (Runs-IsSound run)
  Runs-IsSound (closes run) = close_transport-IsSound net (Runs-IsSound run)
  Runs-IsSound (sweeps run) = cleanup_closed_streams-IsSound net (Runs-IsSound run)
  Runs-IsSound (removes max run) = remove_streams-IsSound net max (Runs-IsSound run)
  Runs-IsSound (tidies fuel run e) = cleanup_idle_pool-IsSound net fuel (Runs-IsSound run) e

  no_member : (p : ℕ) (xs : List ℕ) → xs ≡ [] → ¬ Memᴰ p xs
  no_member p [] e m = elim m [ ]
  no_member p (x ∷ xs) e m = absurd (ground (arith, e))

  closed_as :
      (t : ConnectionTransport)
      → t.closed ≡ false
      → net.client_close_fails t.now ≡ false
      → close_transport net t ≡ close_all net (shut net t)
  unfolding close_transport
  closed_as t c f = simp (c, f)

  shut-closed : (t : ConnectionTransport) → (shut net t).closed ≡ true
  unfolding shut
  shut-closed t = ap (λ u. u.closed) (close_root-IsTame net (record t { closed = true })).same

  close_all-empty :
      (t : ConnectionTransport)
      → ((close_all net t).streams ≡ []) × ((close_all net t).closed ≡ t.closed)
  unfolding close_all
  close_all-empty t = (refl, ap (λ u. u.closed) (close_streams-IsTame net t t.streams).same)

  closed_empty :
      (t : ConnectionTransport)
      → t.closed ≡ false
      → net.client_close_fails t.now ≡ false
      → ((close_transport net t).streams ≡ []) × ((close_transport net t).closed ≡ true)
  closed_empty t c f =
      let e = closed_as t c f in
      let (a, b) = close_all-empty (shut net t) in
      (ap (λ u. u.streams) e ∙ a, ap (λ u. u.closed) e ∙ b ∙ shut-closed t)

  set_stream-same : (t : ConnectionTransport) (p : ℕ) → set_stream t p (t.store p, t.shared) ≡ t
  unfolding set_stream
  set_stream-same t p =
      ap {A = ℕ → StreamClient} {B = ConnectionTransport} (λ f. record t { store = f })
        (fun_ext λ q. elim (Bool-cases (q == p)) [
          | inl e ↦ rw e (ap t.store (sym ((==_iff q p).0 e)))
          | inr e ↦ rw e refl
        ])

  release-shut :
      (t : ConnectionTransport) (p : ℕ)
      → (t.store p).is_open ≡ false
      → release net t p ≡ done (t, true)
  unfolding release valid_stream is_valid close_stream close
  release-shut t p h = simp (h, set_stream-same t p)

  -- If `Close` finds the transport open, the client closes without an error, and no `Acquire`,
  -- `Release` or `AcceptStream` has begun and not ended, then afterwards the
  -- list of streams and the pool are empty, and every stream that was ever made is closed, but for
  -- those that QUIC at some time fails to close; releasing one of them later does not panic and
  -- changes nothing but that stream.
  pub close_transport-all :
      {t : ConnectionTransport} {n : ℕ}
      → Runs t n
      → t.closed ≡ false
      → net.client_close_fails t.now ≡ false
      → (p : ℕ) → p < (close_transport net t).next
      → ClosesWell net p
      → ((close_transport net t).streams ≡ [])
        × ((close_transport net t).pool ≡ [])
        × (((close_transport net t).store p).is_open ≡ false)
        × (release net (close_transport net t) p ≡ done (close_transport net t, true))
  close_transport-all {t} run c f p k w =
      let s = Runs-IsSound (closes run) in
      let e = closed_empty t c f in
      let gone : ((close_transport net t).store p).is_open ≡ false = elim (s.listed p k w) [
        | inl m ↦ absurd (no_member p _ e.0 m)
        | inr h ↦ h
      ] in
      (
        e.0,
        (elim s.drained [ inl x ↦ absurd (ground (arith, x, e.1)) | inr y ↦ y ]),
        gone,
        release-shut (close_transport net t) p gone,
      )
