-- ===== src/Transport/Pool/Reuse.antt =====
-- `Acquire` on every branch, and what becomes of a stream that is taken out of the pool.
use gunnel.Prelude.{
  ℕ, ◌+◌, ◌≡◌, ◌⊎◌, refl, sym, ◌∙◌, ap, arith, List, [], ◌∷◌, ◌++◌, true, false, Option, none, some,
  Bytes, Bool-cases, inl, inr,
}
use mathlib.Core.List.{Memᴰ}
use gunnel.Metrics.{fresh_info}
use gunnel.Transport.Stream.{new_stream_handler}
use gunnel.Transport.Pool.{
  Network, ConnectionTransport, set_stream, new_stream, add_stream, add_opened, open_new, miss,
  stream, take_pooled, use_taken, valid_stream, close_stream, acquire,
}
use gunnel.Transport.Pool.Cleanup.{sweep, forget, cleanup_closed_streams}
use gunnel.Transport.Pool.Tame.{forget_shut, forget-IsTame, sweep-IsTame, close_stream-IsTame}
use gunnel.Transport.Pool.Sound.{Mem-last}
use gunnel.Transport.Pool.Kept.{List-cases}
use gunnel.Transport.Pool.Runs.{Runs, Runs-IsSound}

module _ (net : Network) where
  -- The first stream of the pool is handed out again.
  pub record IsReused (t t' : ConnectionTransport) (p : ℕ) : Type 0 where
    pub was_pooled : Memᴰ p t.pool
    pub was_valid : valid_stream net t p ≡ true
    pub unchanged : t'.store ≡ t.store
    pub appended : t'.streams ≡ t.streams ++ p ∷ []
    pub hits : t'.pool_hits ≡ t.pool_hits + 1
    pub misses : t'.pool_misses ≡ t.pool_misses

  -- QUIC opens a stream, which is open, active and in the list.
  pub record IsOpened (t t' : ConnectionTransport) (p : ℕ) : Type 0 where
    pub next : p ≡ t.next
    pub open_now : (t'.store p).is_open ≡ true
    pub active : (t'.store p).metrics_info.is_active ≡ true
    pub appended : t'.streams ≡ t.streams ++ p ∷ []
    pub hits : t'.pool_hits ≡ t.pool_hits
    pub misses : t'.pool_misses ≡ t.pool_misses + 1

  opened_now :
      (t t' : ConnectionTransport) (p : ℕ) (r : Option Bytes)
      → add_opened net t r ≡ (t', some p)
      → (p ≡ t.next)
        × ((t'.store p).is_open ≡ true)
        × ((t'.store p).metrics_info.is_active ≡ true)
        × (t'.streams ≡ t.streams ++ p ∷ [])
        × (t'.pool_hits ≡ t.pool_hits)
        × (t'.pool_misses ≡ t.pool_misses)
  unfolding add_opened new_stream add_stream set_stream new_stream_handler fresh_info
  opened_now t t' p none e = absurd (ground (arith, e))
  opened_now t t' p (some id) e = ground (arith, e)

  acquire_empty :
      (t : ConnectionTransport)
      → t.pool_config.enabled ≡ true
      → t.pool ≡ []
      → acquire net t ≡ open_new net (miss t)
  unfolding acquire take_pooled use_taken
  acquire_empty t on e = ground (arith, on, e)

  acquire_next :
      (t : ConnectionTransport) (p : ℕ) (ps : List ℕ)
      → t.pool_config.enabled ≡ true
      → t.pool ≡ p ∷ ps
      → acquire net t ≡ use_taken net (record t { pool = ps }) (stream p)
  unfolding acquire take_pooled
  acquire_next t p ps on e = ground (arith, on, e)

  open_new-IsOpened :
      (t u t' : ConnectionTransport) (p : ℕ)
      → u.next ≡ t.next
      → u.streams ≡ t.streams
      → u.pool_hits ≡ t.pool_hits
      → u.pool_misses ≡ t.pool_misses + 1
      → open_new net u ≡ (t', some p)
      → IsOpened t t' p
  unfolding open_new
  open_new-IsOpened t u t' p n l h m e =
      let (a, b, c, d, f, g) = opened_now u t' p (net.open_stream u.now) e in
      record {
        next = a ∙ n;
        open_now = b;
        active = c;
        appended = d ∙ ap (λ xs. xs ++ p ∷ []) l;
        hits = f ∙ h;
        misses = g ∙ m;
      }

  taken_valid :
      (t : ConnectionTransport) (q : ℕ) (ps : List ℕ)
      → valid_stream net t q ≡ true
      → use_taken net (record t { pool = ps }) (stream q)
        ≡ (record (add_stream (record t { pool = ps }) q) { pool_hits = t.pool_hits + 1 }, some q)
  unfolding use_taken valid_stream
  taken_valid t q ps v = simp v

  taken_invalid :
      (t : ConnectionTransport) (q : ℕ) (ps : List ℕ)
      → valid_stream net t q ≡ false
      → use_taken net (record t { pool = ps }) (stream q)
        ≡ open_new net (close_stream net (miss (record t { pool = ps })) q).0
  unfolding use_taken valid_stream
  taken_invalid t q ps v = simp v

  use_taken-IsReused :
      (t t' : ConnectionTransport) (p q : ℕ) (ps : List ℕ)
      → t.pool ≡ q ∷ ps
      → valid_stream net t q ≡ true
      → use_taken net (record t { pool = ps }) (stream q) ≡ (t', some p)
      → IsReused t t' p
  unfolding add_stream
  use_taken-IsReused t t' p q ps e v h =
      let d = sym h ∙ taken_valid t q ps v in
      let same : p ≡ q = ground (arith, ap (λ x. x.1) d) in
      record {
        was_pooled = rw (e, same) (Memᴰ.head refl);
        was_valid = rw same v;
        unchanged = ap (λ x. x.0.store) d;
        appended = ap (λ x. x.0.streams) d ∙ rw same refl;
        hits = ap (λ x. x.0.pool_hits) d;
        misses = ap (λ x. x.0.pool_misses) d;
      }

  use_taken-IsOpened :
      (t t' : ConnectionTransport) (p q : ℕ) (ps : List ℕ)
      → valid_stream net t q ≡ false
      → use_taken net (record t { pool = ps }) (stream q) ≡ (t', some p)
      → IsOpened t t' p
  unfolding miss
  use_taken-IsOpened t t' p q ps v h =
      let x = close_stream-IsTame net (miss (record t { pool = ps })) q in
      open_new-IsOpened t (close_stream net (miss (record t { pool = ps })) q).0 t' p
        (ap (λ u. u.next) x.same) (ap (λ u. u.streams) x.same) (ap (λ u. u.pool_hits) x.same)
        (ap (λ u. u.pool_misses) x.same) (sym (taken_invalid t q ps v) ∙ h)

  -- A stream that `Acquire` returns was either the first of the pool and valid, and is handed out
  -- untouched and counted as a hit, or was opened just now, which counts as a miss; either way it is
  -- put at the end of the list of streams.
  pub acquire_cases :
      {t : ConnectionTransport} {n : ℕ}
      → Runs net t n
      → (t' : ConnectionTransport) (p : ℕ) → acquire net t ≡ (t', some p)
      → IsReused t t' p ⊎ IsOpened t t' p
  acquire_cases {t} run t' p e =
      let on = (Runs-IsSound net run).enabled in
      elim (List-cases t.pool) [
        | inl none_left ↦ inr (
            open_new-IsOpened t (miss t) t' p (unfold miss in refl) (unfold miss in refl)
              (unfold miss in refl) (unfold miss in refl) (sym (acquire_empty t on none_left) ∙ e))
        | inr (q, (ps, pool)) ↦
            let taken = sym (acquire_next t q ps on pool) ∙ e in
            elim (Bool-cases (valid_stream net t q)) [
              | inl v ↦ inl (use_taken-IsReused t t' p q ps pool v taken)
              | inr v ↦ inr (use_taken-IsOpened t t' p q ps v taken)
            ]
      ]

  sweep-gone :
      (t : ConnectionTransport) (ps : List ℕ) (p : ℕ)
      → (t.store p).metrics_info.is_active ≡ false
      → Memᴰ p ps
      → ((sweep t ps).0.store p).is_open ≡ false
  unfolding sweep
  sweep-gone t [] p i m = elim m [ ]
  sweep-gone t (q ∷ ps) p i (Memᴰ.head e) =
      let i' : (t.store q).metrics_info.is_active ≡ false = rw⁻¹ e i in
      rw i' ((sweep-IsTame (forget t q) ps).shut p (rw⁻¹ e (forget_shut t p)))
  sweep-gone t (q ∷ ps) p i (Memᴰ.tail m) = elim (Bool-cases (t.store q).metrics_info.is_active) [
    | inl a ↦ rw a (sweep-gone t ps p i m)
    | inr a ↦ rw a (sweep-gone (forget t q) ps p ((forget-IsTame t q).idle p i) m)
  ]

  -- A stream that `Acquire` takes out of the pool still counts as not active: `LenActive` never
  -- counts it, and the next `cleanupClosedStreams` closes it under whoever acquired it.
  pub reused-gone :
      {t : ConnectionTransport} {n : ℕ}
      → Runs net t n
      → (t' : ConnectionTransport) (p : ℕ) → acquire net t ≡ (t', some p)
      → t'.pool_hits ≡ t.pool_hits + 1
      → ((t'.store p).metrics_info.is_active ≡ false)
        × (((cleanup_closed_streams t').store p).is_open ≡ false)
  unfolding cleanup_closed_streams
  reused-gone {t} run t' p e hit = elim (acquire_cases run t' p e) [
    | inr o ↦ absurd (omega (arith, o.hits, hit))
    | inl r ↦
        let i : (t'.store p).metrics_info.is_active ≡ false =
          rw r.unchanged ((Runs-IsSound net run).idle p r.was_pooled) in
        (i, sweep-gone t' t'.streams p i (rw r.appended (Mem-last p t.streams)))
  ]
