-- ===== src/Transport/Pool/Kept.antt =====
-- Each operation of a transport keeps `IsSound`.
use gunnel.Prelude.{
  ℕ, ◌+◌, ◌≡◌, ◌<◌, ◌⊎◌, refl, sym, ◌∙◌, ap, subst, arith, List, [], ◌∷◌, ◌++◌, Bool, true, false,
  Option, none, some, ltb, leb, length, if◌then◌else◌, Bool-cases, Option-cases, inl, inr,
  append-nil,
}
use mathlib.Core.List.{Memᴰ}
use gunnel.Go.Slices.{Outcome, done, panicked}
use gunnel.Transport.Stream.{mark_idle, mark_inactive}
use gunnel.Transport.Pool.{
  Network, ConnectionTransport, pool_capacity, set_stream, miss, take_pooled, Taken, stream,
  nil_stream, nothing_ready, add_stream, use_taken, open_new, acquire, valid_stream, close_stream,
  close_root, shut, close_all, close_transport, give_back, release,
}
use gunnel.Transport.Pool.Cleanup.{
  find_inactive_stream_ids, remove_streams, sweep, cleanup_closed_streams, cleanup_idle_pool,
}
use gunnel.Transport.Pool.Removal.{marked, unmarked, marked_or_unmarked, remove_streams-find}
use gunnel.Transport.Pool.Tame.{
  IsTame, self-IsTame, set_stream-IsTame, mark_idle-IsMilder, close_stream-IsTame,
  close_streams-IsTame, close_streams-shut, sweep-IsTame, sweep-kept,
}
use gunnel.Transport.Pool.Idle.{
  valid_streams, valid_length, valid-Mem, cleanup_idle_pool-none, drain-ends_iff,
  cleanup_idle_pool-valid,
}
use gunnel.Transport.Pool.Sound.{
  IsSound, IsTame-IsSound, relist-IsSound, add_stream-IsSound, repool-IsSound, add_opened-IsSound,
  rest-IsSound, Mem-left, miss-IsSound, hit-IsSound, push-IsSound,
}

pub List-cases {ℓ} :
    {A : Type ℓ} (xs : List A) → (xs ≡ []) ⊎ ((a : A) × ((rest : List A) × (xs ≡ a ∷ rest)))
List-cases [] = inl refl
List-cases (x ∷ xs) = inr (x, (xs, refl))

module _ (net : Network) where
  use_taken-IsSound :
      {t : ConnectionTransport} {n : ℕ} (taken : Taken)
      → IsSound net t n
      → IsSound net (use_taken net t taken).0 (n + 1)
  unfolding use_taken open_new add_stream
  use_taken-IsSound nothing_ready s = add_opened-IsSound net _ (miss-IsSound net s)
  use_taken-IsSound nil_stream s = add_opened-IsSound net _ (miss-IsSound net s)
  use_taken-IsSound {t} (stream p) s = elim (Bool-cases (valid_stream net t p)) [
    | inl v ↦ rw v (hit-IsSound net (add_stream-IsSound net p s))
    | inr v ↦ rw v (
        add_opened-IsSound net _
          (IsTame-IsSound net (close_stream-IsTame net (miss t) p) (miss-IsSound net s)))
  ]

  take_pooled-IsSound :
      {t : ConnectionTransport} {n : ℕ} → IsSound net t n → IsSound net (take_pooled t).0 n
  unfolding take_pooled
  take_pooled-IsSound {t} s = elim (List-cases t.pool) [
    | inl e ↦ rw e (repool-IsSound net [] s (omega arith) (λ p m. elim m [ ]))
    | inr (p, (ps, e)) ↦
        rw e (repool-IsSound net ps s (omega (arith, ap length e)) (λ q m. rw e (Memᴰ.tail m)))
  ]

  pub acquire-IsSound :
      {t : ConnectionTransport} {n : ℕ} → IsSound net t n → IsSound net (acquire net t).0 (n + 1)
  unfolding acquire
  acquire-IsSound {t} s =
      simp s.enabled (use_taken-IsSound (take_pooled t).1 (take_pooled-IsSound s))

  -- What a call leaves is sound, if it does not panic.
  abbrev Holds : ℕ → Outcome (ConnectionTransport × Bool) → Type 0
  Holds n panicked = Unit {0}
  Holds n (done (t, ok)) = IsSound net t n

  give_back_closed :
      (t : ConnectionTransport) (p : ℕ) → t.pool_closed ≡ true → give_back net t p ≡ panicked
  unfolding give_back
  give_back_closed t p c = ground (arith, c)

  give_back_room :
      (t : ConnectionTransport) (p : ℕ)
      → t.pool_closed ≡ false
      → ltb (length t.pool) pool_capacity ≡ true
      → give_back net t p ≡ done (record t { pool = t.pool ++ p ∷ [] }, true)
  unfolding give_back
  give_back_room t p c r = ground (arith, c, r)

  give_back_full :
      (t : ConnectionTransport) (p : ℕ)
      → t.pool_closed ≡ false
      → ltb (length t.pool) pool_capacity ≡ false
      → give_back net t p ≡ done (close_stream net t p)
  unfolding give_back
  give_back_full t p c r = ground (arith, c, r)

  -- A stream that is marked as idle is given back to a pool of `size` streams.
  returned-Holds :
      {t : ConnectionTransport} {n : ℕ} (p size : ℕ)
      → IsSound net t n
      → p < t.next
      → length t.pool ≡ size
      → (t.store p).metrics_info.is_active ≡ false
      → Holds n (elim (give_back net t p) [
        | panicked ↦ panicked
        | done (t', ok) ↦
            if ltb size pool_capacity
            then done (record t' { pool_gauge = length t'.pool }, ok)
            else done (t', ok)
      ])
  returned-Holds {t} p size s k e i = elim (Bool-cases t.pool_closed) [
    | inl c ↦ rw (give_back_closed t p c) tt
    | inr c ↦ elim (Bool-cases (ltb (length t.pool) pool_capacity)) [
      | inl r ↦
          rw (give_back_room t p c r, ← e, r)
            (rest-IsSound net _ _ _ _ (push-IsSound net p s c (ground (arith, r)) k i))
      | inr r ↦
          rw (give_back_full t p c r, ← e, r) (IsTame-IsSound net (close_stream-IsTame net t p) s)
    ]
  ]

  mark_idle-set :
      (t : ConnectionTransport) (p : ℕ)
      → ((set_stream t p (mark_idle t.now (t.store p), t.shared)).store p).metrics_info.is_active
        ≡ false
  unfolding set_stream mark_idle mark_inactive
  mark_idle-set t p = ground arith

  release-Holds :
      {t : ConnectionTransport} {n : ℕ} (p : ℕ)
      → IsSound net t n
      → p < t.next
      → Holds n (release net t p)
  unfolding release set_stream
  release-Holds {t} {n} p s k =
      let idle : ConnectionTransport = set_stream t p (mark_idle t.now (t.store p), t.shared) in
      let s' : IsSound net idle n =
        IsTame-IsSound net (set_stream-IsTame t p _ t.shared (mark_idle-IsMilder t.now (t.store p)))
          s in
      elim (Bool-cases (valid_stream net t p)) [
        | inr v ↦ rw v (IsTame-IsSound net (close_stream-IsTame net t p) s)
        | inl v ↦ rw v (returned-Holds p (length t.pool) s' k refl (mark_idle-set t p))
      ]

  pub release-IsSound :
      {t t' : ConnectionTransport} {n : ℕ} {ok : Bool} (p : ℕ)
      → IsSound net t n
      → p < t.next
      → release net t p ≡ done (t', ok)
      → IsSound net t' n
  release-IsSound {t} {t'} {n} p s k e = subst (Holds n) e (release-Holds p s k)

  pub close_root-IsTame : (t : ConnectionTransport) → IsTame t (close_root net t)
  unfolding close_root
  close_root-IsTame t = elim (Option-cases t.root) [
    | inl e ↦ rw e (self-IsTame _)
    | inr (p, e) ↦ rw e (close_stream-IsTame net _ p)
  ]

  shut-IsSound : {t : ConnectionTransport} {n : ℕ} → IsSound net t n → IsSound net (shut net t) n
  unfolding shut
  shut-IsSound {t} {n} s =
      let x = close_root-IsTame (record t { closed = true }) in
      subst {A = ConnectionTransport}
        (λ v. IsSound net (record v { pool_closed = true; pool = [] }) n) (sym x.same)
        (record {
          room = omega arith;
          channel = refl;
          drained = inr refl;
          counted = s.counted;
          enabled = s.enabled;
          idle = λ p m. elim m [ ];
          known = λ p m. elim m [ ];
          listed = λ p k c. elim (s.listed p k c) [ inl m ↦ inl m | inr h ↦ inr (x.shut p h) ];
        })

  close_all-IsSound :
      {t : ConnectionTransport} {n : ℕ} → IsSound net t n → IsSound net (close_all net t) n
  unfolding close_all
  close_all-IsSound {t} s =
      let x = close_streams-IsTame net t t.streams in
      relist-IsSound net [] (IsTame-IsSound net x s) (λ p c m. inr (
        close_streams-shut net t t.streams p c
          (subst (λ xs. Memᴰ p xs) (ap (λ u. u.streams) x.same) m)))

  pub close_transport-IsSound :
      {t : ConnectionTransport} {n : ℕ} → IsSound net t n → IsSound net (close_transport net t) n
  unfolding close_transport
  close_transport-IsSound {t} s = elim (Bool-cases t.closed) [
    | inl c ↦ simp c s
    | inr c ↦ elim (Bool-cases (net.client_close_fails t.now)) [
      | inl f ↦ simp (c, f) (shut-IsSound s)
      | inr f ↦ simp (c, f) (close_all-IsSound (shut-IsSound s))
    ]
  ]

  pub remove_streams-IsSound :
      {t : ConnectionTransport} {n : ℕ} (max : ℕ)
      → IsSound net t n
      → IsSound net (remove_streams net t (find_inactive_stream_ids t max)) n
  remove_streams-IsSound {t} {n} max s =
      subst (λ u. IsSound net u n)
        (sym (remove_streams-find net t t max [] (sym (append-nil t.streams))))
        (relist-IsSound net (unmarked t.store t.now max t.streams ++ [])
          (IsTame-IsSound net (close_streams-IsTame net t (marked t.store t.now max t.streams)) s)
          (λ p c m.
            let m' =
              subst (λ xs. Memᴰ p xs)
                (ap (λ u. u.streams)
                  (close_streams-IsTame net t (marked t.store t.now max t.streams)).same)
                m in
            elim (marked_or_unmarked t.store t.now max p t.streams m') [
              | inl k ↦ inr (close_streams-shut net t (marked t.store t.now max t.streams) p c k)
              | inr k ↦ inl (Mem-left [] k)
            ]))

  pub cleanup_closed_streams-IsSound :
      {t : ConnectionTransport} {n : ℕ} → IsSound net t n → IsSound net (cleanup_closed_streams t) n
  unfolding cleanup_closed_streams
  cleanup_closed_streams-IsSound {t} s =
      relist-IsSound net (sweep t t.streams).1 (IsTame-IsSound net (sweep-IsTame t t.streams) s)
        (λ p c m.
          sweep-kept t t.streams p
            (subst (λ xs. Memᴰ p xs) (ap (λ u. u.streams) (sweep-IsTame t t.streams).same) m))

  abbrev HoldsEnd : ℕ → Option (Outcome ConnectionTransport) → Type 0
  HoldsEnd n none = Unit {0}
  HoldsEnd n (some panicked) = Unit {0}
  HoldsEnd n (some (done t)) = IsSound net t n

  pub cleanup_idle_pool-IsSound :
      {t t' : ConnectionTransport} {n : ℕ} (fuel : ℕ)
      → IsSound net t n
      → cleanup_idle_pool net fuel t ≡ some (done t')
      → IsSound net t' n
  cleanup_idle_pool-IsSound {t} {t'} {n} fuel s e = elim (Bool-cases t.pool_closed) [
    | inl c ↦ absurd (
        ground (
          arith,
          e,
          cleanup_idle_pool-none net fuel t s.enabled ((drain-ends_iff net fuel t).1 (inl c)),
        ))
    | inr c ↦ elim (Bool-cases (leb fuel (length t.pool))) [
      | inl k ↦ absurd (
          ground (
            arith,
            e,
            cleanup_idle_pool-none net fuel t s.enabled
                ((drain-ends_iff net fuel t).1 (inr (ground (arith, k)))),
          ))
      | inr k ↦
          let ends = cleanup_idle_pool-valid net fuel t s.enabled c s.room (ground (arith, k)) in
          subst (λ o. HoldsEnd n o) (sym ends ∙ e)
            (repool-IsSound net (valid_streams net t t.pool) s (valid_length net t t.pool)
              (valid-Mem net t t.pool))
    ]
  ]
