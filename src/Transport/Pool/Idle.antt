-- ===== src/Transport/Pool/Idle.antt =====
-- `cleanupIdlePool`: when it ends, and what is then left in the pool.
use gunnel.Prelude.{
  ℕ, zero, suc, ◌+◌, ◌≡◌, ◌≤◌, ◌<◌, ◌⊎◌, ◌↔◌, refl, ap, arith, List, [], ◌∷◌, ◌++◌, true, false,
  none, some, length, if◌then◌else◌, Bool-cases, inl, inr, append_assoc, append-nil, length-append,
}
use mathlib.Core.List.{Memᴰ}
use gunnel.Go.Slices.{done}
use gunnel.Transport.Pool.{
  Network, ConnectionTransport, pool_capacity, nil_stream, take_pooled, valid_stream, give_back,
}
use gunnel.Transport.Pool.Cleanup.{drain, refill, cleanup_idle_pool}

module _ (net : Network) where
  -- The streams that are valid in the transport as it is.
  unfoldable pub valid_streams : ConnectionTransport → List ℕ → List ℕ
  valid_streams t [] = []
  valid_streams t (p ∷ ps) =
      let rest = valid_streams t ps in if valid_stream net t p then p ∷ rest else rest

  abbrev pub with_pool : ConnectionTransport → List ℕ → ConnectionTransport
  with_pool t ps = record t { pool = ps }

  drain_open :
      (ps : List ℕ) (fuel : ℕ) (t : ConnectionTransport)
      → t.pool_closed ≡ false
      → length ps < fuel
      → drain net fuel (with_pool t ps) ≡ some (with_pool t [], valid_streams t ps)
  unfolding drain take_pooled valid_streams valid_stream
  drain_open ps zero t h k = absurd (omega arith)
  drain_open [] (suc fuel) t h k = ground (arith, h)
  drain_open (p ∷ ps) (suc fuel) t h k = rw (drain_open ps fuel t h (omega arith)) refl

  take_shut :
      (t : ConnectionTransport)
      → t.pool_closed ≡ true
      → take_pooled (with_pool t []) ≡ (with_pool t [], nil_stream)
  unfolding take_pooled
  take_shut t h = ground (arith, h)

  drain_shut :
      (fuel : ℕ) (t : ConnectionTransport)
      → t.pool_closed ≡ true
      → drain net (suc fuel) (with_pool t []) ≡ drain net fuel (with_pool t [])
  unfolding drain
  drain_shut fuel t h = rw (drain, take_shut t h) (ap (λ x. drain net fuel x.0) (take_shut t h))

  -- A closed channel gives its nil again and again.
  drain_closed_on :
      (fuel : ℕ) (ps : List ℕ) (t : ConnectionTransport)
      → t.pool_closed ≡ true
      → drain net fuel (with_pool t ps) ≡ none
  unfolding drain take_pooled
  drain_closed_on zero ps t h = refl
  drain_closed_on (suc fuel) [] t h = rw (drain_shut fuel t h) (drain_closed_on fuel [] t h)
  drain_closed_on (suc fuel) (p ∷ ps) t h = rw (drain_closed_on fuel ps t h) refl

  drain_short :
      (ps : List ℕ) (fuel : ℕ) (t : ConnectionTransport)
      → fuel ≤ length ps
      → drain net fuel (with_pool t ps) ≡ none
  unfolding drain take_pooled
  drain_short ps zero t k = refl
  drain_short [] (suc fuel) t k = absurd (omega arith)
  drain_short (p ∷ ps) (suc fuel) t k = ground (arith, drain_short ps fuel t (omega arith))

  valid-Mem_next :
      (t : ConnectionTransport) (ps : List ℕ) (p q : ℕ)
      → ((r : ℕ) → Memᴰ r (valid_streams t ps) → Memᴰ r ps)
      → Memᴰ p (q ∷ valid_streams t ps)
      → Memᴰ p (q ∷ ps)
  valid-Mem_next t ps p q f (Memᴰ.head e) = Memᴰ.head e
  valid-Mem_next t ps p q f (Memᴰ.tail m) = Memᴰ.tail (f p m)

  pub valid-Mem :
      (t : ConnectionTransport) (ps : List ℕ) (p : ℕ) → Memᴰ p (valid_streams t ps) → Memᴰ p ps
  unfolding valid_streams
  valid-Mem t [] p m = m
  valid-Mem t (q ∷ ps) p m = elim (Bool-cases (valid_stream net t q)) [
    | inr v ↦ Memᴰ.tail (valid-Mem t ps p (rw v at m))
    | inl v ↦ valid-Mem_next t ps p q (valid-Mem t ps) (rw v at m)
  ]

  pub valid_length :
      (t : ConnectionTransport) (ps : List ℕ) → length (valid_streams t ps) ≤ length ps
  unfolding valid_streams
  valid_length t [] = omega arith
  valid_length t (p ∷ ps) = ground (arith, valid_length t ps)

  give_back_room :
      (t : ConnectionTransport) (qs : List ℕ) (p : ℕ)
      → t.pool_closed ≡ false
      → length qs < pool_capacity
      → give_back net (with_pool t qs) p ≡ done (with_pool t (qs ++ p ∷ []), true)
  unfolding give_back
  give_back_room t qs p h k = ground (arith, h, k)

  valid_with_pool :
      (t : ConnectionTransport) (qs : List ℕ) (p : ℕ)
      → valid_stream net (with_pool t qs) p ≡ valid_stream net t p
  unfolding valid_stream
  valid_with_pool t qs p = refl

  refill_valid :
      (ps qs : List ℕ) (t : ConnectionTransport)
      → t.pool_closed ≡ false
      → length qs + length ps ≤ pool_capacity
      → refill net (with_pool t qs) (valid_streams t ps)
        ≡ done (with_pool t (qs ++ valid_streams t ps))
  unfolding refill valid_streams
  refill_valid [] qs t h k = rw (append-nil qs) refl
  refill_valid (p ∷ ps) qs t h k = elim (Bool-cases (valid_stream net t p)) [
    | inr v ↦ rw v (refill_valid ps qs t h (omega arith))
    | inl v ↦ simp (
      v,
      valid_with_pool t qs p,
      give_back_room t qs p h (omega (arith, k)),
      refill_valid ps (qs ++ p ∷ []) t h (omega (arith, length-append qs (p ∷ []), k)),
      append_assoc,
    )
  ]

  drain_ends :
      (fuel : ℕ) (t : ConnectionTransport)
      → t.pool_closed ≡ false
      → length t.pool < fuel
      → drain net fuel t ≡ some (with_pool t [], valid_streams t t.pool)
  drain_ends fuel t h k = drain_open t.pool fuel t h k

  -- The loop of `cleanupIdlePool` ends exactly if the pool's channel is open, after one receive more
  -- than the pool has streams: `Close` closes the channel, which then gives a nil for ever, and the
  -- loop never reaches the default case.
  pub drain-ends_iff :
      (fuel : ℕ) (t : ConnectionTransport)
      → (drain net fuel t ≡ none) ↔ ((t.pool_closed ≡ true) ⊎ (fuel ≤ length t.pool))
  drain-ends_iff fuel t = (
    (λ e. elim (Bool-cases t.pool_closed) [
      | inl h ↦ inl h
      | inr h ↦ inr (ground (arith, e, drain_ends fuel t h))
    ]),
    (λ r. elim r [ inl h ↦ drain_closed_on fuel t.pool t h | inr k ↦ drain_short t.pool fuel t k ]),
  )

  pub cleanup_idle_pool-none :
      (fuel : ℕ) (t : ConnectionTransport)
      → t.pool_config.enabled ≡ true
      → drain net fuel t ≡ none
      → cleanup_idle_pool net fuel t ≡ none
  unfolding cleanup_idle_pool
  cleanup_idle_pool-none fuel t on e = ground (arith, on, e)

  -- With an open pool of at most as many streams as it has room for, `cleanupIdlePool` ends without
  -- a panic, and leaves in the pool its valid streams, in their order, and changes nothing else: the
  -- streams that are not valid are dropped without being closed.
  pub cleanup_idle_pool-valid :
      (fuel : ℕ) (t : ConnectionTransport)
      → t.pool_config.enabled ≡ true
      → t.pool_closed ≡ false
      → length t.pool ≤ pool_capacity
      → length t.pool < fuel
      → cleanup_idle_pool net fuel t ≡ some (done (record t { pool = valid_streams t t.pool }))
  unfolding cleanup_idle_pool
  cleanup_idle_pool-valid fuel t on h room k =
      simp (on, drain_ends fuel t h k, refill_valid t.pool [] t h (omega (arith, room)))
