-- ===== src/Transport/Pool/Interface.antt =====
-- The transport of this module behind the interface that connections use.
use gunnel.Prelude.{
  ℕ, ◌≡◌, refl, ◌∙◌, ap, arith, true, Option, none, some, Bool-cases, inl, inr, Bytes,
}
use gunnel.Go.Slices.{done, panicked}
use gunnel.Transport.{Transport}
use gunnel.Transport.Stream.{mark_idle}
use gunnel.Transport.Pool.{
  Network, ConnectionTransport, set_stream, new_stream, add_stream, add_opened, open_new, miss,
  Taken, stream, nil_stream, nothing_ready, take_pooled, use_taken, valid_stream, acquire,
  give_back, release, shut, close_all, close_transport, len_active, is_closed, im_server,
}
use gunnel.Transport.Pool.Tame.{IsTame, close_stream-IsTame, close_streams-IsTame}
use gunnel.Transport.Pool.Kept.{close_root-IsTame}

module _ (net : Network) where
  -- The transport after `Release`, also where the call panics.
  unfoldable pub after_release : ConnectionTransport → ℕ → ConnectionTransport
  after_release t p = elim (release net t p) [
    | panicked ↦ set_stream t p (mark_idle t.now (t.store p), t.shared)
    | done (t', ok) ↦ t'
  ]

  closed_stays : {t t' : ConnectionTransport} → IsTame t t' → t'.closed ≡ t.closed
  closed_stays x = ap (λ u. u.closed) x.same

  close_transport-closed : (t : ConnectionTransport) → (close_transport net t).closed ≡ true
  unfolding close_transport close_all shut
  close_transport-closed t =
      let r : (shut net t).closed ≡ true =
        closed_stays (close_root-IsTame net (record t { closed = true })) in
      elim (Bool-cases t.closed) [
        | inl c ↦ simp c
        | inr c ↦ elim (Bool-cases (net.client_close_fails t.now)) [
          | inl f ↦ simp (c, f) r
          | inr f ↦
              simp (c, f)
                (closed_stays (close_streams-IsTame net (shut net t) (shut net t).streams) ∙ r)
        ]
      ]

  add_opened-closed :
      (t : ConnectionTransport) (r : Option Bytes) → (add_opened net t r).0.closed ≡ t.closed
  unfolding add_opened new_stream add_stream set_stream
  add_opened-closed t none = refl
  add_opened-closed t (some id) = refl

  use_taken-closed :
      (t : ConnectionTransport) (taken : Taken) → (use_taken net t taken).0.closed ≡ t.closed
  unfolding use_taken open_new add_stream miss
  use_taken-closed t nothing_ready = add_opened-closed (miss t) (net.open_stream t.now)
  use_taken-closed t nil_stream = add_opened-closed (miss t) (net.open_stream t.now)
  use_taken-closed t (stream p) = elim (Bool-cases (valid_stream net t p)) [
    | inl v ↦ rw v refl
    | inr v ↦ rw v (add_opened-closed _ _ ∙ closed_stays (close_stream-IsTame net (miss t) p))
  ]

  take_pooled-closed : (t : ConnectionTransport) → (take_pooled t).0.closed ≡ t.closed
  unfolding take_pooled
  take_pooled-closed t = ground arith

  acquire-closed : (t : ConnectionTransport) → (acquire net t).0.closed ≡ t.closed
  unfolding acquire open_new
  acquire-closed t = ground (
    arith,
    use_taken-closed (take_pooled t).0 (take_pooled t).1,
    add_opened-closed t (net.open_stream t.now),
    take_pooled-closed t,
  )

  release-closed : (t : ConnectionTransport) (p : ℕ) → (after_release t p).closed ≡ t.closed
  unfolding after_release release give_back set_stream
  release-closed t p =
      let idle : ConnectionTransport = set_stream t p (mark_idle t.now (t.store p), t.shared) in
      ground (
        arith,
        closed_stays (close_stream-IsTame net t p),
        closed_stays (close_stream-IsTame net idle p),
      )

  pub closed_after_close : (t : ConnectionTransport) → is_closed (close_transport net t) ≡ true
  unfolding is_closed
  closed_after_close t = close_transport-closed t

  pub closed_after_acquire : (t : ConnectionTransport) → is_closed (acquire net t).0 ≡ is_closed t
  unfolding is_closed
  closed_after_acquire t = acquire-closed t

  pub closed_after_release :
      (t : ConnectionTransport) (p : ℕ) → is_closed (after_release t p) ≡ is_closed t
  unfolding is_closed
  closed_after_release t p = release-closed t p

  -- What connections call.
  abbrev pub transport_ops : Transport ConnectionTransport ℕ
  transport_ops = record {
    is_closed = is_closed;
    close = close_transport net;
    acquire = acquire net;
    release = after_release;
    len_active = len_active;
    im_server = im_server;
    close-is_closed = closed_after_close;
    acquire-is_closed = closed_after_acquire;
    release-is_closed = closed_after_release;
  }
