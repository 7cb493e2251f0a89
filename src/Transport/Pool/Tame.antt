-- ===== src/Transport/Pool/Tame.antt =====
-- What the operations on single streams leave alone in the transport that holds them.
use gunnel.Prelude.{
  ℕ, ◌≡◌, ◌⊎◌, refl, ◌∙◌, ap, arith, List, [], ◌∷◌, Bool, false, Bytes, Bool-cases, inl, inr,
}
use mathlib.Core.List.{Memᴰ}
use gunnel.Transport.Stream.{StreamClient, Shared, close, mark_inactive, mark_idle, set_subdomain}
use gunnel.Transport.Pool.{Network, ConnectionTransport, set_stream, close_stream, close_streams}
use gunnel.Transport.Pool.Cleanup.{forget, sweep}

-- Only streams and counters differ, and no stream is active or open again.
pub record IsTame (t t' : ConnectionTransport) : Type 0 where
  pub same : t' ≡ record t { store = t'.store; shared = t'.shared }
  pub idle :
      (p : ℕ)
      → (t.store p).metrics_info.is_active ≡ false
      → (t'.store p).metrics_info.is_active ≡ false
  pub shut : (p : ℕ) → (t.store p).is_open ≡ false → (t'.store p).is_open ≡ false

pub self-IsTame : (t : ConnectionTransport) → IsTame t t
self-IsTame t = record { same = refl; idle = λ p h. h; shut = λ p h. h }

pub IsTame-trans : {a b c : ConnectionTransport} → IsTame a b → IsTame b c → IsTame a c
IsTame-trans {a} {b} {c} x y = record {
  same =
      y.same
      ∙ ap {A = ConnectionTransport} {B = ConnectionTransport}
          (λ t. record t { store = c.store; shared = c.shared }) x.same;
  idle = λ p h. y.idle p (x.idle p h);
  shut = λ p h. y.shut p (x.shut p h);
}

-- A stream that is changed so that it is neither active nor open again.
pub record IsMilder (s s' : StreamClient) : Type 0 where
  pub idle : s.metrics_info.is_active ≡ false → s'.metrics_info.is_active ≡ false
  pub shut : s.is_open ≡ false → s'.is_open ≡ false

pub set_stream-IsTame :
    (t : ConnectionTransport) (p : ℕ) (s : StreamClient) (w : Shared)
    → IsMilder (t.store p) s
    → IsTame t (set_stream t p (s, w))
unfolding set_stream
set_stream-IsTame t p s w m = record {
  same = refl;
  idle = λ q h. ground (arith, h, m.idle);
  shut = λ q h. ground (arith, h, m.shut);
}

pub close-IsMilder :
    (fails : Bool) (now : ℕ) (s : StreamClient) (w : Shared) → IsMilder s (close fails now s w).0.0
unfolding close mark_inactive
close-IsMilder fails now s w = record {
  idle = λ h. ground (arith, h);
  shut = λ h. ground (arith, h);
}

pub set_subdomain-IsMilder :
    (s : StreamClient) (w : Shared) (sub : Bytes) → IsMilder s (set_subdomain s w sub).0
unfolding set_subdomain
set_subdomain-IsMilder s w sub = record {
  idle = λ h. ground (arith, h);
  shut = λ h. ground (arith, h);
}

pub mark_idle-IsMilder : (now : ℕ) (s : StreamClient) → IsMilder s (mark_idle now s)
unfolding mark_idle mark_inactive
mark_idle-IsMilder now s = record { idle = λ h. refl; shut = λ h. h }

pub forget-IsTame : (t : ConnectionTransport) (p : ℕ) → IsTame t (forget t p)
unfolding forget
forget-IsTame t p = set_stream-IsTame t p _ _ (record { idle = λ h. h; shut = λ h. refl })

pub forget_shut : (t : ConnectionTransport) (p : ℕ) → ((forget t p).store p).is_open ≡ false
unfolding forget set_stream
forget_shut t p = ground arith

pub sweep-IsTame : (t : ConnectionTransport) (ps : List ℕ) → IsTame t (sweep t ps).0
unfolding sweep
sweep-IsTame t [] = self-IsTame t
sweep-IsTame t (p ∷ ps) = elim (Bool-cases (t.store p).metrics_info.is_active) [
  | inl e ↦ rw e (sweep-IsTame t ps)
  | inr e ↦ rw e (IsTame-trans (forget-IsTame t p) (sweep-IsTame (forget t p) ps))
]

-- What a sweep does with the streams it goes over: it keeps them or takes their QUIC stream away.
pub sweep-kept :
    (t : ConnectionTransport) (ps : List ℕ) (p : ℕ)
    → Memᴰ p ps
    → Memᴰ p (sweep t ps).1 ⊎ ((sweep t ps).0.store p).is_open ≡ false
unfolding sweep
sweep-kept t [] p m = elim m [ ]
sweep-kept t (q ∷ ps) p (Memᴰ.head e) = elim (Bool-cases (t.store q).metrics_info.is_active) [
  | inl a ↦ rw a (inl (Memᴰ.head e))
  | inr a ↦ rw a (inr ((sweep-IsTame (forget t q) ps).shut p (rw⁻¹ e (forget_shut t p))))
]
sweep-kept t (q ∷ ps) p (Memᴰ.tail m) = elim (Bool-cases (t.store q).metrics_info.is_active) [
  | inl a ↦ rw a (elim (sweep-kept t ps p m) [ inl k ↦ inl (Memᴰ.tail k) | inr k ↦ inr k ])
  | inr a ↦ rw a (sweep-kept (forget t q) ps p m)
]

module _ (net : Network) where
  pub close_stream-IsTame : (t : ConnectionTransport) (p : ℕ) → IsTame t (close_stream net t p).0
  unfolding close_stream
  close_stream-IsTame t p =
      set_stream-IsTame t p _ _
        (close-IsMilder (net.close_fails t.now p) t.now (t.store p) t.shared)

  pub close_streams-IsTame :
      (t : ConnectionTransport) (ps : List ℕ) → IsTame t (close_streams net t ps)
  unfolding close_streams
  close_streams-IsTame t [] = self-IsTame t
  close_streams-IsTame t (p ∷ ps) =
      IsTame-trans (close_stream-IsTame t p) (close_streams-IsTame (close_stream net t p).0 ps)

  -- A stream whose QUIC stream always closes without an error.
  abbrev pub ClosesWell : ℕ → Type 0
  ClosesWell p = (now : ℕ) → net.close_fails now p ≡ false

  pub close_stream-shut :
      (t : ConnectionTransport) (p : ℕ)
      → ClosesWell p
      → ((close_stream net t p).0.store p).is_open ≡ false
  unfolding close_stream set_stream close
  close_stream-shut t p h = ground (arith, h t.now)

  pub close_streams-shut :
      (t : ConnectionTransport) (ps : List ℕ) (p : ℕ)
      → ClosesWell p
      → Memᴰ p ps
      → ((close_streams net t ps).store p).is_open ≡ false
  unfolding close_streams
  close_streams-shut t [] p h m = elim m [ ]
  close_streams-shut t (q ∷ ps) p h (Memᴰ.head e) =
      (close_streams-IsTame (close_stream net t q).0 ps).shut p (rw⁻¹ e (close_stream-shut t p h))
  close_streams-shut t (q ∷ ps) p h (Memᴰ.tail m) =
      close_streams-shut (close_stream net t q).0 ps p h m
