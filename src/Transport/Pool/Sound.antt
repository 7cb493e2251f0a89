-- ===== src/Transport/Pool/Sound.antt =====
-- What holds of a transport at any time, and that each operation keeps it.
use gunnel.Prelude.{
  ℕ, ◌+◌, ◌≡◌, ◌≤◌, ◌<◌, ◌⊎◌, refl, sym, ◌∙◌, subst, arith, List, [], ◌∷◌, ◌++◌, true, false,
  Option, none, some, Bytes, ◌==◌, length, Bool-cases, inl, inr, length-append,
}
use mathlib.Core.List.{Memᴰ}
use gunnel.Transport.Stream.{Shared, new_stream_handler}
use gunnel.Transport.Pool.{
  Network, ConnectionTransport, pool_capacity, set_stream, new_stream, add_stream, add_opened, miss,
}
use gunnel.Transport.Pool.Tame.{IsTame, ClosesWell}

module _ {A : Type 0} where
  pub Mem-left : {a : A} {xs : List A} (ys : List A) → Memᴰ a xs → Memᴰ a (xs ++ ys)
  Mem-left ys (Memᴰ.head e) = Memᴰ.head e
  Mem-left ys (Memᴰ.tail m) = Memᴰ.tail (Mem-left ys m)

  pub Mem-last : (a : A) (xs : List A) → Memᴰ a (xs ++ a ∷ [])
  Mem-last a [] = Memᴰ.head refl
  Mem-last a (x ∷ xs) = Memᴰ.tail (Mem-last a xs)

  Mem-snoc : {a b : A} (xs : List A) → Memᴰ a (xs ++ b ∷ []) → Memᴰ a xs ⊎ (a ≡ b)
  Mem-snoc [] (Memᴰ.head e) = inr e
  Mem-snoc [] (Memᴰ.tail m) = elim m [ ]
  Mem-snoc (x ∷ xs) (Memᴰ.head e) = inl (Memᴰ.head e)
  Mem-snoc (x ∷ xs) (Memᴰ.tail m) = elim (Mem-snoc xs m) [
    | inl k ↦ inl (Memᴰ.tail k)
    | inr e ↦ inr e
  ]

module _ (net : Network) where
  -- `acquired` counts the calls of `Acquire`. The pool has room, is closed with the transport and
  -- then empty, holds streams that count as not active, and every call is a hit or a miss; a stream
  -- that is open is in the list, unless QUIC ever fails to close it.
  pub record IsSound (t : ConnectionTransport) (acquired : ℕ) : Type 0 where
    pub room : length t.pool ≤ pool_capacity
    pub channel : t.pool_closed ≡ t.closed
    pub drained : t.closed ≡ false ⊎ t.pool ≡ []
    pub counted : t.pool_hits + t.pool_misses ≡ acquired
    pub enabled : t.pool_config.enabled ≡ true
    pub idle : (p : ℕ) → Memᴰ p t.pool → (t.store p).metrics_info.is_active ≡ false
    pub known : (p : ℕ) → Memᴰ p t.pool → p < t.next
    pub listed :
        (p : ℕ) → p < t.next → ClosesWell net p → Memᴰ p t.streams ⊎ (t.store p).is_open ≡ false

  -- Operations on single streams keep all of it.
  pub IsTame-IsSound :
      {t t' : ConnectionTransport} {n : ℕ} → IsTame t t' → IsSound t n → IsSound t' n
  IsTame-IsSound {t} {t'} {n} x s =
      subst (λ u. IsSound u n) (sym x.same)
        (record {
          room = s.room;
          channel = s.channel;
          drained = s.drained;
          counted = s.counted;
          enabled = s.enabled;
          idle = λ p m. x.idle p (s.idle p m);
          known = s.known;
          listed = λ p k c. elim (s.listed p k c) [ inl m ↦ inl m | inr h ↦ inr (x.shut p h) ];
        })

  -- A list of streams that still has every stream that is open.
  pub relist-IsSound :
      {t : ConnectionTransport} {n : ℕ} (streams : List ℕ)
      → IsSound t n
      → ((p : ℕ)
          → ClosesWell net p
          → Memᴰ p t.streams
          → Memᴰ p streams ⊎ (t.store p).is_open ≡ false)
      → IsSound (record t { streams = streams }) n
  relist-IsSound streams s f = record {
    room = s.room;
    channel = s.channel;
    drained = s.drained;
    counted = s.counted;
    enabled = s.enabled;
    idle = s.idle;
    known = s.known;
    listed = λ p k c. elim (s.listed p k c) [ inl m ↦ f p c m | inr h ↦ inr h ];
  }

  pub add_stream-IsSound :
      {t : ConnectionTransport} {n : ℕ} (p : ℕ) → IsSound t n → IsSound (add_stream t p) n
  unfolding add_stream
  add_stream-IsSound {t} p s = relist-IsSound (t.streams ++ p ∷ []) s (λ q c m. inl (Mem-left _ m))

  -- A pool that holds some of the streams it held.
  pub repool-IsSound :
      {t : ConnectionTransport} {n : ℕ} (pool : List ℕ)
      → IsSound t n
      → length pool ≤ length t.pool
      → ((p : ℕ) → Memᴰ p pool → Memᴰ p t.pool)
      → IsSound (record t { pool = pool }) n
  repool-IsSound {t} pool s le f = record {
    room = omega (arith, s.room, le);
    channel = s.channel;
    drained = elim s.drained [ inl c ↦ inl c | inr e ↦ inr (ground (arith, le, e)) ];
    counted = s.counted;
    enabled = s.enabled;
    idle = λ p m. s.idle p (f p m);
    known = λ p m. s.known p (f p m);
    listed = s.listed;
  }

  pub add_opened-IsSound :
      {t : ConnectionTransport} {n : ℕ} (opened : Option Bytes)
      → IsSound t n
      → IsSound (add_opened net t opened).0 n
  unfolding add_opened new_stream add_stream set_stream new_stream_handler
  add_opened-IsSound none s = s
  add_opened-IsSound {t} (some id) s = record {
    room = s.room;
    channel = s.channel;
    drained = s.drained;
    counted = s.counted;
    enabled = s.enabled;
    idle = λ p m. ground (arith, s.known p m, s.idle p m);
    known = λ p m. omega (arith, s.known p m);
    listed = λ p k c. elim (Bool-cases (p == t.next)) [
      | inl e ↦ inl (
          subst (λ q. Memᴰ q (t.streams ++ t.next ∷ [])) (ground (arith, e))
            (Mem-last t.next t.streams))
      | inr e ↦ elim (s.listed p (ground (arith, k, e)) c) [
        | inl m ↦ inl (Mem-left _ m)
        | inr h ↦ inr (rw e h)
      ]
    ];
  }

  pub miss-IsSound : {t : ConnectionTransport} {n : ℕ} → IsSound t n → IsSound (miss t) (n + 1)
  unfolding miss
  miss-IsSound s = record {
    room = s.room;
    channel = s.channel;
    drained = s.drained;
    counted = omega (arith, s.counted);
    enabled = s.enabled;
    idle = s.idle;
    known = s.known;
    listed = s.listed;
  }

  pub hit-IsSound :
      {t : ConnectionTransport} {n : ℕ}
      → IsSound t n
      → IsSound (record t { pool_hits = t.pool_hits + 1 }) (n + 1)
  hit-IsSound s = record {
    room = s.room;
    channel = s.channel;
    drained = s.drained;
    counted = omega (arith, s.counted);
    enabled = s.enabled;
    idle = s.idle;
    known = s.known;
    listed = s.listed;
  }

  -- A stream that is not active is put into a pool that is open and has room.
  pub push-IsSound :
      {t : ConnectionTransport} {n : ℕ} (p : ℕ)
      → IsSound t n
      → t.pool_closed ≡ false
      → length t.pool < pool_capacity
      → p < t.next
      → (t.store p).metrics_info.is_active ≡ false
      → IsSound (record t { pool = t.pool ++ p ∷ [] }) n
  push-IsSound {t} p s o r k i = record {
    room = omega (arith, length-append t.pool (p ∷ []), r);
    channel = s.channel;
    drained = inl (sym s.channel ∙ o);
    counted = s.counted;
    enabled = s.enabled;
    idle = λ q m. elim (Mem-snoc t.pool m) [ inl m' ↦ s.idle q m' | inr e ↦ rw e i ];
    known = λ q m. elim (Mem-snoc t.pool m) [ inl m' ↦ s.known q m' | inr e ↦ rw e k ];
    listed = s.listed;
  }

  -- The time, the root stream, the shared counters and the gauge do not matter.
  pub rest-IsSound :
      {t : ConnectionTransport} {n : ℕ} (now : ℕ) (root : Option ℕ) (w : Shared) (gauge : ℕ)
      → IsSound t n
      → IsSound (record t { now = now; root = root; shared = w; pool_gauge = gauge }) n
  rest-IsSound now root w gauge s = record {
    room = s.room;
    channel = s.channel;
    drained = s.drained;
    counted = s.counted;
    enabled = s.enabled;
    idle = s.idle;
    known = s.known;
    listed = s.listed;
  }
