-- ===== src/Transport/Pool/Cleanup.antt =====
-- The cleanups of pkg/transport/transport.go, which `cleanupLoop` runs by its three tickers.
use gunnel.Prelude.{
  ℕ, zero, suc, ◌+◌, List, [], ◌∷◌, ◌++◌, Bool, not, ◌&&◌, Option, none, some, ltb, leb, ◌==◌,
  length, if◌then◌else◌,
}
use gunnel.Go.Slices.{Outcome, done, ◌>>=◌}
use gunnel.Transport.Stream.{StreamClient, swept}
use gunnel.Transport.Pool.{
  Network, ConnectionTransport, set_stream, stream, nil_stream, nothing_ready, take_pooled,
  valid_stream, close_stream, close_streams, give_back,
}

-- Whether `findInactiveStreamIDs` marks a stream.
unfoldable pub is_inactive : ℕ → ℕ → StreamClient → Bool
is_inactive now max s = not s.metrics_info.is_active && leb (s.metrics_info.last_active + max) now

-- Its loop, with the index of the first stream of the list.
unfoldable pub mark_ids : (ℕ → StreamClient) → ℕ → ℕ → ℕ → List ℕ → List ℕ
mark_ids store now max i [] = []
mark_ids store now max i (p ∷ ps) =
    let rest = mark_ids store now max (i + 1) ps in
    if is_inactive now max (store p) then i ∷ rest else rest

unfoldable pub find_inactive_stream_ids : ConnectionTransport → ℕ → List ℕ
find_inactive_stream_ids t max = mark_ids t.store t.now max 0 t.streams

-- `slices.Sort`, `slices.Reverse` and `slices.Delete(xs, i, i + 1)`.
unfoldable pub insert_sorted : ℕ → List ℕ → List ℕ
insert_sorted n [] = n ∷ []
insert_sorted n (m ∷ ms) = let rest = insert_sorted n ms in if leb n m then n ∷ m ∷ ms else m ∷ rest

unfoldable pub sort : List ℕ → List ℕ
sort [] = []
sort (n ∷ ns) = insert_sorted n (sort ns)

unfoldable pub reverse : List ℕ → List ℕ
reverse [] = []
reverse (n ∷ ns) = reverse ns ++ n ∷ []

unfoldable pub delete_at : List ℕ → ℕ → List ℕ
delete_at [] i = []
delete_at (p ∷ ps) zero = ps
delete_at (p ∷ ps) (suc i) = p ∷ delete_at ps i

-- The second loop of `removeStreams`, where an index that is out of range is passed over.
unfoldable pub delete_all : List ℕ → List ℕ → List ℕ
delete_all streams [] = streams
delete_all streams (i ∷ ids) =
    delete_all (if ltb i (length streams) then delete_at streams i else streams) ids

-- The addresses at some indices; those out of range are passed over.
unfoldable pub address_at : List ℕ → ℕ → List ℕ
address_at [] i = []
address_at (p ∷ ps) zero = p ∷ []
address_at (p ∷ ps) (suc i) = address_at ps i

unfoldable pub addresses : List ℕ → List ℕ → List ℕ
addresses streams [] = []
addresses streams (i ∷ ids) = address_at streams i ++ addresses streams ids

-- The loop of `cleanupClosedStreams`: it takes the QUIC stream away from every stream that is not
-- active, whether or not closing it works, and keeps the others.
unfoldable pub forget : ConnectionTransport → ℕ → ConnectionTransport
forget t p = set_stream t p (swept (t.store p), t.shared)

unfoldable pub sweep : ConnectionTransport → List ℕ → ConnectionTransport × List ℕ
sweep t [] = (t, [])
sweep t (p ∷ ps) =
    let kept = sweep t ps in
    let gone = sweep (forget t p) ps in
    if (t.store p).metrics_info.is_active then (kept.0, p ∷ kept.1) else gone

unfoldable pub cleanup_closed_streams : ConnectionTransport → ConnectionTransport
cleanup_closed_streams t = let (t', active) = sweep t t.streams in record t' { streams = active }

module _ (net : Network) where
  -- `removeStreams`, which closes the streams before it deletes them.
  unfoldable pub remove_streams : ConnectionTransport → List ℕ → ConnectionTransport
  remove_streams t ids =
      let t' = close_streams net t (addresses t.streams ids) in
      if length ids == 0
      then t
      else record t' { streams = delete_all t.streams (reverse (sort ids)) }

  -- The loop `drain` of `cleanupIdlePool`, none if `fuel` receives do not reach its end.
  unfoldable pub drain : ℕ → ConnectionTransport → Option (ConnectionTransport × List ℕ)
  drain zero t = none
  drain (suc fuel) t =
      let (t', taken) = take_pooled t in
      let rest = drain fuel t' in
      elim taken [
        | nothing_ready ↦ some (t', [])
        | nil_stream ↦ rest
        | stream p ↦ elim rest [
          | none ↦ none
          | some (t'', valid) ↦ some (t'', if valid_stream net t p then p ∷ valid else valid)
        ]
      ]

  -- Its second loop, over the streams that were found valid.
  unfoldable pub refill : ConnectionTransport → List ℕ → Outcome ConnectionTransport
  refill t [] = done t
  refill t (p ∷ ps) =
      if not (valid_stream net t p)
      then refill (close_stream net t p).0 ps
      else (do (t', ok) ← give_back net t p; refill t' ps)

  -- `cleanupIdlePool`, none while it has not ended after `fuel` receives.
  unfoldable pub cleanup_idle_pool : ℕ → ConnectionTransport → Option (Outcome ConnectionTransport)
  cleanup_idle_pool fuel t =
      let drained = drain fuel t in
      if not t.pool_config.enabled
      then some (done t)
      else elim drained [ none ↦ none | some (t', valid) ↦ some (refill t' valid) ]
