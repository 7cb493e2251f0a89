-- ===== src/Transport/Pool.antt =====
-- pkg/transport/transport.go: the streams of one QUIC connection and the pool of streams for reuse.
-- A `*streamClient` is an address in a store, below `next`. Each call is one step, made at the time
-- that the transport holds. A stream that is returned or released is never nil.
pub mod Cleanup
pub mod Removal
pub mod Tame
pub mod Idle
pub mod Sound
pub mod Kept
pub mod Runs
pub mod Reuse
pub mod Interface
mod Examples
use gunnel.Prelude.{
  ℕ, ◌+◌, ◌*◌, ◌^◌, List, [], ◌∷◌, ◌++◌, Bool, true, false, not, ◌&&◌, ◌||◌, Option, none, some,
  Bytes, ltb, ◌==◌, length, if◌then◌else◌, str_eq,
}
use gunnel.Go.Slices.{Outcome, done, panicked}
use gunnel.Transport.Stream.{StreamClient, Shared, new_stream_handler, close, is_valid, mark_idle}

-- What QUIC does, by the time: whether closing a stream fails, whether its context is done, the
-- name of the stream that it opens or accepts, none on an error, and whether its own closing fails.
pub record Network : Type 0 where
  pub close_fails : ℕ → ℕ → Bool
  pub context_done : ℕ → ℕ → Bool
  pub open_stream : ℕ → Option Bytes
  pub accept_stream : ℕ → Option Bytes
  pub client_close_fails : ℕ → Bool

pub record PoolConfig : Type 0 where
  pub max_idle : ℕ
  pub idle_timeout : ℕ
  pub enabled : Bool

-- `connectionTransport`. `pool_closed` is said of the channel `pool`; `pool_gauge` is what was last
-- given to `metricsPoolSize`.
pub record ConnectionTransport : Type 0 where
  pub now : ℕ
  pub store : ℕ → StreamClient
  pub next : ℕ
  pub shared : Shared
  pub root : Option ℕ
  pub closed : Bool
  pub streams : List ℕ
  pub server : Bool
  pub pool : List ℕ
  pub pool_closed : Bool
  pub pool_config : PoolConfig
  pub pool_gauge : ℕ
  pub pool_hits : ℕ
  pub pool_misses : ℕ

abbrev pub pool_capacity : ℕ
pool_capacity = 50

unfoldable pub set_stream : ConnectionTransport → ℕ → StreamClient × Shared → ConnectionTransport
set_stream t p (s, w) = record t { store = λ q. if q == p then s else t.store q; shared = w }

-- `newStreamHandler`, and the new stream's address.
unfoldable pub new_stream : ConnectionTransport → Bytes → ConnectionTransport × ℕ
new_stream t id = (
  record (set_stream t t.next (new_stream_handler t.now id t.shared)) { next = t.next + 1 },
  t.next,
)

unfoldable pub add_stream : ConnectionTransport → ℕ → ConnectionTransport
add_stream t p = record t { streams = t.streams ++ p ∷ [] }

unfoldable pub default_pool_config : PoolConfig
default_pool_config = record { max_idle = 50; idle_timeout = 30 * 10 ^ 9; enabled = true }

-- What `newWrapper` makes before it opens a stream, in a store that may hold other streams.
unfoldable pub blank : ℕ → (ℕ → StreamClient) → Shared → Bool → ConnectionTransport
blank now store shared server = record {
  now = now;
  store = store;
  next = 0;
  shared = shared;
  root = none;
  closed = false;
  streams = [];
  server = server;
  pool = [];
  pool_closed = false;
  pool_config = default_pool_config;
  pool_gauge = 0;
  pool_hits = 0;
  pool_misses = 0;
}

-- The first stream, which `newWrapper` opens and `NewFromServer` accepts, or none on an error.
unfoldable pub with_root : ConnectionTransport → Option Bytes → Option ConnectionTransport
with_root t none = none
with_root t (some id) =
    let (t', p) = new_stream t id in some (record (add_stream t' p) { root = some p })

-- What a receive from the pool gives: a stream, the nil of a closed channel, or the default case.
pub data Taken : Type 0 where
  stream : ℕ → Taken
  nil_stream : Taken
  nothing_ready : Taken

unfoldable pub take_pooled : ConnectionTransport → ConnectionTransport × Taken
take_pooled t = elim t.pool [
  | [] ↦ (t, if t.pool_closed then nil_stream else nothing_ready)
  | p ∷ ps ↦ (record t { pool = ps }, stream p)
]

unfoldable pub miss : ConnectionTransport → ConnectionTransport
miss t = record t { pool_misses = t.pool_misses + 1 }

-- `LenActive`, over the streams in the list.
unfoldable pub count_active : (ℕ → StreamClient) → Bytes → List ℕ → ℕ
count_active store sub [] = 0
count_active store sub (p ∷ ps) =
    let rest = count_active store sub ps in
    if (store p).metrics_info.is_active
      && (length sub == 0 || str_eq (store p).metrics_info.subdomain sub)
    then rest + 1
    else rest

unfoldable pub len_active : ConnectionTransport → Option Bytes → ℕ
len_active t none = count_active t.store [] t.streams
len_active t (some sub) = count_active t.store sub t.streams

-- `Len`, `IsClosed`, `ImServer`, `Root`, `PoolSize`, `PoolHits`, `PoolMisses`
unfoldable pub len : ConnectionTransport → ℕ
len t = length t.streams

unfoldable pub is_closed : ConnectionTransport → Bool
is_closed t = t.closed

unfoldable pub im_server : ConnectionTransport → Bool
im_server t = t.server

unfoldable pub pool_size : ConnectionTransport → ℕ
pool_size t = length t.pool

module _ (net : Network) where
  -- `newWrapper` on a client, and `NewFromServer`.
  unfoldable pub new_wrapper : ℕ → (ℕ → StreamClient) → Shared → Option ConnectionTransport
  new_wrapper now store shared = with_root (blank now store shared false) (net.open_stream now)

  unfoldable pub new_from_server : ℕ → (ℕ → StreamClient) → Shared → Option ConnectionTransport
  new_from_server now store shared = with_root (blank now store shared true) (net.accept_stream now)

  unfoldable pub valid_stream : ConnectionTransport → ℕ → Bool
  valid_stream t p = is_valid (net.context_done t.now p) (t.store p)

  -- `Close` of a stream, with whether it returned no error.
  unfoldable pub close_stream : ConnectionTransport → ℕ → ConnectionTransport × Bool
  close_stream t p =
      let (after, ok) = close (net.close_fails t.now p) t.now (t.store p) t.shared in
      (set_stream t p after, ok)

  unfoldable pub close_streams : ConnectionTransport → List ℕ → ConnectionTransport
  close_streams t [] = t
  close_streams t (p ∷ ps) = close_streams (close_stream t p).0 ps

  unfoldable pub add_opened : ConnectionTransport → Option Bytes → ConnectionTransport × Option ℕ
  add_opened t none = (t, none)
  add_opened t (some id) = let (t', p) = new_stream t id in (add_stream t' p, some p)

  -- The part of `Acquire` after the pool.
  unfoldable pub open_new : ConnectionTransport → ConnectionTransport × Option ℕ
  open_new t = add_opened t (net.open_stream t.now)

  -- `Acquire` once it has received from the pool.
  unfoldable pub use_taken : ConnectionTransport → Taken → ConnectionTransport × Option ℕ
  use_taken t nothing_ready = open_new (miss t)
  use_taken t nil_stream = open_new (miss t)
  use_taken t (stream p) =
      if valid_stream t p
      then (record (add_stream t p) { pool_hits = t.pool_hits + 1 }, some p)
      else open_new (close_stream (miss t) p).0

  unfoldable pub acquire : ConnectionTransport → ConnectionTransport × Option ℕ
  acquire t =
      let (t', taken) = take_pooled t in
      if t.pool_config.enabled then use_taken t' taken else open_new t

  unfoldable pub accept_stream : ConnectionTransport → ConnectionTransport × Option ℕ
  accept_stream t = add_opened t (net.accept_stream t.now)

  -- `select { case t.pool <- sc: default: }` and what follows; a send on a closed channel panics.
  unfoldable pub give_back : ConnectionTransport → ℕ → Outcome (ConnectionTransport × Bool)
  give_back t p =
      if t.pool_closed
      then panicked
      else if ltb (length t.pool) pool_capacity
      then done (record t { pool = t.pool ++ p ∷ [] }, true)
      else done (close_stream t p)

  -- `Release`; the gauge is set where the stream went into the pool.
  unfoldable pub release : ConnectionTransport → ℕ → Outcome (ConnectionTransport × Bool)
  release t p =
      let idle = set_stream t p (mark_idle t.now (t.store p), t.shared) in
      if not (valid_stream t p) then done (close_stream t p) else elim (give_back idle p) [
        | panicked ↦ panicked
        | done (t', ok) ↦
            if ltb (length t.pool) pool_capacity
            then done (record t' { pool_gauge = length t'.pool }, ok)
            else done (t', ok)
      ]

  unfoldable pub close_root : ConnectionTransport → ConnectionTransport
  close_root t = elim t.root [ none ↦ t | some p ↦ (close_stream t p).0 ]

  -- `Close` up to the closing of the client: the root stream is closed, the pool closed and drained.
  unfoldable pub shut : ConnectionTransport → ConnectionTransport
  shut t = record (close_root (record t { closed = true })) { pool_closed = true; pool = [] }

  -- The rest of `Close`, once the client is closed.
  unfoldable pub close_all : ConnectionTransport → ConnectionTransport
  close_all t = record (close_streams t t.streams) { streams = [] }

  -- `Close`, with a client that is not nil.
  unfoldable pub close_transport : ConnectionTransport → ConnectionTransport
  close_transport t =
      if t.closed then t else if net.client_close_fails t.now then shut t else close_all (shut t)
