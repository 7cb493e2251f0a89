-- ===== src/Metrics.antt =====
-- pkg/metrics/metrics.go: the collector of the streams and their traffic. A `*StreamInfo` is an
-- address in a store, which outlives its place in the collector's list. Times are nanoseconds and
-- arguments; counters are taken not to reach 2 ^ 63. The lists sorted for display are in WebUi.
pub mod Prometheus
pub mod Requests
pub mod Totals
mod Examples
use gunnel.Prelude.{
  ℕ, ◌+◌, List, [], ◌∷◌, ◌++◌, Bool, true, false, ◌||◌, Bytes, ltb, ◌==◌, length, if◌then◌else◌,
}

pub record StreamInfo : Type 0 where
  pub id : Bytes
  pub subdomain : Bytes
  pub start_time : ℕ
  pub last_active : ℕ
  pub is_active : Bool
  pub bytes_received : ℕ
  pub bytes_sent : ℕ

-- `streamMetrics`, with the store; the addresses below `next` are taken.
pub record Collector : Type 0 where
  pub infos : ℕ → StreamInfo
  pub next : ℕ
  pub streams : List ℕ
  pub total_in : ℕ
  pub total_out : ℕ

unfoldable pub set_info : Collector → ℕ → StreamInfo → Collector
set_info c p s = record c { infos = λ q. if q == p then s else c.infos q }

unfoldable pub fresh_info : ℕ → Bytes → StreamInfo
fresh_info now id = record {
  id = id;
  subdomain = [];
  start_time = now;
  last_active = now;
  is_active = true;
  bytes_received = 0;
  bytes_sent = 0;
}

-- `NewInfo`
unfoldable pub new_info : Collector → ℕ → Bytes → Collector × ℕ
new_info c now id = (
  record (set_info c c.next (fresh_info now id)) {
    next = c.next + 1;
    streams = c.streams ++ c.next ∷ [];
  },
  c.next,
)

unfoldable pub set_subdomain : Collector → ℕ → Bytes → Collector
set_subdomain c p subdomain = set_info c p (record (c.infos p) { subdomain = subdomain })

-- `UpdateIn`, `UpdateOut`, `Inactive`
unfoldable pub update_in : Collector → ℕ → ℕ → ℕ → Collector
update_in c p n now =
    record (set_info c p
      (record (c.infos p) { bytes_received = (c.infos p).bytes_received + n; last_active = now })) {
        total_in = c.total_in + n;
      }

unfoldable pub update_out : Collector → ℕ → ℕ → ℕ → Collector
update_out c p n now =
    record (set_info c p
      (record (c.infos p) { bytes_sent = (c.infos p).bytes_sent + n; last_active = now })) {
        total_out = c.total_out + n;
      }

unfoldable pub inactive : Collector → ℕ → ℕ → Collector
inactive c p now = set_info c p (record (c.infos p) { is_active = false; last_active = now })

-- Whether the cleanup keeps a stream: `LastActive.After(now.Add(-maxAge))`, or active.
unfoldable pub is_kept : ℕ → ℕ → StreamInfo → Bool
is_kept now max_age s = s.is_active || ltb now (s.last_active + max_age)

-- The loop of `CleanupOldStreams`: what it keeps, and how many it removes.
unfoldable pub sweep : (ℕ → StreamInfo) → ℕ → ℕ → List ℕ → List ℕ × ℕ
sweep infos now max_age [] = ([], 0)
sweep infos now max_age (p ∷ ps) =
    let (active, removed) = sweep infos now max_age ps in
    if is_kept now max_age (infos p) then (p ∷ active, removed) else (active, removed + 1)

-- `CleanupOldStreams`
unfoldable pub cleanup_old_streams : Collector → ℕ → ℕ → Collector × ℕ
cleanup_old_streams c now max_age =
    let (active, removed) = sweep c.infos now max_age c.streams in
    (record c { streams = active }, removed)

pub record StreamStats : Type 0 where
  pub total_streams : ℕ
  pub active_streams : ℕ
  pub total_bytes_in : ℕ
  pub total_bytes_out : ℕ

unfoldable pub add_stats : (ℕ → StreamInfo) → List ℕ → StreamStats
add_stats infos [] = record {
  total_streams = 0;
  active_streams = 0;
  total_bytes_in = 0;
  total_bytes_out = 0;
}
add_stats infos (p ∷ ps) =
    let rest = add_stats infos ps in
    record {
      total_streams = rest.total_streams + 1;
      active_streams = if (infos p).is_active then rest.active_streams + 1 else rest.active_streams;
      total_bytes_in = rest.total_bytes_in + (infos p).bytes_received;
      total_bytes_out = rest.total_bytes_out + (infos p).bytes_sent;
    }

-- `GetStreamStats`
unfoldable pub get_stream_stats : Collector → StreamStats
get_stream_stats c = add_stats c.infos c.streams
