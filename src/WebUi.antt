-- ===== src/WebUi.antt =====
-- `UpdateStats` of pkg/webui/webui.go, as far as it computes the streams of each subdomain, over the
-- collector of pkg/metrics. `slices.SortFunc` is a parameter, which gets the comparison and the list. The
-- clients and the pages are left out.
pub mod Sums
pub mod Gathered
mod Examples
use gunnel.Prelude.{
  ℕ, ◌+◌, ◌*◌, ◌^◌, List, [], ◌∷◌, Bool, true, false, not, Option, none, some, Bytes, ltb,
  if◌then◌else◌,
}
use gunnel.Prelude.Int.{ℤ, pos, negsuc}
use gunnel.Prelude.Maps.{Map, empty, put}
use gunnel.Metrics.{StreamInfo, Collector, cleanup_old_streams}

-- `subStats`
pub record SubStats : Type 0 where
  pub active_streams : ℕ
  pub total_streams : ℕ
  pub bytes_in : ℕ
  pub bytes_out : ℕ

abbrev pub minute : ℕ
minute = 60 * 10 ^ 9

unfoldable pub no_stats : SubStats
no_stats = record { active_streams = 0; total_streams = 0; bytes_in = 0; bytes_out = 0 }

-- The entry of a subdomain, or a new one.
unfoldable pub stats_or_new : Option SubStats → SubStats
stats_or_new none = no_stats
stats_or_new (some s) = s

-- One round of the loop over the active streams, and of the one over the others.
unfoldable pub add_active : Map SubStats → StreamInfo → Map SubStats
add_active m i =
    let s = stats_or_new (m i.subdomain) in
    put m i.subdomain (record {
      active_streams = s.active_streams + 1;
      total_streams = s.total_streams + 1;
      bytes_in = s.bytes_in + i.bytes_received;
      bytes_out = s.bytes_out + i.bytes_sent;
    })

unfoldable pub add_inactive : ℕ → Map SubStats → StreamInfo → Map SubStats
add_inactive now m i =
    let s = stats_or_new (m i.subdomain) in
    if ltb (i.start_time + 5 * minute) now
    then m
    else put m i.subdomain (record {
      active_streams = s.active_streams;
      total_streams = s.total_streams + 1;
      bytes_in = s.bytes_in + i.bytes_received;
      bytes_out = s.bytes_out + i.bytes_sent;
    })

-- The comparison of `GetActiveStreams` and of `GetInactiveStreams`.
unfoldable pub by_start : (ℕ → StreamInfo) → ℕ → ℕ → ℤ
by_start infos i j =
    if ltb (infos i).start_time (infos j).start_time
    then pos 1
    else if ltb (infos j).start_time (infos i).start_time
    then negsuc 0
    else pos 0

-- Their loops.
unfoldable pub keep_active : (ℕ → StreamInfo) → List ℕ → List ℕ
keep_active infos [] = []
keep_active infos (p ∷ ps) =
    let rest = keep_active infos ps in if (infos p).is_active then p ∷ rest else rest

unfoldable pub keep_inactive : (ℕ → StreamInfo) → List ℕ → List ℕ
keep_inactive infos [] = []
keep_inactive infos (p ∷ ps) =
    let rest = keep_inactive infos ps in if not (infos p).is_active then p ∷ rest else rest

unfoldable pub add_all :
    (Map SubStats → StreamInfo → Map SubStats)
    → (ℕ → StreamInfo)
    → Map SubStats
    → List ℕ
    → Map SubStats
add_all add infos m [] = m
add_all add infos m (p ∷ ps) = add_all add infos (add m (infos p)) ps

module _ (sort_func : (ℕ → ℕ → ℤ) → List ℕ → List ℕ) where
  unfoldable pub get_active_streams : (ℕ → StreamInfo) → List ℕ → List ℕ
  get_active_streams infos ps = sort_func (by_start infos) (keep_active infos ps)

  unfoldable pub get_inactive_streams : (ℕ → StreamInfo) → List ℕ → List ℕ
  get_inactive_streams infos ps = sort_func (by_start infos) (keep_inactive infos ps)

  -- The collector after `UpdateStats`, and the statistics by subdomain.
  unfoldable pub update_stats : Collector → ℕ → Collector × Map SubStats
  update_stats c now =
      let (c', removed) = cleanup_old_streams c now (10 * minute) in
      let actives = add_all add_active c'.infos empty (get_active_streams c'.infos c'.streams) in
      (c', add_all (add_inactive now) c'.infos actives (get_inactive_streams c'.infos c'.streams))
