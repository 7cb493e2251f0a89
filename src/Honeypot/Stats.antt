-- ===== src/Honeypot/Stats.antt =====
-- The copies of the statistics that are given out.
use gunnel.Prelude.{
  ◌*◌, ◌≡◌, refl, arith, ◌++◌, some, Bytes, length, length-append, length-replicate, replicate,
}
use gunnel.Honeypot.Record.{Honeypot, IpStats, blank_request, get_stats}

-- `GetStats` gives an address as many blank requests as it has real ones, in front of them; the
-- rest of the statistics is as it is kept.
pub get_stats-doubled :
    (h : Honeypot) (ip : Bytes) (stats : IpStats)
    → h.ip_stats ip ≡ some stats
    → (copy : IpStats) × (get_stats h ip ≡ some copy)
      × (copy.requests ≡ replicate (length stats.requests) blank_request ++ stats.requests)
      × (length copy.requests ≡ 2 * length stats.requests)
      × (copy.request_count ≡ stats.request_count)
      × (copy.subdomains_tried ≡ stats.subdomains_tried)
unfolding get_stats
get_stats-doubled h ip stats e =
    let n = length stats.requests in
    (
      record stats { requests = replicate n blank_request ++ stats.requests },
      rw (e, get_stats) refl,
      refl,
      ground (
        arith,
        length-append (replicate n blank_request) stats.requests,
        length-replicate n blank_request,
      ),
      refl,
      refl,
    )
