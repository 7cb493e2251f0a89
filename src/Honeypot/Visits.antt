-- ===== src/Honeypot/Visits.antt =====
-- The statistics of each address against the list of its requests since it was last forgotten.
use gunnel.Prelude.{
  ℕ, ◌-◌, ◌<◌, ◌≤◌, ◌≡◌, ◌↔◌, refl, arith, [], ◌∷◌, Bool, true, false, ◌&&◌, List, Bytes, none,
  some, str_eq, str_eq_iff, ltb, ◌==◌, length, if◌then◌else◌, Bool-cases, inl, inr, ◌⊎◌,
}
use gunnel.Prelude.Maps.{Map, put}
use gunnel.Http.{Request, Net}
use gunnel.Honeypot.Client.{extract_ip}
use gunnel.Honeypot.Record.{
  Config, Honeypot, IpStats, new, count_request, stats_or_fresh, record_ip, record_request,
  is_suspicious, clear, set_enabled, cleanup_stale_ips,
}
use gunnel.Honeypot.Summary.{
  Visit, newest, Summary, Describes, count_request-Summary, keep_entry-Describes, Describes-cases,
}

-- The visits of each address after one more of `ip`.
abbrev pub visit : (Bytes → List Visit) → Bytes → Visit → Bytes → List Visit
visit log ip v j = if str_eq ip j then v ∷ log j else log j

-- What can happen to a honeypot, with the visits of each address since it was last forgotten. The
-- cleanup forgets an address with no visit for longer than the time it is kept.
pub data Runs (net : Net) (c : Config) : Honeypot → (Bytes → List Visit) → Type 0 where
  start : Runs net c (new c) (λ ip. [])
  records :
      {h : Honeypot} {log : Bytes → List Visit} (now : ℕ) (req : Request) (sub : Bytes)
      → Runs net c h log
      → h.enabled ≡ true
      → 0 < length (extract_ip net req)
      → Runs net c
          (record_request net h now req sub)
          (visit log (extract_ip net req) (record { time = now; subdomain = sub }))
  ignores :
      {h : Honeypot} {log : Bytes → List Visit} (now : ℕ) (req : Request) (sub : Bytes)
      → Runs net c h log
      → h.enabled && ltb 0 (length (extract_ip net req)) ≡ false
      → Runs net c (record_request net h now req sub) log
  cleans :
      {h : Honeypot} {log : Bytes → List Visit} (now : ℕ)
      → Runs net c h log
      → Runs net c
          (cleanup_stale_ips h now)
          (λ ip. if ltb c.ip_ttl (now - newest (log ip)) then [] else log ip)
  clears :
      {h : Honeypot} {log : Bytes → List Visit} → Runs net c h log → Runs net c (clear h) (λ ip. [])
  switches :
      {h : Honeypot} {log : Bytes → List Visit} (b : Bool)
      → Runs net c h log
      → Runs net c (set_enabled h b) log

recorded :
    (net : Net) (h : Honeypot) (now : ℕ) (req : Request) (sub : Bytes)
    → h.enabled ≡ true
    → 0 < length (extract_ip net req)
    → (record_request net h now req sub).ip_stats
      ≡ put h.ip_stats (extract_ip net req) (
          count_request h.max_requests_per_ip now req sub
            (stats_or_fresh now (h.ip_stats (extract_ip net req))))
unfolding record_request record_ip
recorded net h now req sub e l = elim (Bool-cases (length (extract_ip net req) == 0)) [
  | inl z ↦ absurd (ground arith)
  | inr nz ↦ rw (e, nz) refl
]

ignored :
    (net : Net) (h : Honeypot) (now : ℕ) (req : Request) (sub : Bytes)
    → h.enabled && ltb 0 (length (extract_ip net req)) ≡ false
    → record_request net h now req sub ≡ h
unfolding record_request record_ip
ignored net h now req sub e = ground arith

visit-Describes :
    (max : ℕ) (m : Map IpStats) (log : Bytes → List Visit) (ip j : Bytes) (stats : IpStats)
    (v : Visit)
    → Summary max stats (v ∷ log ip)
    → Describes max (m j) (log j)
    → Describes max (put m ip stats j) (visit log ip v j)
visit-Describes max m log ip j stats v s d = elim (Bool-cases (str_eq ip j)) [
  | inl e ↦ rw e (unfold Describes in rw (← (str_eq_iff ip j).0 e) s)
  | inr e ↦ rw e d
]

module _ {net : Net} {c : Config} where
  -- The settings never change.
  Runs-config :
      {h : Honeypot} {log : Bytes → List Visit}
      → Runs net c h log
      → (h.threshold ≡ c.threshold)
        × (h.max_requests_per_ip ≡ c.max_requests_per_ip)
        × (h.ip_ttl ≡ c.ip_ttl)
  unfolding new record_request record_ip cleanup_stale_ips clear set_enabled
  Runs-config start = (refl, refl, refl)
  Runs-config (records now req sub run e l) = ground (arith, Runs-config run)
  Runs-config (ignores now req sub run e) = ground (arith, Runs-config run)
  Runs-config (cleans now run) = Runs-config run
  Runs-config (clears run) = Runs-config run
  Runs-config (switches b run) = Runs-config run

  Runs-Describes :
      {h : Honeypot} {log : Bytes → List Visit}
      → Runs net c h log
      → (ip : Bytes) → Describes c.max_requests_per_ip (h.ip_stats ip) (log ip)
  unfolding new clear set_enabled cleanup_stale_ips
  Runs-Describes start ip = unfold Describes in refl
  Runs-Describes (records {h} {log} now req sub run e l) ip =
      let (_, m, _) = Runs-config run in
      let from = extract_ip net req in
      rw (recorded net h now req sub e l, m)
        (visit-Describes c.max_requests_per_ip h.ip_stats log from ip _
          (record { time = now; subdomain = sub })
          (count_request-Summary c.max_requests_per_ip now req sub _ (log from)
            (Runs-Describes run from))
          (Runs-Describes run ip))
  Runs-Describes (ignores {h} now req sub run e) ip =
      rw (ignored net h now req sub e) (Runs-Describes run ip)
  Runs-Describes (cleans {h} {log} now run) ip =
      let (_, _, t) = Runs-config run in
      rw t (
        keep_entry-Describes c.max_requests_per_ip c.ip_ttl now (h.ip_stats ip) (log ip)
          (Runs-Describes run ip))
  Runs-Describes (clears run) ip = unfold Describes in refl
  Runs-Describes (switches b run) ip = Runs-Describes run ip

  -- Whatever is recorded, ignored, cleaned up, cleared and switched on or off, an address has
  -- statistics exactly while there are visits of it that have not been forgotten. Then they hold
  -- their number, the time of the newest, how many were for each subdomain, and as many requests
  -- as there were visits, up to the limit.
  pub Runs-Summary :
      {h : Honeypot} {log : Bytes → List Visit}
      → Runs net c h log
      → (ip : Bytes)
      → ((h.ip_stats ip ≡ none) × (log ip ≡ []))
        ⊎ ((stats : IpStats) × (h.ip_stats ip ≡ some stats)
            × Summary c.max_requests_per_ip stats (log ip))
  Runs-Summary {h} {log} run ip =
      Describes-cases c.max_requests_per_ip (h.ip_stats ip) (log ip) (Runs-Describes run ip)

  -- An address is suspicious exactly if the honeypot is on and there are visits of it that have not
  -- been forgotten, at least `Threshold` of them.
  pub is_suspicious_iff :
      {h : Honeypot} {log : Bytes → List Visit} (ip : Bytes)
      → Runs net c h log
      → (is_suspicious h ip ≡ true)
        ↔ ((h.enabled ≡ true) × (0 < length (log ip)) × (c.threshold ≤ length (log ip)))
  unfolding is_suspicious
  is_suspicious_iff {h} {log} ip run =
      let (t, _, _) = Runs-config run in
      elim (Runs-Summary run ip) [
        | inl (e, l) ↦ rw (e, l) (ground arith)
        | inr (stats, e, s) ↦ rw e (ground (arith, s.counted, s.some_visit, t))
      ]
