-- ===== src/Honeypot/Summary.antt =====
-- What the statistics of an address say of its visits.
use gunnel.Prelude.{
  ℕ, suc, ◌+◌, ◌-◌, ◌<◌, ◌≡◌, refl, arith, [], ◌∷◌, List, Bytes, Option, none, some, str_eq,
  str_eq_iff, ltb, leb, length, length-append, if◌then◌else◌, Bool-cases, inl, inr, ◌⊎◌,
}
use gunnel.Prelude.Maps.{Map, empty, put}
use gunnel.Http.{Request}
use gunnel.Honeypot.Record.{
  IpStats, number_at, fresh_stats, count_request, suspicious_request, stats_or_fresh, keep_entry,
}

-- One request: when it came, and for which subdomain.
pub record Visit : Type 0 where
  pub time : ℕ
  pub subdomain : Bytes

-- How many of the requests were for `s`.
pub tries : Bytes → List Visit → ℕ
tries s [] = 0
tries s (v ∷ vs) = let rest = tries s vs in if str_eq v.subdomain s then suc rest else rest

-- The time of the newest request; the list has the newest first.
pub newest : List Visit → ℕ
newest [] = 0
newest (v ∷ vs) = v.time

pub record Summary (max : ℕ) (stats : IpStats) (visits : List Visit) : Type 0 where
  pub some_visit : 0 < length visits
  pub counted : stats.request_count ≡ length visits
  pub last : stats.last_seen ≡ newest visits
  pub tried : (s : Bytes) → number_at stats.subdomains_tried s ≡ tries s visits
  pub kept : length stats.requests ≡ (if leb (length visits) max then length visits else max)

unfoldable pub Describes : ℕ → Option IpStats → List Visit → Type 0
Describes max none visits = visits ≡ []
Describes max (some stats) visits = Summary max stats visits

number_at-put :
    (m : Map ℕ) (k s : Bytes) (n : ℕ)
    → number_at (put m k n) s ≡ (if str_eq k s then n else number_at m s)
unfolding number_at
number_at-put m k s n = elim (Bool-cases (str_eq k s)) [
  | inl e ↦ rw (number_at, e) refl
  | inr e ↦ rw (number_at, e) refl
]

tries-cons :
    (m : Map ℕ) (sub s : Bytes) (v : Visit) (visits : List Visit)
    → v.subdomain ≡ sub
    → number_at m sub ≡ tries sub visits
    → number_at m s ≡ tries s visits
    → number_at (put m sub (number_at m sub + 1)) s ≡ tries s (v ∷ visits)
unfolding tries
tries-cons m sub s v visits e at_sub at_s =
    rw (number_at-put m sub s (number_at m sub + 1)) (rw e (ground (arith, str_eq_iff sub s)))

pub count_request-Summary :
    (max now : ℕ) (req : Request) (sub : Bytes) (o : Option IpStats) (visits : List Visit)
    → Describes max o visits
    → Summary max
        (count_request max now req sub (stats_or_fresh now o))
        (record { time = now; subdomain = sub } ∷ visits)
unfolding count_request stats_or_fresh fresh_stats newest Describes
count_request-Summary max now req sub none visits e = rw e (record {
  some_visit = omega arith;
  counted = refl;
  last = refl;
  tried = λ s.
      tries-cons empty sub s _ [] refl (unfold number_at tries in refl)
        (unfold number_at tries in refl);
  kept = ground arith;
})
count_request-Summary max now req sub (some stats) visits d = record {
  some_visit = omega arith;
  counted = ground (arith, d.counted);
  last = refl;
  tried = λ s. tries-cons stats.subdomains_tried sub s _ visits refl (d.tried sub) (d.tried s);
  kept = ground (arith, d.kept, length-append stats.requests (suspicious_request now req sub ∷ []));
}

pub keep_entry-Describes :
    (max ttl now : ℕ) (o : Option IpStats) (visits : List Visit)
    → Describes max o visits
    → Describes max (keep_entry ttl now o) (if ltb ttl (now - newest visits) then [] else visits)
unfolding keep_entry Describes
keep_entry-Describes max ttl now none visits e = rw e (ground arith)
keep_entry-Describes max ttl now (some stats) visits d =
    rw⁻¹ d.last
      (elim (Bool-cases (ltb ttl (now - stats.last_seen))) [ inl e ↦ rw e refl | inr e ↦ rw e d ])

pub Describes-cases :
    (max : ℕ) (o : Option IpStats) (visits : List Visit)
    → Describes max o visits
    → ((o ≡ none) × (visits ≡ []))
      ⊎ ((stats : IpStats) × (o ≡ some stats) × Summary max stats visits)
unfolding Describes
Describes-cases max none visits d = inl (refl, d)
Describes-cases max (some stats) visits d = inr (stats, refl, d)
