-- ===== src/Honeypot/Examples.antt =====
-- The honeypot at concrete texts and requests.
use gunnel.Prelude.{
  ℕ, Option, ◌<◌, if◌then◌else◌, ◌-◌, ◌*◌, ◌^◌, ◌≡◌, ◌⊎◌, refl, arith, List, [], ◌∷◌, true, false,
  none, some, Bytes, codes, str_eq, ◌==◌, All,
}
use gunnel.Prelude.Int.{pos}
use gunnel.Prelude.Maps.{empty, put}
use gunnel.Http.{Request, Net}
use gunnel.Honeypot.Text.{is_space, trim_start, trim_end, trim_space}
use gunnel.Honeypot.Client.{extract_ip, forwarded_ip, real_ip, remote_host}
use gunnel.Honeypot.Record.{
  blank_request, Honeypot, IpStats, default_config, new, record_request, get_delay,
}
use gunnel.Honeypot.Csv.{IsPart}
use gunnel.Honeypot.Delay.{exponential, get_delay-exponential}
use gunnel.Honeypot.Summary.{Visit, Summary}
use gunnel.Honeypot.Visits.{visit, Runs, start, records, Runs-Summary}

one_char : (c : ℕ) → is_space c ≡ false → (c == b',') ≡ false → IsPart (c ∷ [])
unfolding trim_space trim_end trim_start
one_char c s h = record { ne_nil = λ e. cc; no_comma = (h, tt); trimmed = rw s (rw s refl) }

two_parts : All IsPart (codes "1" ∷ codes "2" ∷ [])
unfolding is_space
two_parts = (one_char _ refl refl, (one_char _ refl refl, tt))

abbrev no_net : Net
no_net = record { split_host_port = λ s. none; parse_ip = λ s. false }

abbrev probe : Request
probe = record {
  method = codes "GET";
  path = codes "/.env";
  host = codes "x.example.com";
  remote_addr = codes "peer";
  header = λ k. [];
}

abbrev watched : Honeypot
watched = record_request no_net (new default_config) 5 probe (codes "x")

probe_ip : extract_ip no_net probe ≡ codes "peer"
unfolding extract_ip forwarded_ip real_ip remote_host
probe_ip = refl

abbrev probe_visits : Bytes → List Visit
probe_visits =
    visit (λ ip. []) (extract_ip no_net probe) (record { time = 5; subdomain = codes "x" })

one_probe : Runs no_net default_config watched probe_visits
one_probe =
    records 5 probe (codes "x") start (unfold new default_config in refl)
      (rw probe_ip (omega arith))

Runs-Summary_example :
    ((watched.ip_stats (codes "peer") ≡ none) × (probe_visits (codes "peer") ≡ []))
    ⊎ ((stats : IpStats) × (watched.ip_stats (codes "peer") ≡ some stats)
        × Summary default_config.max_requests_per_ip stats (probe_visits (codes "peer")))
Runs-Summary_example = Runs-Summary one_probe (codes "peer")

-- An address with five requests, two past the threshold.
abbrev five : IpStats
five = record {
  first_seen = 1;
  last_seen = 9;
  request_count = 5;
  subdomains_tried = empty;
  requests = blank_request ∷ [];
}

abbrev busy : Honeypot
busy = record {
  ip_stats = put empty (codes "peer") five;
  enabled = true;
  threshold = 3;
  max_requests_per_ip = 50;
  min_delay = pos (10 ^ 9);
  max_delay = pos (300 * 10 ^ 9);
  cleanup_interval = pos 1;
  ip_ttl = 100;
}

is_five : busy.ip_stats (codes "peer") ≡ some five
unfolding str_eq
is_five = refl

get_delay-exponential_example : get_delay busy (codes "peer") ≡ pos (exponential (5 - 3))
get_delay-exponential_example =
    get_delay-exponential busy (codes "peer") five refl (unfold default_config in refl)
      (unfold default_config in refl) is_five (omega arith)

-- A source of randomness that gives the least number, where there is one.
abbrev least : ℕ → Option ℕ
least n = if n == 0 then none else some 0

least_below : (n i : ℕ) → least n ≡ some i → i < n
least_below n i e = ground (arith, e)
