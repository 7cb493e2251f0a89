-- ===== src/Honeypot/Record.antt =====
-- The state of `Honeypot` and its operations. Times and durations are nanoseconds; each call takes
-- the time at which it is made. Counters are taken not to reach 2 ^ 63.
use gunnel.Prelude.{
  ℕ, ◌+◌, ◌-◌, ◌*◌, ◌^◌, [], ◌∷◌, ◌++◌, Bool, true, false, ◌||◌, List, Bytes, Option, none, some,
  codes, leb, ltb, ◌==◌, length, replicate, if◌then◌else◌,
}
use gunnel.Prelude.Int.{ℤ, pos, ltb_ℤ}
use gunnel.Prelude.Maps.{Map, empty, put}
use gunnel.Http.{Request, Net}
use gunnel.Honeypot.Client.{extract_ip}
use gunnel.Honeypot.Words.{mul64, shl_one}

pub record SuspiciousRequest : Type 0 where
  pub timestamp : ℕ
  pub subdomain : Bytes
  pub method : Bytes
  pub path : Bytes
  pub user_agent : Bytes
  pub content_type : Bytes
  pub referer : Bytes

pub record IpStats : Type 0 where
  pub first_seen : ℕ
  pub last_seen : ℕ
  pub request_count : ℕ
  pub subdomains_tried : Map ℕ
  pub requests : List SuspiciousRequest

pub record Config : Type 0 where
  pub enabled : Bool
  pub threshold : ℕ
  pub max_requests_per_ip : ℕ
  pub min_delay : ℤ
  pub max_delay : ℤ
  pub cleanup_interval : ℤ
  pub ip_ttl : ℕ

abbrev pub second : ℕ
second = 10 ^ 9

unfoldable pub default_config : Config
default_config = record {
  enabled = true;
  threshold = 3;
  max_requests_per_ip = 50;
  min_delay = pos second;
  max_delay = pos (5 * 60 * second);
  cleanup_interval = pos (30 * 60 * second);
  ip_ttl = 3 * 3600 * second;
}

pub record Honeypot : Type 0 where
  pub ip_stats : Map IpStats
  pub enabled : Bool
  pub threshold : ℕ
  pub max_requests_per_ip : ℕ
  pub min_delay : ℤ
  pub max_delay : ℤ
  pub cleanup_interval : ℤ
  pub ip_ttl : ℕ

-- `New`, less the goroutine that calls `cleanup_stale_ips` every `cleanup_interval`.
unfoldable pub new : Config → Honeypot
new c = record {
  ip_stats = empty;
  enabled = c.enabled;
  threshold = c.threshold;
  max_requests_per_ip = c.max_requests_per_ip;
  min_delay = c.min_delay;
  max_delay = c.max_delay;
  cleanup_interval = c.cleanup_interval;
  ip_ttl = c.ip_ttl;
}

-- The entry of a map of numbers, 0 where there is none.
unfoldable pub number_at : Map ℕ → Bytes → ℕ
number_at m k = elim (m k) [ none ↦ 0 | some n ↦ n ]

unfoldable pub fresh_stats : ℕ → IpStats
fresh_stats now = record {
  first_seen = now;
  last_seen = now;
  request_count = 0;
  subdomains_tried = empty;
  requests = [];
}

-- What is kept of a request.
unfoldable pub suspicious_request : ℕ → Request → Bytes → SuspiciousRequest
suspicious_request now req subdomain = record {
  timestamp = now;
  subdomain = subdomain;
  method = req.method;
  path = req.path;
  user_agent = req.header (codes "User-Agent");
  content_type = req.header (codes "Content-Type");
  referer = req.header (codes "Referer");
}

-- The update of one address's statistics.
unfoldable pub count_request : ℕ → ℕ → Request → Bytes → IpStats → IpStats
count_request max now req subdomain stats = record {
  first_seen = stats.first_seen;
  last_seen = now;
  request_count = stats.request_count + 1;
  subdomains_tried =
      put stats.subdomains_tried subdomain (number_at stats.subdomains_tried subdomain + 1);
  requests =
      if ltb (length stats.requests) max
      then stats.requests ++ suspicious_request now req subdomain ∷ []
      else stats.requests;
}

unfoldable pub stats_or_fresh : ℕ → Option IpStats → IpStats
stats_or_fresh now none = fresh_stats now
stats_or_fresh now (some stats) = stats

unfoldable pub record_ip : Honeypot → ℕ → Bytes → Request → Bytes → Honeypot
record_ip h now ip req subdomain = if length ip == 0 then h else record h {
  ip_stats =
      put h.ip_stats ip (
        count_request h.max_requests_per_ip now req subdomain (stats_or_fresh now (h.ip_stats ip)));
}

-- `RecordRequest`
unfoldable pub record_request : Net → Honeypot → ℕ → Request → Bytes → Honeypot
record_request net h now req subdomain =
    if h.enabled then record_ip h now (extract_ip net req) req subdomain else h

-- `IsSuspicious`
unfoldable pub is_suspicious : Honeypot → Bytes → Bool
is_suspicious h ip =
    if h.enabled
    then elim (h.ip_stats ip) [ none ↦ false | some stats ↦ leb h.threshold stats.request_count ]
    else false

-- The delay for an address with `count` requests.
unfoldable pub delay_of : Honeypot → ℕ → ℤ
delay_of h count =
    let excess_requests = count - h.threshold in
    let delay = mul64 h.min_delay (shl_one excess_requests) in
    if ltb_ℤ h.max_delay delay || ltb_ℤ delay h.min_delay then h.max_delay else delay

-- `GetDelay`
unfoldable pub get_delay : Honeypot → Bytes → ℤ
get_delay h ip =
    if h.enabled
    then elim (h.ip_stats ip) [
      | none ↦ pos 0
      | some stats ↦
          if ltb stats.request_count h.threshold then pos 0 else delay_of h stats.request_count
    ]
    else pos 0

-- The zero value of `SuspiciousRequest`.
abbrev pub blank_request : SuspiciousRequest
blank_request = record {
  timestamp = 0;
  subdomain = [];
  method = [];
  path = [];
  user_agent = [];
  content_type = [];
  referer = [];
}

-- `GetStats`: `make` gives the copy as many blank requests as there are, and `append` adds behind.
unfoldable pub get_stats : Honeypot → Bytes → Option IpStats
get_stats h ip = elim (h.ip_stats ip) [
  | none ↦ none
  | some stats ↦ some (record stats {
    requests = replicate (length stats.requests) blank_request ++ stats.requests;
  })
]

-- `GetSuspiciousIPs`, `GetAllIPs`
unfoldable pub get_suspicious_ips : Honeypot → Map IpStats
get_suspicious_ips h ip = elim (h.ip_stats ip) [
  | none ↦ none
  | some stats ↦ if leb h.threshold stats.request_count then some stats else none
]

unfoldable pub get_all_ips : Honeypot → Map IpStats
get_all_ips h ip = h.ip_stats ip

unfoldable pub clear : Honeypot → Honeypot
clear h = record h { ip_stats = empty }

unfoldable pub set_enabled : Honeypot → Bool → Honeypot
set_enabled h enabled = record h { enabled = enabled }

-- `cleanupStaleIPs`, one entry; `now.Sub(t)` is `now - t`, and no address was seen after `now`.
unfoldable pub keep_entry : ℕ → ℕ → Option IpStats → Option IpStats
keep_entry ttl now none = none
keep_entry ttl now (some stats) = if ltb ttl (now - stats.last_seen) then none else some stats

unfoldable pub cleanup_stale_ips : Honeypot → ℕ → Honeypot
cleanup_stale_ips h now = record h { ip_stats = λ ip. keep_entry h.ip_ttl now (h.ip_stats ip) }
