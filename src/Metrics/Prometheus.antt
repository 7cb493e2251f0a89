-- ===== src/Metrics/Prometheus.antt =====
-- pkg/metrics/prometheus.go, as far as streams call it: counters and a gauge with one value for each
-- label. The library's `Inc`, `Dec` and `Add` are taken to add to the value of a label.
use gunnel.Prelude.{ℕ, ◌+◌, Bytes, codes, str_eq, if◌then◌else◌, length, ◌==◌}
use gunnel.Prelude.Int.{ℤ, pos, negsuc, ◌+ℤ◌}

-- The values of `ActiveStreams`, `StreamConnections`, `BytesReceivedTotal`, `BytesSentTotal`.
pub record Counters : Type 0 where
  pub active : Bytes → ℤ
  pub connections : Bytes → ℕ
  pub received : Bytes → ℕ
  pub sent : Bytes → ℕ

abbrev pub zeroes : Counters
zeroes = record { active = λ l. pos 0; connections = λ l. 0; received = λ l. 0; sent = λ l. 0 }

-- The label of a subdomain.
unfoldable pub label_of : Bytes → Bytes
label_of subdomain = if length subdomain == 0 then codes "unknown" else subdomain

-- The gauge of one label moved by `d`.
unfoldable pub add_active : Counters → Bytes → ℤ → Counters
add_active c label d = record c {
  active = λ l. if str_eq label l then c.active l +ℤ d else c.active l;
}

unfoldable pub inc_active_stream : Counters → Bytes → Counters
inc_active_stream c subdomain = add_active c (label_of subdomain) (pos 1)

unfoldable pub dec_active_stream : Counters → Bytes → Counters
dec_active_stream c subdomain = add_active c (label_of subdomain) (negsuc 0)

unfoldable pub record_stream_connection : Counters → Bytes → Counters
record_stream_connection c subdomain = record c {
  connections = λ l. if str_eq (label_of subdomain) l then c.connections l + 1 else c.connections l;
}

unfoldable pub record_bytes_received : Counters → Bytes → ℕ → Counters
record_bytes_received c subdomain n = record c {
  received = λ l. if str_eq (label_of subdomain) l then c.received l + n else c.received l;
}

unfoldable pub record_bytes_sent : Counters → Bytes → ℕ → Counters
record_bytes_sent c subdomain n = record c {
  sent = λ l. if str_eq (label_of subdomain) l then c.sent l + n else c.sent l;
}
