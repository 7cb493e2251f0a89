-- ===== src/Transport/Stream/Gauge.antt =====
-- The gauge of active streams over the life of one stream, while other streams come and go.
use gunnel.Prelude.{ℕ, ◌≡◌, ◌∷◌, true, Bytes, str_eq, if◌then◌else◌}
use gunnel.Prelude.Int.{ℤ, pos, ◌+ℤ◌}
use gunnel.Metrics.Prometheus.{Counters, label_of, add_active}
use gunnel.Transport.Stream.{
  StreamClient, Shared, new_stream_handler, mark_idle, set_subdomain, count_in, count_out,
}

-- `d` counted under one label, seen at the label `l`.
abbrev pub at_label : Bytes → ℤ → Bytes → ℤ
at_label label d l = if str_eq label l then d else pos 0

abbrev own : StreamClient → Bytes → ℤ
own s l = at_label (label_of s.metrics_info.subdomain) (pos 1) l

-- A stream from `newStreamHandler` on, with the shared counters, while `before` is what they would
-- be without it: the gauge moves for other streams too, and names that are not empty are given.
pub data Lives (now : ℕ) (id : Bytes) : Counters → StreamClient → Shared → Type 0 where
  opens :
      (w : Shared)
      → Lives now id w.counters (new_stream_handler now id w).0 (new_stream_handler now id w).1
  names :
      {before : Counters} {s : StreamClient} {w : Shared} (b : ℕ) (subdomain : Bytes)
      → Lives now id before s w
      → Lives now id before
          (set_subdomain s w (b ∷ subdomain)).0
          (set_subdomain s w (b ∷ subdomain)).1
  reads :
      {before : Counters} {s : StreamClient} {w : Shared} (later n : ℕ)
      → Lives now id before s w
      → Lives now id before (count_in later n s w).0 (count_in later n s w).1
  writes :
      {before : Counters} {s : StreamClient} {w : Shared} (later n : ℕ)
      → Lives now id before s w
      → Lives now id before (count_out later n s w).0 (count_out later n s w).1
  idles :
      {before : Counters} {s : StreamClient} {w : Shared} (later : ℕ)
      → Lives now id before s w
      → Lives now id before (mark_idle later s) w
  others :
      {before : Counters} {s : StreamClient} {w : Shared} (label : Bytes) (d : ℤ)
      → Lives now id before s w
      → Lives now id
          (add_active before label d)
          s
          (record w { counters = add_active w.counters label d })

-- The gauge counts the stream once, under its own subdomain, and the stream is open.
IsCounted : Counters → StreamClient → Shared → Type 0
IsCounted before s w =
    (s.is_open ≡ true) × ((l : Bytes) → w.counters.active l ≡ before.active l +ℤ own s l)
