-- ===== src/Metrics/Examples.antt =====
-- One stream that receives, and is cleaned up.
use gunnel.Prelude.{◌≡◌, arith, [], false, codes}
use gunnel.Metrics.{StreamInfo, Collector, new_info, update_in}
use gunnel.Metrics.Totals.{sum_below, Runs, start, opens, receives, Runs-totals}

abbrev nobody : StreamInfo
nobody = record {
  id = [];
  subdomain = [];
  start_time = 0;
  last_active = 0;
  is_active = false;
  bytes_received = 0;
  bytes_sent = 0;
}

abbrev empty : Collector
empty = record { infos = λ p. nobody; next = 0; streams = []; total_in = 0; total_out = 0 }

abbrev one : Collector
one = (new_info empty 1 (codes "s")).0

abbrev used : Collector
used = update_in one 0 7 2

used_run : Runs used
used_run =
    receives 0 7 2 (opens 1 (codes "s") (start (λ p. nobody))) (unfold new_info in omega arith)

Runs-totals_example :
    (used.total_in ≡ sum_below used.next (λ p. (used.infos p).bytes_received))
    × (used.total_out ≡ sum_below used.next (λ p. (used.infos p).bytes_sent))
Runs-totals_example = Runs-totals used_run
