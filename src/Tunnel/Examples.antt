-- ===== src/Tunnel/Examples.antt =====
-- A source of two chunks, and a run of `Proxy` in which the local end stops sending first.
use gunnel.Prelude.{ℕ, zero, suc, ◌≡◌, refl, Bool, true, false, none, some, codes}
use gunnel.Tunnel.{fine, ended, ReadResult, finished, copy, Tunnel, new_tunnel_with_local}
use gunnel.Tunnel.Copy.{stop_of, stop, chunks, GoesOn, at_once, next, copy-returns}
use gunnel.Tunnel.Directions.{
  Proxy, proxy_start, second_writes, first_ends, second_ends, Steps, nothing, more, second_copies,
  first_stops, second_stops,
}

abbrev two_chunks : ℕ → ReadResult
two_chunks zero = record { data_read = codes "ab"; status = fine }
two_chunks (suc zero) = record { data_read = codes "c"; status = fine }
two_chunks (suc (suc i)) = record { data_read = codes "lost"; status = ended }

abbrev all_written : ℕ → Bool
all_written i = true

two_go_on : GoesOn two_chunks all_written 0 2
unfolding stop_of
two_go_on = next refl (next refl at_once)

stops_at_two : stop two_chunks all_written 2 ≡ some finished
unfolding stop_of
stops_at_two = refl

copy-returns_example :
    (copy two_chunks all_written false 3 ≡ some (chunks two_chunks all_written 0 2, finished))
    × (copy two_chunks all_written false 2 ≡ none)
copy-returns_example = copy-returns two_chunks all_written 2 finished two_go_on stops_at_two

abbrev pair : Tunnel
pair = new_tunnel_with_local

pair_whole : (pair.local ≡ true) × (pair.remote ≡ true)
unfolding new_tunnel_with_local
pair_whole = (refl, refl)

abbrev answered : Proxy
answered = second_writes proxy_start (codes "hi")

abbrev quiet : Proxy
quiet = first_ends answered

quiet_run : Steps proxy_start quiet
unfolding proxy_start second_writes
quiet_run =
    more (more nothing (second_copies proxy_start (codes "hi") refl refl))
      (first_stops answered refl)

quiet_off : quiet.first_runs ≡ false
unfolding first_ends
quiet_off = refl

over_run : Steps quiet (second_ends quiet)
unfolding proxy_start second_writes first_ends
over_run = more nothing (second_stops quiet refl)
