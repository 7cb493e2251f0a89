-- ===== src/Transport/Pool/Examples.antt =====
-- A transport over a network that opens every stream and closes it without an error.
use gunnel.Prelude.{
  ℕ, ◌+◌, ◌≡◌, ◌<◌, ◌≤◌, ◌⊎◌, ◌↔◌, refl, arith, [], ◌∷◌, ◌++◌, Bool, true, false, Option, none,
  some, codes, length,
}
use gunnel.Go.Slices.{Outcome, done, panicked}
use gunnel.Metrics.{fresh_info}
use gunnel.Metrics.Prometheus.{zeroes}
use gunnel.Transport.Stream.{
  StreamClient, Shared, new_stream_handler, mark_idle, mark_inactive, is_valid,
}
use gunnel.Transport.Pool.{
  Network, ConnectionTransport, pool_capacity, default_pool_config, set_stream, new_stream,
  add_stream, add_opened, blank, with_root, new_wrapper, open_new, miss, take_pooled, use_taken,
  valid_stream, close_stream, close_streams, acquire, give_back, release, close_transport, shut,
  close_all, close_root,
}
use gunnel.Transport.Pool.Cleanup.{
  find_inactive_stream_ids, remove_streams, cleanup_closed_streams, drain, cleanup_idle_pool,
}
use gunnel.Transport.Pool.Tame.{ClosesWell}
use gunnel.Transport.Pool.Removal.{marked, unmarked, remove_streams-find}
use gunnel.Transport.Pool.Idle.{valid_streams, drain-ends_iff, cleanup_idle_pool-valid}
use gunnel.Transport.Pool.Sound.{IsSound}
use gunnel.Transport.Pool.Runs.{Runs, dials, acquires, releases, Runs-IsSound, close_transport-all}
use gunnel.Transport.Pool.Reuse.{reused-gone}

abbrev good_network : Network
good_network = record {
  close_fails = λ now p. false;
  context_done = λ now p. false;
  open_stream = λ now. some (codes "s");
  accept_stream = λ now. some (codes "s");
  client_close_fails = λ now. false;
}

abbrev nothing_shared : Shared
nothing_shared = record { counters = zeroes; total_in = 0; total_out = 0 }

abbrev empty_store : ℕ → StreamClient
empty_store p = record { id = []; is_open = false; metrics_info = fresh_info 0 [] }

abbrev dialled : Option ConnectionTransport
dialled = new_wrapper good_network 1 empty_store nothing_shared

abbrev or_blank : Option ConnectionTransport → ConnectionTransport
or_blank none = blank 1 empty_store nothing_shared false
or_blank (some t) = t

abbrev first : ConnectionTransport
first = or_blank dialled

dialled-first : dialled ≡ some first
unfolding new_wrapper with_root new_stream
dialled-first = refl

first_run : Runs good_network first 0
first_run = dials 1 empty_store nothing_shared dialled-first

abbrev second : ConnectionTransport
second = (acquire good_network first).0

second_run : Runs good_network second 1
second_run = acquires first_run

abbrev released : Outcome (ConnectionTransport × Bool)
released = release good_network second 1

abbrev or_second : Outcome (ConnectionTransport × Bool) → ConnectionTransport
or_second panicked = second
or_second (done (t, ok)) = t

abbrev third : ConnectionTransport
third = or_second released

releases_third : release good_network second 1 ≡ done (third, true)
unfolding release valid_stream is_valid acquire take_pooled use_taken open_new miss add_opened
    new_stream add_stream set_stream new_stream_handler give_back new_wrapper with_root blank
    default_pool_config mark_idle mark_inactive
releases_third = refl

second_knows : 1 < second.next
unfolding acquire take_pooled use_taken open_new miss add_opened new_stream add_stream set_stream
    new_wrapper with_root blank default_pool_config
second_knows = omega arith

third_run : Runs good_network third 1
third_run = releases 1 second_run second_knows releases_third

Runs-IsSound_example : IsSound good_network third 1
Runs-IsSound_example = Runs-IsSound good_network third_run

second_open : second.closed ≡ false
unfolding acquire take_pooled use_taken open_new miss add_opened new_stream add_stream set_stream
    new_wrapper with_root blank default_pool_config
second_open = refl

second_closed_knows : 1 < (close_transport good_network second).next
unfolding close_transport shut close_all close_streams close_root close_stream acquire take_pooled
    use_taken open_new miss add_opened new_stream add_stream set_stream new_wrapper with_root blank
    default_pool_config
second_closed_knows = omega arith

closes_well : ClosesWell good_network 1
closes_well now = refl

close_transport-all_example :
    ((close_transport good_network second).streams ≡ [])
    × ((close_transport good_network second).pool ≡ [])
    × (((close_transport good_network second).store 1).is_open ≡ false)
    × (release good_network (close_transport good_network second) 1
        ≡ done (close_transport good_network second, true))
close_transport-all_example =
    close_transport-all good_network second_run second_open refl 1 second_closed_knows closes_well

abbrev fourth : ConnectionTransport
fourth = (acquire good_network third).0

third_gives : acquire good_network third ≡ (fourth, some 1)
unfolding release valid_stream is_valid acquire take_pooled use_taken open_new miss add_opened
    new_stream add_stream set_stream new_stream_handler give_back new_wrapper with_root blank
    default_pool_config mark_idle mark_inactive
third_gives = refl

third_hits : fourth.pool_hits ≡ third.pool_hits + 1
unfolding release valid_stream is_valid acquire take_pooled use_taken open_new miss add_opened
    new_stream add_stream set_stream new_stream_handler give_back new_wrapper with_root blank
    default_pool_config mark_idle mark_inactive
third_hits = refl

reused-gone_example :
    ((fourth.store 1).metrics_info.is_active ≡ false)
    × (((cleanup_closed_streams fourth).store 1).is_open ≡ false)
reused-gone_example = reused-gone good_network third_run fourth 1 third_gives third_hits

drain-ends_iff_example :
    (drain good_network 2 third ≡ none) ↔ ((third.pool_closed ≡ true) ⊎ (2 ≤ length third.pool))
drain-ends_iff_example = drain-ends_iff good_network 2 third

third_is_open :
    (third.pool_config.enabled ≡ true)
    × (third.pool_closed ≡ false)
    × (length third.pool ≤ pool_capacity)
    × (length third.pool < 2)
unfolding release valid_stream is_valid acquire take_pooled use_taken open_new miss add_opened
    new_stream add_stream set_stream new_stream_handler give_back new_wrapper with_root blank
    default_pool_config mark_idle mark_inactive
third_is_open = (refl, refl, omega arith, omega arith)

cleanup_idle_pool-valid_example :
    cleanup_idle_pool good_network 2 third
    ≡ some (done (record third { pool = valid_streams good_network third third.pool }))
cleanup_idle_pool-valid_example =
    cleanup_idle_pool-valid good_network 2 third third_is_open.0 third_is_open.1 third_is_open.2
      third_is_open.3

remove_streams-find_example :
    remove_streams good_network
      (record third { streams = third.streams ++ 7 ∷ [] })
      (find_inactive_stream_ids third 0)
    ≡ (record (close_streams good_network
        (record third { streams = third.streams ++ 7 ∷ [] })
        (marked third.store third.now 0 third.streams)) {
          streams = unmarked third.store third.now 0 third.streams ++ 7 ∷ [];
        })
remove_streams-find_example =
    remove_streams-find good_network third (record third { streams = third.streams ++ 7 ∷ [] }) 0
      (7 ∷ []) refl
