-- ===== src/Connection/Stuck/Examples.antt =====
-- A client that does not read: the channel fills up, one more `Send` waits, and the stream fails.
use gunnel.Prelude.{ℕ, zero, suc, ◌+◌, ◌<◌, ◌≡◌, refl, subst, arith, false}
use gunnel.Connection.{channel_capacity}
use gunnel.Connection.Stuck.{
  State, waits, returned, asks, fresh, enters_send, puts, stream_fails, receive_fails, Steps,
  nothing, more, Steps-waits,
}

abbrev with_queued : ℕ → State
with_queued n = record fresh { queued = n }

filled : (n : ℕ) → n < channel_capacity + 1 → Steps fresh (with_queued n)
filled zero l = nothing
filled (suc n) l =
    let one_more : n + 1 ≡ suc n = omega arith in
    subst (λ q. Steps fresh (with_queued q)) one_more
      (more (more (filled n (omega arith)) (enters_send (with_queued n) refl refl))
        (puts (record (with_queued n) { caller = waits }) refl (omega arith)))

abbrev stuck : State
stuck = record (with_queued channel_capacity) {
  connected = false;
  caller = waits;
  watcher = returned;
}

stuck_run : Steps fresh stuck
stuck_run =
    more
      (more (filled channel_capacity (omega arith))
        (enters_send (with_queued channel_capacity) refl refl))
      (stream_fails (record (with_queued channel_capacity) { caller = waits }) refl)

Steps-waits_example : (stuck.caller ≡ waits) × (stuck.closer ≡ asks)
Steps-waits_example =
    Steps-waits stuck stuck stuck_run refl refl refl (more nothing (receive_fails stuck))
