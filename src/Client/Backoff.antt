-- ===== src/Client/Backoff.antt =====
-- `reconnectLoop` of pkg/client/client.go. The source computes the wait in float64: a power of two
-- times the delay is exact there as long as it matters, since the minimum cuts it at 300 seconds.
use gunnel.Prelude.{
  ℕ, ◌+◌, ◌*◌, ◌^◌, ◌-◌, ◌≡◌, refl, ap, arith, List, [], ◌∷◌, ◌++◌, if◌then◌else◌, ltb,
}

abbrev pub second : ℕ
second = 10 ^ 9

abbrev pub reconnect_delay : ℕ
reconnect_delay = 5 * second

abbrev pub min : ℕ → ℕ → ℕ
min a b = if ltb a b then a else b

-- The wait before the attempt of this number, from 1 on.
unfoldable pub next_retry : ℕ → ℕ → ℕ
next_retry delay attempt = min (delay * 2 ^ (attempt - 1)) (300 * second)

-- What one round of the loop meets: a connection that is open, or none and then a dial that fails
-- or works.
pub data Round : Type 0 where
  healthy dial_fails dial_works : Round

-- The counter after the round, and the waits before its dial.
unfoldable pub reconnect_round : ℕ → ℕ → Round → ℕ × List ℕ
reconnect_round delay attempt_count healthy = (0, [])
reconnect_round delay attempt_count dial_fails =
    (attempt_count + 1, next_retry delay (attempt_count + 1) ∷ [])
reconnect_round delay attempt_count dial_works = (0, next_retry delay (attempt_count + 1) ∷ [])

-- `reconnectLoop` over some rounds, with all its waits.
unfoldable pub reconnect_loop : ℕ → ℕ → List Round → ℕ × List ℕ
reconnect_loop delay attempt_count [] = (attempt_count, [])
reconnect_loop delay attempt_count (r ∷ rs) =
    let (attempts, waits) = reconnect_round delay attempt_count r in
    let (later, more) = reconnect_loop delay attempts rs in (later, waits ++ more)

-- The failed dials at the end of some rounds.
unfoldable pub failures : ℕ → List Round → ℕ
failures n [] = n
failures n (healthy ∷ rs) = failures 0 rs
failures n (dial_fails ∷ rs) = failures (n + 1) rs
failures n (dial_works ∷ rs) = failures 0 rs

retry_after : (delay n : ℕ) → next_retry delay (n + 1) ≡ min (delay * 2 ^ n) (300 * second)
unfolding next_retry
retry_after delay n = let e : n + 1 - 1 ≡ n = omega arith in rw e refl

last_wait :
    (delay n : ℕ) (rs : List Round)
    → (reconnect_loop delay n (rs ++ dial_fails ∷ [])).1
      ≡ (reconnect_loop delay n rs).1 ++ min (delay * 2 ^ failures n rs) (300 * second) ∷ []
unfolding reconnect_loop reconnect_round failures
last_wait delay n [] = ap (λ w. w ∷ []) (retry_after delay n)
last_wait delay n (healthy ∷ rs) = last_wait delay 0 rs
last_wait delay n (dial_fails ∷ rs) =
    ap (λ ws. next_retry delay (n + 1) ∷ ws) (last_wait delay (n + 1) rs)
last_wait delay n (dial_works ∷ rs) =
    ap (λ ws. next_retry delay (n + 1) ∷ ws) (last_wait delay 0 rs)

-- After any rounds of the loop the wait before the next dial is the delay, doubled for each dial
-- that has failed since the connection was last open or a dial worked, and at most 300 seconds.
pub reconnect_loop-waits :
    (delay : ℕ) (rs : List Round)
    → (reconnect_loop delay 0 (rs ++ dial_fails ∷ [])).1
      ≡ (reconnect_loop delay 0 rs).1 ++ min (delay * 2 ^ failures 0 rs) (300 * second) ∷ []
reconnect_loop-waits delay rs = last_wait delay 0 rs
