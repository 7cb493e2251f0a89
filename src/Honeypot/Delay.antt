-- ===== src/Honeypot/Delay.antt =====
-- The exponential delay, in 64-bit arithmetic.
use gunnel.Prelude.{
  ℕ, zero, suc, ◌-◌, ◌*◌, ◌^◌, ◌≤◌, ◌<◌, ◌≡◌, ◌⊎◌, inl, inr, refl, arith, Bool, true, false, ◌||◌,
  ◌==◌, ltb, if◌then◌else◌, Bytes, some, Option-cases, Bool-cases,
}
use native.Mathlib.Decide.{dec_lt}
use gunnel.Prelude.Int.{ℤ, pos, negsuc, ltb_ℤ, ◌≤ℤ◌}
use gunnel.Honeypot.Words.{signed64, pattern64, mul64, shl_one}
use gunnel.Honeypot.Record.{
  Honeypot, IpStats, second, default_config, delay_of, get_delay, is_suspicious,
}

-- The delay with the default configuration: doubled from one second on, and five minutes at most.
abbrev pub exponential : ℕ → ℕ
exponential k = if ltb k 9 then 2 ^ k * second else 300 * second

eq_ℤ : ℤ → ℤ → Bool
eq_ℤ (pos a) (pos b) = a == b
eq_ℤ (negsuc a) (negsuc b) = a == b
eq_ℤ _ _ = false

eq_ℤ→eq : (a b : ℤ) → eq_ℤ a b ≡ true → a ≡ b
unfolding eq_ℤ
eq_ℤ→eq (pos a) (pos b) h = ground arith
eq_ℤ→eq (negsuc a) (negsuc b) h = ground arith
eq_ℤ→eq (pos a) (negsuc b) h = cc
eq_ℤ→eq (negsuc a) (pos b) h = cc

-- Whether two functions agree at the first `k` numbers.
agree : (ℕ → ℤ) → (ℕ → ℤ) → ℕ → Bool
agree f g zero = true
agree f g (suc k) = let before = agree f g k in if eq_ℤ (f k) (g k) then before else false

agree→eq : (f g : ℕ → ℤ) (k j : ℕ) → agree f g k ≡ true → j < k → f j ≡ g j
unfolding agree
agree→eq f g zero j h lt = absurd (omega arith)
agree→eq f g (suc k) j h lt = elim (Bool-cases (eq_ℤ (f k) (g k))) [
  | inr n ↦ absurd (ground (arith, h, n))
  | inl y ↦ elim (dec_lt j k) [
    | yes below ↦ agree→eq f g k j (ground (arith, h, y)) below
    | no last ↦ (let same : j ≡ k = omega arith in rw same (eq_ℤ→eq _ _ y))
  ]
]

-- The delay after `k` requests past the threshold, by the durations of a configuration.
clamped : ℤ → ℤ → ℕ → ℤ
clamped lo hi k =
    let delay = mul64 lo (shl_one k) in if ltb_ℤ hi delay || ltb_ℤ delay lo then hi else delay

-- Below 64 each value is computed; some products wrap around, and none of them into the range.
clamped_table :
    agree (clamped (pos second) (pos (300 * second))) (λ k. pos (exponential k)) 64 ≡ true
unfolding agree eq_ℤ clamped mul64 shl_one signed64 pattern64
clamped_table = refl

clamped_small : (k : ℕ) → k < 64 → clamped (pos second) (pos (300 * second)) k ≡ pos (exponential k)
clamped_small k h =
    agree→eq (clamped (pos second) (pos (300 * second))) (λ k. pos (exponential k)) 64 k
      clamped_table h

shl_one-wide : (k : ℕ) → 64 ≤ k → shl_one k ≡ pos 0
unfolding shl_one
shl_one-wide k h = ground arith

clamped_large : (k : ℕ) → 64 ≤ k → clamped (pos second) (pos (300 * second)) k ≡ pos (exponential k)
unfolding clamped
clamped_large k h =
    let zero_product : mul64 (pos second) (pos 0) ≡ pos 0 =
      unfold mul64 signed64 pattern64 in refl in
    rw (shl_one-wide k h) (rw zero_product (ground arith))

clamped-exponential : (k : ℕ) → clamped (pos second) (pos (300 * second)) k ≡ pos (exponential k)
clamped-exponential k = elim (dec_lt k 64) [
  | yes h ↦ clamped_small k h
  | no h ↦ clamped_large k (omega arith)
]

-- With the delays of the default configuration, an address with `threshold + k` requests waits
-- 2 ^ k seconds, and five minutes from k = 9 on, also where the multiplication overflows an int64.
pub get_delay-exponential :
    (h : Honeypot) (ip : Bytes) (stats : IpStats)
    → h.enabled ≡ true
    → h.min_delay ≡ default_config.min_delay
    → h.max_delay ≡ default_config.max_delay
    → h.ip_stats ip ≡ some stats
    → h.threshold ≤ stats.request_count
    → get_delay h ip ≡ pos (exponential (stats.request_count - h.threshold))
unfolding get_delay delay_of default_config clamped
get_delay-exponential h ip stats e lo hi s le =
    ground (arith, s, lo, hi, clamped-exponential (stats.request_count - h.threshold))

delay_of-clamped :
    (h : Honeypot) (n : ℕ)
    → h.min_delay ≤ℤ h.max_delay
    → (h.min_delay ≤ℤ delay_of h n) × (delay_of h n ≤ℤ h.max_delay)
unfolding delay_of
delay_of-clamped h n le = ground arith

-- Only a suspicious address waits, and with sensible limits it waits between them, whatever the
-- shift and the product overflow to.
pub get_delay-clamped :
    (h : Honeypot) (ip : Bytes)
    → h.min_delay ≤ℤ h.max_delay
    → ((is_suspicious h ip ≡ false) × (get_delay h ip ≡ pos 0))
      ⊎ ((is_suspicious h ip ≡ true)
          × (h.min_delay ≤ℤ get_delay h ip)
          × (get_delay h ip ≤ℤ h.max_delay))
unfolding get_delay is_suspicious
get_delay-clamped h ip le = elim (Option-cases (h.ip_stats ip)) [
  | inl e ↦ ground arith
  | inr (stats, e) ↦ ground (arith, e, delay_of-clamped h stats.request_count le)
]
