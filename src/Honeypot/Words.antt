-- ===== src/Honeypot/Words.antt =====
-- `time.Duration` is an int64: integers whose products wrap around at 64 bits.
use gunnel.Prelude.{ℕ, ◌-◌, ◌*◌, ◌%◌, ◌^◌, ltb, if◌then◌else◌}
use gunnel.Prelude.Int.{ℤ, pos, negsuc}

-- The integer that a pattern of 64 bits stands for, and the pattern of an integer.
unfoldable pub signed64 : ℕ → ℤ
signed64 w = if ltb w (2 ^ 63) then pos w else negsuc (2 ^ 64 - w - 1)

unfoldable pub pattern64 : ℤ → ℕ
pattern64 (pos n) = n % 2 ^ 64
pattern64 (negsuc n) = 2 ^ 64 - 1 - n % 2 ^ 64

-- `a * b` on int64.
unfoldable pub mul64 : ℤ → ℤ → ℤ
mul64 a b = signed64 (pattern64 a * pattern64 b % 2 ^ 64)

-- `1 << k` on int64, which shifts the bit out from 64 on.
unfoldable pub shl_one : ℕ → ℤ
shl_one k = if ltb k 64 then signed64 (2 ^ k) else pos 0
