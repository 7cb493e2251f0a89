-- ===== src/Go/Slices.antt =====
-- Indexing, slicing and big-endian integers (`encoding/binary`) on byte slices. A slice's capacity
-- is taken to be its length, as it is for the payloads that `ReadMessage` makes.
use gunnel.Prelude.{
  ℕ, zero, suc, ◌+◌, ◌-◌, ◌*◌, ◌/◌, ◌%◌, ◌^◌, [], ◌∷◌, ◌&&◌, leb, if◌then◌else◌, length, take, drop,
  Bytes,
}

-- A call either returns or panics.
pub data Outcome {ℓ} (A : Type ℓ) : Type ℓ where
  done : A → Outcome A
  panicked : Outcome A

infixl 5 ◌>>=◌
abbrev pub ◌>>=◌ {ℓ κ} : {A : Type ℓ} {B : Type κ} → Outcome A → (A → Outcome B) → Outcome B
done a >>= f = f a
panicked >>= f = panicked

-- `p[i]`
unfoldable pub at : Bytes → ℕ → Outcome ℕ
at [] i = panicked
at (b ∷ p) zero = done b
at (b ∷ p) (suc i) = at p i

-- `p[lo:hi]`
unfoldable pub slice : Bytes → ℕ → ℕ → Outcome Bytes
slice p lo hi =
    if leb lo hi && leb hi (length p) then done (take (hi - lo) (drop lo p)) else panicked

-- `p[lo:]`
unfoldable pub slice_from : Bytes → ℕ → Outcome Bytes
slice_from p lo = if leb lo (length p) then done (drop lo p) else panicked

-- `binary.BigEndian.Uint32(p)`
unfoldable pub be_uint32 : Bytes → Outcome ℕ
be_uint32 (a ∷ b ∷ c ∷ d ∷ p) = done (a * 2 ^ 24 + b * 2 ^ 16 + c * 2 ^ 8 + d)
be_uint32 _ = panicked

-- The bytes that `binary.BigEndian.PutUint32` and `AppendUint32` write for `v`.
unfoldable pub be_bytes : ℕ → Bytes
be_bytes v = v / 2 ^ 24 % 256 ∷ v / 2 ^ 16 % 256 ∷ v / 2 ^ 8 % 256 ∷ v % 256 ∷ []

-- `byte(n)` keeps the low eight bits.
abbrev pub byte : ℕ → ℕ
byte n = n % 256
