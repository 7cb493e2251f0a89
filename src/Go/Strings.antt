-- ===== src/Go/Strings.antt =====
-- What the program calls of package strings.
use gunnel.Prelude.{
  ℕ, ◌≡◌, ◌↔◌, refl, ap, arith, [], ◌∷◌, ◌++◌, Bool, true, false, ◌&&◌, Bytes, ◌==◌,
}

-- `strings.HasPrefix` and `strings.HasSuffix`, for a text of one byte.
unfoldable pub has_prefix : Bytes → ℕ → Bool
has_prefix [] b = false
has_prefix (c ∷ s) b = c == b

unfoldable pub has_suffix : Bytes → ℕ → Bool
has_suffix [] b = false
has_suffix (c ∷ []) b = c == b
has_suffix (c ∷ d ∷ s) b = has_suffix (d ∷ s) b

-- `strings.HasPrefix(s, prefix)`
unfoldable pub starts_with : Bytes → Bytes → Bool
starts_with s [] = true
starts_with [] (b ∷ prefix) = false
starts_with (c ∷ s) (b ∷ prefix) = c == b && starts_with s prefix

-- `strings.TrimSuffix(s, suffix)` for a suffix of one byte that `s` has.
unfoldable pub drop_last : Bytes → Bytes
drop_last [] = []
drop_last (c ∷ []) = []
drop_last (c ∷ d ∷ s) = c ∷ drop_last (d ∷ s)

starts_with→split :
    (s prefix : Bytes) → starts_with s prefix ≡ true → (rest : Bytes) × (s ≡ prefix ++ rest)
unfolding starts_with
starts_with→split s [] h = (s, refl)
starts_with→split [] (b ∷ prefix) h = absurd (ground arith)
starts_with→split (c ∷ s) (b ∷ prefix) h =
    let (rest, e) = starts_with→split s prefix (ground (arith, h)) in
    let same : c ≡ b = ground (arith, h) in (rest, rw (same, e) refl)

split→starts_with : (prefix rest : Bytes) → starts_with (prefix ++ rest) prefix ≡ true
unfolding starts_with
split→starts_with [] rest = refl
split→starts_with (b ∷ prefix) rest = ground (arith, split→starts_with prefix rest)

pub starts_with_iff :
    (s prefix : Bytes) → (starts_with s prefix ≡ true) ↔ ((rest : Bytes) × (s ≡ prefix ++ rest))
starts_with_iff s prefix =
    (starts_with→split s prefix, λ (rest, e). rw e (split→starts_with prefix rest))

-- A text that ends in a byte is the text without it and the byte.
pub has_suffix-drop_last : (s : Bytes) (b : ℕ) → has_suffix s b ≡ true → s ≡ drop_last s ++ b ∷ []
unfolding has_suffix drop_last
has_suffix-drop_last [] b h = absurd (ground arith)
has_suffix-drop_last (c ∷ []) b h = ground (arith, h)
has_suffix-drop_last (c ∷ d ∷ s) b h = ap (◌∷◌ c) (has_suffix-drop_last (d ∷ s) b h)

pub has_suffix-append : (s : Bytes) (b : ℕ) → has_suffix (s ++ b ∷ []) b ≡ true
unfolding has_suffix
has_suffix-append [] b = ground arith
has_suffix-append (c ∷ []) b = ground arith
has_suffix-append (c ∷ d ∷ s) b = has_suffix-append (d ∷ s) b

pub drop_last-append : (s : Bytes) (b : ℕ) → drop_last (s ++ b ∷ []) ≡ s
unfolding drop_last
drop_last-append [] b = refl
drop_last-append (c ∷ []) b = refl
drop_last-append (c ∷ d ∷ s) b = ap (◌∷◌ c) (drop_last-append (d ∷ s) b)
