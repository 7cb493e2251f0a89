-- ===== src/Honeypot/Text.antt =====
-- `isSpace`, `trimSpace`, `splitCSV` and `contains` of pkg/honeypot/honeypot.go, of which
-- pkg/manager/http.go has copies. An index into a text is kept as the text before or behind it.
use mathlib.Core.List.{reverse}
use gunnel.Prelude.{
  ℕ, [], ◌∷◌, ◌++◌, Bool, true, false, ◌&&◌, ◌||◌, List, Bytes, str_eq, leb, ◌==◌, length, take,
  if◌then◌else◌,
}

unfoldable pub is_space : ℕ → Bool
is_space c = c == b' ' || c == b'\t' || c == b'\n' || c == b'\r'

-- The first loop of `trimSpace`, which moves `start`.
unfoldable pub trim_start : Bytes → Bytes
trim_start [] = []
trim_start (c ∷ s) = let rest = trim_start s in if is_space c then rest else c ∷ s

-- The second loop, which moves `end` from the back.
unfoldable pub trim_end : Bytes → Bytes
trim_end s = reverse (trim_start (reverse s))

unfoldable pub trim_space : Bytes → Bytes
trim_space s = trim_end (trim_start s)

-- `if part != "" { result = append(result, part) }`
unfoldable pub keep_part : Bytes → List Bytes → List Bytes
keep_part part rest = if length part == 0 then rest else part ∷ rest

-- The loop of `splitCSV`: `part` is `s[start:i]`, the other text `s[i:]`.
unfoldable pub csv_loop : Bytes → Bytes → List Bytes
csv_loop part [] = keep_part (trim_space part) []
csv_loop part (c ∷ s) = elim (c == b',') [
  | true ↦ keep_part (trim_space part) (csv_loop [] s)
  | false ↦ csv_loop (part ++ c ∷ []) s
]

unfoldable pub split_csv : Bytes → List Bytes
split_csv s = csv_loop [] s

-- `s[i:i+len(substr)] == substr`, and the bound of the loop.
unfoldable pub matches_here : Bytes → Bytes → Bool
matches_here s substr = leb (length substr) (length s) && str_eq (take (length substr) s) substr

unfoldable pub contains : Bytes → Bytes → Bool
contains [] substr = matches_here [] substr
contains (c ∷ s) substr =
    let rest = contains s substr in if matches_here (c ∷ s) substr then true else rest
