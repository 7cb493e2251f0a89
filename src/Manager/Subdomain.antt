-- ===== src/Manager/Subdomain.antt =====
-- `extractSubdomain` of pkg/manager/request.go. `trim` is `strings.TrimSpace`.
use gunnel.Prelude.{
  ℕ, ◌-◌, ◌≡◌, refl, ap, List, [], ◌∷◌, ◌++◌, false, ◌&&◌, none, some, Bytes, All, ltb, ◌==◌,
  length, take, drop, if◌then◌else◌, Bool-cases, inl, inr,
}
use gunnel.Go.Strings.{has_prefix, has_suffix}
use gunnel.Http.{Request, Net}

-- `host[1 : len(host)-1]` for an address in brackets.
unfoldable pub strip_brackets : Bytes → Bytes
strip_brackets host =
    if has_prefix host b'[' && has_suffix host b']' && ltb 2 (length host)
    then take (length host - 2) (drop 1 host)
    else host

-- `strings.TrimSuffix(host, ".")`
unfoldable pub trim_dot : Bytes → Bytes
trim_dot [] = []
trim_dot (c ∷ []) = if c == b'.' then [] else c ∷ []
trim_dot (c ∷ d ∷ s) = c ∷ trim_dot (d ∷ s)

unfoldable pub add_to_first : ℕ → List Bytes → List Bytes
add_to_first c [] = (c ∷ []) ∷ []
add_to_first c (p ∷ ps) = (c ∷ p) ∷ ps

-- `strings.Split(host, ".")`
unfoldable pub split_dots : Bytes → List Bytes
split_dots [] = [] ∷ []
split_dots (c ∷ s) = let rest = split_dots s in if c == b'.' then [] ∷ rest else add_to_first c rest

-- `parts[0]` if there is more than one part.
unfoldable pub first_of_many : List Bytes → Bytes
first_of_many [] = []
first_of_many (p ∷ []) = []
first_of_many (p ∷ q ∷ ps) = p

module _ (net : Net) (trim : Bytes → Bytes) where
  -- The request's host, with its port, or the address of the peer.
  unfoldable pub host_port : Request → Bytes
  host_port req =
      let host = trim req.host in if length host == 0 then trim req.remote_addr else host

  unfoldable pub host_of : Request → Bytes
  host_of req =
      let hp = host_port req in
      trim_dot (strip_brackets (elim (net.split_host_port hp) [ none ↦ hp | some h ↦ h ]))

  unfoldable pub extract_subdomain : Request → Bytes
  extract_subdomain req =
      let host = host_of req in if net.parse_ip host then [] else first_of_many (split_dots host)

abbrev pub HasNoDot : Bytes → Type 0
HasNoDot = All (λ c. (c == b'.') ≡ false)

add_to_first-HasNoDot :
    (c : ℕ) (ps : List Bytes)
    → (c == b'.') ≡ false
    → All HasNoDot ps
    → All HasNoDot (add_to_first c ps)
unfolding add_to_first
add_to_first-HasNoDot c [] e h = ((e, tt), tt)
add_to_first-HasNoDot c (p ∷ ps) e h = ((e, h.0), h.1)

split_dots-HasNoDot : (s : Bytes) → All HasNoDot (split_dots s)
unfolding split_dots
split_dots-HasNoDot [] = (tt, tt)
split_dots-HasNoDot (c ∷ s) = elim (Bool-cases (c == b'.')) [
  | inl e ↦ rw e (tt, split_dots-HasNoDot s)
  | inr e ↦ rw e (add_to_first-HasNoDot c (split_dots s) e (split_dots-HasNoDot s))
]

first_of_many-HasNoDot : (ps : List Bytes) → All HasNoDot ps → HasNoDot (first_of_many ps)
unfolding first_of_many
first_of_many-HasNoDot [] h = tt
first_of_many-HasNoDot (p ∷ []) h = tt
first_of_many-HasNoDot (p ∷ q ∷ ps) h = h.0

-- A label, a dot and what follows it are at least two parts, the first of them the label.
split_dots-label :
    (label s : Bytes) → HasNoDot label → split_dots (label ++ b'.' ∷ s) ≡ label ∷ split_dots s
unfolding split_dots add_to_first
split_dots-label [] s h = refl
split_dots-label (c ∷ label) s (e, h) = rw e (rw (split_dots-label label s h) refl)

split_dots-cons : (s : Bytes) → (p : Bytes) × (ps : List Bytes) × (split_dots s ≡ p ∷ ps)
unfolding split_dots add_to_first
split_dots-cons [] = ([], [], refl)
split_dots-cons (c ∷ s) = elim (Bool-cases (c == b'.')) [
  | inl e ↦ ([], split_dots s, rw e refl)
  | inr e ↦ let (p, ps, f) = split_dots-cons s in (c ∷ p, ps, rw e (rw f refl))
]

trim_dot-label :
    (label : Bytes) (c : ℕ) (s : Bytes)
    → trim_dot (label ++ b'.' ∷ c ∷ s) ≡ label ++ b'.' ∷ trim_dot (c ∷ s)
unfolding trim_dot
trim_dot-label [] c s = refl
trim_dot-label (l ∷ []) c s = refl
trim_dot-label (l ∷ k ∷ label) c s = ap (◌∷◌ l) (trim_dot-label (k ∷ label) c s)

strip_brackets-bare : (s : Bytes) → has_prefix s b'[' ≡ false → strip_brackets s ≡ s
unfolding strip_brackets
strip_brackets-bare s h = rw h refl

module _ (net : Net) (trim : Bytes → Bytes) where
  -- The subdomain of a request never has a dot in it.
  pub extract_subdomain-HasNoDot : (req : Request) → HasNoDot (extract_subdomain net trim req)
  unfolding extract_subdomain
  extract_subdomain-HasNoDot req = elim (Bool-cases (net.parse_ip (host_of net trim req))) [
    | inl e ↦ rw e tt
    | inr e ↦ rw e (first_of_many-HasNoDot _ (split_dots-HasNoDot _))
  ]

  -- Where the host, less its port, is a label without a dot, a dot, and at least one more byte, is
  -- not in brackets, and is not an address once a dot at its end is cut off, the subdomain is the
  -- label.
  pub extract_subdomain-label :
      (req : Request) (label : Bytes) (c : ℕ) (s : Bytes)
      → HasNoDot label
      → has_prefix (label ++ b'.' ∷ c ∷ s) b'[' ≡ false
      → net.split_host_port (host_port net trim req) ≡ some (label ++ b'.' ∷ c ∷ s)
      → net.parse_ip (trim_dot (label ++ b'.' ∷ c ∷ s)) ≡ false
      → extract_subdomain net trim req ≡ label
  unfolding extract_subdomain host_of first_of_many
  extract_subdomain-label req label c s h b e p =
      let (q, qs, f) = split_dots-cons (trim_dot (c ∷ s)) in
      rw (e) (
        rw (strip_brackets-bare _ b) (
          rw p (
            rw (trim_dot-label label c s)
              (rw (split_dots-label label (trim_dot (c ∷ s)) h) (rw f refl)))))
