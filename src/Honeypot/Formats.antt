-- ===== src/Honeypot/Formats.antt =====
-- That a fake response is always found, and looks like what its content type says.
use gunnel.Prelude.{
  ℕ, zero, suc, ◌<◌, ◌≡◌, ◌⊎◌, refl, arith, List, [], ◌∷◌, ◌++◌, Bool, true, false, ◌||◌, ◌&&◌,
  Option, some, Bytes, All, codes, str_eq, length, if◌then◌else◌, Option-cases, inl, inr,
}
use gunnel.Go.Slices.{done}
use gunnel.Go.Strings.{has_prefix, has_suffix}
use gunnel.Http.{Request}
use gunnel.Honeypot.Fakes.{
  FakeResponse, get_admin_fakes, get_api_fakes, get_scanner_fakes, get_generic_fakes,
  get_fake_responses, response_at, choose, get_fake_response,
}

-- A body between two bytes: braces for JSON, angle brackets for markup; plain text has no form.
pub is_formatted : FakeResponse → Bool
is_formatted r =
    if str_eq r.content_type (codes "application/json")
    then has_prefix r.body b'{' && has_suffix r.body b'}'
    else if str_eq r.content_type (codes "text/html") || str_eq r.content_type (codes "text/xml")
    then has_prefix r.body b'<' && has_suffix r.body b'>'
    else str_eq r.content_type (codes "text/plain")

-- A response is one of a list.
abbrev pub Among : FakeResponse → List FakeResponse → Type 0
Among r [] = ⊥
Among r (x ∷ xs) = (r ≡ x) ⊎ Among r xs

abbrev Formatted : FakeResponse → Type 0
Formatted r = is_formatted r ≡ true

has_suffix-two : (s : Bytes) (a b : ℕ) → has_suffix (s ++ a ∷ b ∷ []) b ≡ true
unfolding has_suffix
has_suffix-two [] a b = ground arith
has_suffix-two (c ∷ []) a b = ground arith
has_suffix-two (c ∷ d ∷ s) a b = has_suffix-two (d ∷ s) a b

IsGood : List FakeResponse → Type 0
IsGood l = All Formatted l × (0 < length l)

if-IsGood : (b : Bool) (l m : List FakeResponse) → IsGood l → IsGood m → IsGood (if b then l else m)
if-IsGood true l m good other = good
if-IsGood false l m good other = other

admin-IsGood : IsGood get_admin_fakes
unfolding IsGood get_admin_fakes is_formatted str_eq has_prefix has_suffix
admin-IsGood = ((refl, (refl, (refl, tt))), omega arith)

api-IsGood : IsGood get_api_fakes
unfolding IsGood get_api_fakes is_formatted str_eq has_prefix has_suffix
api-IsGood = ((refl, (refl, (refl, (refl, tt)))), omega arith)

scanner-IsGood : IsGood get_scanner_fakes
unfolding IsGood get_scanner_fakes is_formatted str_eq has_prefix has_suffix
scanner-IsGood = ((refl, (refl, (refl, (refl, tt)))), omega arith)

generic-IsGood : (now_text : Bytes) → IsGood (get_generic_fakes now_text)
unfolding IsGood get_generic_fakes is_formatted str_eq has_prefix
generic-IsGood now_text = (
  (
    unfold has_suffix in refl,
    (
      unfold has_suffix in refl,
      (has_suffix-two (codes "{\"status\":\"ok\",\"timestamp\":\"" ++ now_text) b'"' b'}', tt),
    ),
  ),
  omega arith,
)

all-IsGood : (now_text path agent : Bytes) → IsGood (get_fake_responses now_text path agent)
unfolding get_fake_responses
all-IsGood now_text path agent =
    if-IsGood _ _ _ admin-IsGood
      (if-IsGood _ _ _ api-IsGood (if-IsGood _ _ _ scanner-IsGood (generic-IsGood now_text)))

pick :
    (l : List FakeResponse) (i : ℕ)
    → i < length l
    → All Formatted l
    → (r : FakeResponse) × (response_at l i ≡ done r) × Among r l × Formatted r
unfolding response_at
pick [] i lt h = absurd (omega arith)
pick (x ∷ xs) zero lt h = (x, refl, inl refl, h.0)
pick (x ∷ xs) (suc i) lt h = let (r, e, a, f) = pick xs i (omega arith) h.1 in (r, e, inr a, f)

-- If `rand.Int` gives numbers below its bound, as it says, `GetFakeResponse` returns without a panic,
-- also where it fails, one of the responses for the path and the user agent of the request, whose
-- body begins and ends as its content type demands.
pub get_fake_response-is_formatted :
    (rand : ℕ → Option ℕ) (now_text : Bytes) (req : Request)
    → ((n i : ℕ) → rand n ≡ some i → i < n)
    → (r : FakeResponse) × (get_fake_response rand now_text req ≡ done r)
      × Among r (get_fake_responses now_text req.path (req.header (codes "User-Agent")))
      × (is_formatted r ≡ true)
unfolding get_fake_response IsGood
get_fake_response-is_formatted rand now_text req bound =
    let l = get_fake_responses now_text req.path (req.header (codes "User-Agent")) in
    let good : All Formatted l × (0 < length l) =
      all-IsGood now_text req.path (req.header (codes "User-Agent")) in
    elim (Option-cases (rand (length l))) [
      | inl e ↦ rw e (unfold choose in pick l 0 good.1 good.0)
      | inr (i, e) ↦ rw e (unfold choose in pick l i (bound (length l) i e) good.0)
    ]
