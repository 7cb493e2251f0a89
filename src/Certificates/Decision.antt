-- ===== src/Certificates/Decision.antt =====
-- For which domains the decision function agrees.
use gunnel.Prelude.{
  ◌-◌, ◌≡◌, ◌↔◌, ◌⊎◌, refl, ◌∙◌, sym, ap, arith, ◌∷◌, ◌++◌, Bool, true, Bytes, Option, str_eq,
  str_eq_iff, str_eq_refl, length, length-append, take, drop, take-append-drop, Bool-cases, inl,
  inr,
}
use gunnel.Go.Cursor.{take-append, drop-append}
use gunnel.Certificates.{ends_with, trim_suffix, checks, decision}

trim_suffix-has :
    (s suffix : Bytes)
    → ends_with s suffix ≡ true
    → trim_suffix s suffix ≡ take (length s - length suffix) s
unfolding trim_suffix
trim_suffix-has s suffix h = rw h refl

-- What is in front of a suffix is as long as it should be.
length-front : (p suffix : Bytes) → length (p ++ suffix) - length suffix ≡ length p
length-front p suffix = omega (arith, length-append p suffix)

ends_with→split :
    (s suffix : Bytes) → ends_with s suffix ≡ true → s ≡ trim_suffix s suffix ++ suffix
unfolding ends_with
ends_with→split s suffix h =
    let n = length s - length suffix in
    let same : drop n s ≡ suffix = (str_eq_iff (drop n s) suffix).0 (ground (arith, h)) in
    rw (trim_suffix-has s suffix h) (sym (take-append-drop n s) ∙ ap (λ r. take n s ++ r) same)

split→ends_with : (p suffix : Bytes) → ends_with (p ++ suffix) suffix ≡ true
unfolding ends_with
split→ends_with p suffix =
    rw (length-front p suffix)
      (rw (drop-append p suffix) (ground (arith, length-append p suffix, str_eq_refl suffix)))

trim_suffix-append : (p suffix : Bytes) → trim_suffix (p ++ suffix) suffix ≡ p
trim_suffix-append p suffix =
    trim_suffix-has (p ++ suffix) suffix (split→ends_with p suffix)
    ∙ ap (λ n. take n (p ++ suffix)) (length-front p suffix)
    ∙ take-append p suffix

-- A certificate is asked for exactly for the base domain itself, and for a name in front of it that
-- the checker knows; without a checker only for the base domain.
pub decision_iff :
    (base : Bytes) (checker : Option (Bytes → Bool)) (domain : Bytes)
    → (decision base checker domain ≡ true) ↔ (
        (domain ≡ base)
        ⊎ ((sub : Bytes) × (domain ≡ sub ++ b'.' ∷ base) × (checks checker sub ≡ true)))
unfolding decision
decision_iff base checker domain = (
  (λ h. elim (Bool-cases (str_eq domain base)) [
    | inl y ↦ inl ((str_eq_iff domain base).0 y)
    | inr n ↦ elim (Bool-cases (ends_with domain (b'.' ∷ base))) [
      | inl e ↦ inr (
        trim_suffix domain (b'.' ∷ base),
        ends_with→split domain (b'.' ∷ base) e,
        ground (arith, h, n, e),
      )
      | inr off ↦ absurd (ground (arith, h, n, off))
    ]
  ]),
  (λ k. elim k [
    | inl e ↦ rw ((str_eq_iff domain base).1 e) refl
    | inr (sub, e, c) ↦ elim (Bool-cases (str_eq domain base)) [
      | inl y ↦ rw y refl
      | inr n ↦ rw n (
          rw e
            (rw (split→ends_with sub (b'.' ∷ base)) (rw (trim_suffix-append sub (b'.' ∷ base)) c)))
    ]
  ]),
)
