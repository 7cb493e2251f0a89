-- ===== src/Certificates.antt =====
-- `buildDecisionFunc` of pkg/certmanager/cert.go: for which domains a certificate is asked for on
-- demand. The server's checker is `HasKnownSubdomain` of its manager.
pub mod Decision
pub mod Setup
pub mod Obtained
use gunnel.Prelude.{
  ℕ, ◌-◌, ◌++◌, ◌∷◌, Bool, true, false, ◌&&◌, Bytes, Option, none, some, str_eq, leb, length, take,
  drop, if◌then◌else◌,
}

-- `strings.HasSuffix`, `strings.TrimSuffix`
unfoldable pub ends_with : Bytes → Bytes → Bool
ends_with s suffix =
    leb (length suffix) (length s) && str_eq (drop (length s - length suffix) s) suffix

unfoldable pub trim_suffix : Bytes → Bytes → Bytes
trim_suffix s suffix = if ends_with s suffix then take (length s - length suffix) s else s

-- `checker == nil || !checker(subdomain)`, negated.
unfoldable pub checks : Option (Bytes → Bool) → Bytes → Bool
checks none subdomain = false
checks (some checker) subdomain = checker subdomain

-- Whether the decision function returns no error.
unfoldable pub decision : Bytes → Option (Bytes → Bool) → Bytes → Bool
decision base_domain checker domain =
    if str_eq domain base_domain
    then true
    else (let suffix = b'.' ∷ base_domain in
        if ends_with domain suffix then checks checker (trim_suffix domain suffix) else false)
