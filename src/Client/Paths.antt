-- ===== src/Client/Paths.antt =====
-- Which paths and which configurations pass.
use gunnel.Prelude.{
  ◌<◌, ◌≡◌, ◌≢◌, ◌↔◌, ◌⊎◌, refl, arith, List, [], ◌∷◌, ◌++◌, true, false, some, Bytes, codes,
  str_eq_iff, ◌==◌, length, Bool-cases, inl, inr, if◌then◌else◌,
}
use gunnel.Go.Strings.{
  has_suffix, drop_last, starts_with_iff, has_suffix-drop_last, has_suffix-append, drop_last-append,
}
use gunnel.Protocol.Enum.{http, valid}
use gunnel.Client.Config.{
  BackendConfig, ok, path_matches, any_matches, is_path_allowed, validate_backend,
}

-- An entry of the list of allowed paths stands for a path: a prefix and a star for the paths that
-- begin with the prefix, any other entry for itself.
abbrev pub Permits : Bytes → Bytes → Type 0
Permits path allowed =
    ((prefix : Bytes) × (rest : Bytes) × (allowed ≡ prefix ++ b'*' ∷ []) × (path ≡ prefix ++ rest))
    ⊎ ((has_suffix allowed b'*' ≡ false) × (path ≡ allowed))

path_matches→Permits :
    (path allowed : Bytes) → path_matches path allowed ≡ true → Permits path allowed
unfolding path_matches
path_matches→Permits path allowed h = elim (Bool-cases (has_suffix allowed b'*')) [
  | inl y ↦
      (let (rest, e) = (starts_with_iff path (drop_last allowed)).0 (ground (arith, h, y)) in
        inl (drop_last allowed, rest, has_suffix-drop_last allowed b'*' y, e))
  | inr n ↦ inr (n, (str_eq_iff path allowed).0 (ground (arith, h, n)))
]

Permits→path_matches :
    (path allowed : Bytes) → Permits path allowed → path_matches path allowed ≡ true
unfolding path_matches
Permits→path_matches path allowed (inl (prefix, rest, e, f)) = rw e (
    rw (has_suffix-append prefix b'*')
      (rw (drop_last-append prefix b'*') ((starts_with_iff path prefix).1 (rest, f))))
Permits→path_matches path allowed (inr (n, e)) = rw n ((str_eq_iff path allowed).1 e)

cons_ne_nil : {A : Type 0} {a : A} {s : List A} → a ∷ s ≢ []
cons_ne_nil e = cc

-- Some entry of the list.
abbrev pub Some : (Bytes → Type 0) → List Bytes → Type 0
Some P [] = ⊥
Some P (a ∷ rest) = P a ⊎ Some P rest

any_matches→Some :
    (path : Bytes) (list : List Bytes) → any_matches path list ≡ true → Some (Permits path) list
unfolding any_matches
any_matches→Some path [] h = absurd (ground arith)
any_matches→Some path (a ∷ rest) h = elim (Bool-cases (path_matches path a)) [
  | inl y ↦ inl (path_matches→Permits path a y)
  | inr n ↦ inr (any_matches→Some path rest (ground (arith, h, n)))
]

Some→any_matches :
    (path : Bytes) (list : List Bytes) → Some (Permits path) list → any_matches path list ≡ true
unfolding any_matches
Some→any_matches path [] s = elim s [ ]
Some→any_matches path (a ∷ rest) (inl p) = rw (Permits→path_matches path a p) refl
Some→any_matches path (a ∷ rest) (inr s) = ground (arith, Some→any_matches path rest s)

allowed_iff :
    (path : Bytes) (list : List Bytes)
    → ((if length list == 0 then true else any_matches path list) ≡ true)
      ↔ ((list ≡ []) ⊎ Some (Permits path) list)
allowed_iff path [] = ((λ h. inl refl), λ k. refl)
allowed_iff path (a ∷ rest) = (
  (λ h. inr (any_matches→Some path (a ∷ rest) (ground (arith, h)))),
  (λ k. elim k [
    | inl e ↦ absurd (cons_ne_nil e)
    | inr s ↦ ground (arith, Some→any_matches path (a ∷ rest) s)
  ]),
)

-- A path is allowed exactly if the list is empty or some entry of it stands for the path.
pub is_path_allowed_iff :
    (b : BackendConfig) (path : Bytes)
    → (is_path_allowed b path ≡ true)
      ↔ ((b.allowed_paths ≡ []) ⊎ Some (Permits path) b.allowed_paths)
unfolding is_path_allowed
is_path_allowed_iff b path = allowed_iff path b.allowed_paths

length-ne_nil : (s : Bytes) → 0 < length s → s ≢ []
length-ne_nil [] h = absurd (omega arith)
length-ne_nil (c ∷ s) h = cons_ne_nil

-- A backend that has all that `validate` asks for passes as it is.
validate_backend-whole :
    (b : BackendConfig)
    → 0 < length b.host
    → 0 < b.port
    → 0 < length b.subdomain
    → 0 < length b.protocol
    → valid b.protocol ≡ true
    → validate_backend (some b) ≡ ok b
unfolding validate_backend
validate_backend-whole b h p s q v = ground arith

-- What a backend that passes has.
validate_backend-has :
    (b b' : BackendConfig)
    → validate_backend (some b) ≡ ok b'
    → (0 < length b'.host)
      × (0 < b'.port)
      × (0 < length b'.subdomain)
      × (0 < length b'.protocol)
      × (valid b'.protocol ≡ true)
unfolding validate_backend
validate_backend-has b b' e =
    let http_valid : valid http ≡ true = unfold valid in refl in
    let local : length (codes "localhost") ≡ 9 = refl in ground (arith, e, http_valid, local)

validate_backend-keeps :
    (b b' : BackendConfig)
    → validate_backend (some b) ≡ ok b'
    → (b'.port ≡ b.port) × (b'.subdomain ≡ b.subdomain) × (b'.allowed_paths ≡ b.allowed_paths)
unfolding validate_backend
validate_backend-keeps b b' e = ground (arith, e)

-- A backend that passes has a host, a port, a subdomain and a protocol that `Valid` accepts, and
-- passes again as it is; its port, subdomain and paths are those that were read.
pub validate_backend-ok :
    (b b' : BackendConfig)
    → validate_backend (some b) ≡ ok b'
    → (b'.host ≢ [])
      × (0 < b'.port)
      × (b'.subdomain ≢ [])
      × (valid b'.protocol ≡ true)
      × (b'.port ≡ b.port)
      × (b'.subdomain ≡ b.subdomain)
      × (b'.allowed_paths ≡ b.allowed_paths)
      × (validate_backend (some b') ≡ ok b')
validate_backend-ok b b' e =
    let (host, port, sub, proto, v) = validate_backend-has b b' e in
    let (p, s, a) = validate_backend-keeps b b' e in
    (
      length-ne_nil b'.host host,
      port,
      length-ne_nil b'.subdomain sub,
      v,
      p,
      s,
      a,
      validate_backend-whole b' host port sub proto v,
    )
