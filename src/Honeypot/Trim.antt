-- ===== src/Honeypot/Trim.antt =====
-- What `trimSpace`, `splitCSV` and `contains` compute.
use mathlib.Core.List.{reverse, reverse-append, reverse-reverse, reverse-cons}
use gunnel.Prelude.{
  ◌≡◌, ◌↔◌, refl, ap, subst, ◌∙◌, sym, arith, [], ◌∷◌, ◌++◌, true, false, Bytes, All, str_eq,
  str_eq_iff, str_eq_refl, length, length-append, take, drop, take-append-drop, Bool-cases, inl,
  inr,
}
use gunnel.Go.Cursor.{take-append}
use gunnel.Honeypot.Text.{is_space, trim_start, trim_end, trim_space, matches_here, contains}

abbrev pub IsSpaces : Bytes → Type 0
IsSpaces = All (λ c. is_space c ≡ true)

-- A text that does not begin with a space.
abbrev pub StartsBare : Bytes → Type 0
StartsBare [] = Unit
StartsBare (c ∷ s) = is_space c ≡ false

trim_start_lem :
    (s : Bytes)
    → (pre : Bytes) × (s ≡ pre ++ trim_start s) × IsSpaces pre × StartsBare (trim_start s)
unfolding trim_start
trim_start_lem [] = ([], refl, tt, tt)
trim_start_lem (c ∷ s) = elim (Bool-cases (is_space c)) [
  | inl e ↦
      let (pre, split, spaces, bare) = trim_start_lem s in
      rw e (c ∷ pre, ap (◌∷◌ c) split, (e, spaces), bare)
  | inr e ↦ rw e ([], refl, tt, e)
]

IsSpaces-append : (s t : Bytes) → IsSpaces s → IsSpaces t → IsSpaces (s ++ t)
IsSpaces-append [] t h k = k
IsSpaces-append (c ∷ s) t h k = (h.0, IsSpaces-append s t h.1 k)

IsSpaces-reverse : (s : Bytes) → IsSpaces s → IsSpaces (reverse s)
IsSpaces-reverse [] h = tt
IsSpaces-reverse (c ∷ s) h =
    rw (reverse-cons c s) (IsSpaces-append (reverse s) (c ∷ []) (IsSpaces-reverse s h.1) (h.0, tt))

StartsBare-front : (s t : Bytes) → StartsBare (s ++ t) → StartsBare s
StartsBare-front [] t h = tt
StartsBare-front (c ∷ s) t h = h

-- `trimSpace` cuts spaces, tabs and line ends off both ends of a text, and nothing else: what it
-- returns neither begins nor ends with one.
pub trim_space_lem :
    (s : Bytes)
    → (pre : Bytes) × (post : Bytes) × (s ≡ pre ++ (trim_space s ++ post))
      × IsSpaces pre
      × IsSpaces post
      × StartsBare (trim_space s)
      × StartsBare (reverse (trim_space s))
unfolding trim_space trim_end
trim_space_lem s =
    let (pre, e, spaces, bare) = trim_start_lem s in
    let t = trim_start s in
    let (q, f, q_spaces, u_bare) = trim_start_lem (reverse t) in
    let u = trim_start (reverse t) in
    let g : t ≡ reverse u ++ reverse q =
      sym (reverse-reverse t) ∙ ap reverse f ∙ reverse-append q u in
    (
      pre,
      reverse q,
      e ∙ ap (◌++◌ pre) g,
      spaces,
      IsSpaces-reverse q q_spaces,
      StartsBare-front (reverse u) (reverse q) (subst StartsBare g bare),
      subst StartsBare (sym (reverse-reverse u)) u_bare,
    )

-- Texts found in texts.
matches_here-split : (s sub : Bytes) → matches_here s sub ≡ true → s ≡ sub ++ drop (length sub) s
unfolding matches_here
matches_here-split s sub h =
    let e : take (length sub) s ≡ sub = ground (arith, str_eq_iff (take (length sub) s) sub) in
    sym (take-append-drop (length sub) s) ∙ ap (λ x. x ++ drop (length sub) s) e

matches_here-append : (sub b : Bytes) → matches_here (sub ++ b) sub ≡ true
unfolding matches_here
matches_here-append sub b = ground (arith, length-append sub b, take-append sub b, str_eq_refl sub)

contains→split :
    (s sub : Bytes) → contains s sub ≡ true → (a : Bytes) × (b : Bytes) × (s ≡ a ++ (sub ++ b))
unfolding contains
contains→split [] sub h = ([], drop (length sub) [], matches_here-split [] sub h)
contains→split (c ∷ s) sub h = elim (Bool-cases (matches_here (c ∷ s) sub)) [
  | inl e ↦ ([], drop (length sub) (c ∷ s), matches_here-split (c ∷ s) sub e)
  | inr e ↦ let (a, b, f) = contains→split s sub (ground arith) in (c ∷ a, b, ap (◌∷◌ c) f)
]

split→contains : (a sub b : Bytes) → contains (a ++ (sub ++ b)) sub ≡ true
unfolding contains
split→contains [] [] [] = unfold matches_here str_eq in refl
split→contains [] [] (c ∷ b) = rw (matches_here-append [] (c ∷ b)) refl
split→contains [] (d ∷ sub) b = rw (matches_here-append (d ∷ sub) b) refl
split→contains (c ∷ a) sub b = ground (arith, split→contains a sub b)

-- `contains` finds a text exactly where the other is that text with something before and behind.
pub contains_iff :
    (s sub : Bytes) → (contains s sub ≡ true) ↔ ((a : Bytes) × (b : Bytes) × (s ≡ a ++ (sub ++ b)))
contains_iff s sub = (contains→split s sub, λ (a, b, e). rw e (split→contains a sub b))
