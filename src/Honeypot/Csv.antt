-- ===== src/Honeypot/Csv.antt =====
-- What `splitCSV` returns.
use mathlib.Core.List.{reverse, reverse-reverse}
use gunnel.Prelude.{
  ◌≡◌, ◌≢◌, refl, ap, subst, ◌∙◌, arith, [], ◌∷◌, ◌++◌, append_assoc, append-nil, false, List,
  Bytes, All, ◌==◌, length, Bool-cases, inl, inr,
}
use gunnel.Honeypot.Text.{trim_start, trim_end, trim_space, keep_part, csv_loop, split_csv}
use gunnel.Honeypot.Trim.{StartsBare, trim_space_lem}

abbrev pub HasNoComma : Bytes → Type 0
HasNoComma = All (λ c. (c == b',') ≡ false)

-- A part of a list: a text that is not empty, has no comma, and no space at either end.
pub record IsPart (p : Bytes) : Type 0 where
  pub ne_nil : p ≢ []
  pub no_comma : HasNoComma p
  pub trimmed : trim_space p ≡ p

trim_start-bare : (s : Bytes) → StartsBare s → trim_start s ≡ s
unfolding trim_start
trim_start-bare [] h = refl
trim_start-bare (c ∷ s) h = rw h

trim_space-bare : (s : Bytes) → StartsBare s → StartsBare (reverse s) → trim_space s ≡ s
unfolding trim_space trim_end
trim_space-bare s h k =
    rw (trim_start-bare s h) (rw (trim_start-bare (reverse s) k) (reverse-reverse s))

trim_space_idem : (s : Bytes) → trim_space (trim_space s) ≡ trim_space s
trim_space_idem s =
    let (_, _, _, _, _, front, back) = trim_space_lem s in trim_space-bare (trim_space s) front back

HasNoComma-append : (s t : Bytes) → HasNoComma s → HasNoComma t → HasNoComma (s ++ t)
HasNoComma-append [] t h k = k
HasNoComma-append (c ∷ s) t h k = (h.0, HasNoComma-append s t h.1 k)

HasNoComma-front : (s t : Bytes) → HasNoComma (s ++ t) → HasNoComma s
HasNoComma-front [] t h = tt
HasNoComma-front (c ∷ s) t h = (h.0, HasNoComma-front s t h.1)

HasNoComma-back : (s t : Bytes) → HasNoComma (s ++ t) → HasNoComma t
HasNoComma-back [] t h = h
HasNoComma-back (c ∷ s) t h = HasNoComma-back s t h.1

trim_space-HasNoComma : (s : Bytes) → HasNoComma s → HasNoComma (trim_space s)
trim_space-HasNoComma s h =
    let (pre, post, e, _, _, _, _) = trim_space_lem s in
    HasNoComma-front (trim_space s) post
      (HasNoComma-back pre (trim_space s ++ post) (subst HasNoComma e h))

keep_part-IsPart :
    (part : Bytes) (rest : List Bytes)
    → HasNoComma part
    → All IsPart rest
    → All IsPart (keep_part (trim_space part) rest)
unfolding keep_part
keep_part-IsPart part rest h k = elim (Bool-cases (length (trim_space part) == 0)) [
  | inl e ↦ rw e k
  | inr e ↦ rw e (
    record {
      ne_nil = λ f. ground (arith, ap length f);
      no_comma = trim_space-HasNoComma part h;
      trimmed = trim_space_idem part;
    },
    k,
  )
]

csv_loop-IsPart : (part s : Bytes) → HasNoComma part → All IsPart (csv_loop part s)
unfolding csv_loop
csv_loop-IsPart part [] h = keep_part-IsPart part [] h tt
csv_loop-IsPart part (c ∷ s) h = elim (Bool-cases (c == b',')) [
  | inl e ↦ rw (e, csv_loop) (keep_part-IsPart part (csv_loop [] s) h (csv_loop-IsPart [] s tt))
  | inr e ↦
      rw (e, csv_loop)
        (csv_loop-IsPart (part ++ c ∷ []) s (HasNoComma-append part (c ∷ []) h (e, tt)))
]

-- Every text that `splitCSV` returns is a part: not empty, without a comma, without a space at
-- either end.
pub split_csv-IsPart : (s : Bytes) → All IsPart (split_csv s)
unfolding split_csv
split_csv-IsPart s = csv_loop-IsPart [] s tt

-- The parts with a comma between each two.
unfoldable pub join : List Bytes → Bytes
join [] = []
join (p ∷ []) = p
join (p ∷ q ∷ ps) = p ++ b',' ∷ join (q ∷ ps)

keep_part-kept :
    (p : Bytes) (rest : List Bytes) → IsPart p → keep_part (trim_space p) rest ≡ p ∷ rest
unfolding keep_part
keep_part-kept [] rest h = absurd (h.ne_nil refl)
keep_part-kept (c ∷ p) rest h = rw h.trimmed (ground arith)

-- A part in front is collected whole.
csv_loop-end :
    (part p : Bytes) → HasNoComma p → csv_loop part p ≡ keep_part (trim_space (part ++ p)) []
unfolding csv_loop
csv_loop-end part [] h = rw append-nil
csv_loop-end part (c ∷ p) h =
    rw (h.0, csv_loop)
      (csv_loop-end (part ++ c ∷ []) p h.1
        ∙ ap (λ x. keep_part (trim_space x) []) (append_assoc part (c ∷ []) p))

csv_loop-comma :
    (part p s : Bytes)
    → HasNoComma p
    → csv_loop part (p ++ b',' ∷ s) ≡ keep_part (trim_space (part ++ p)) (csv_loop [] s)
unfolding csv_loop
csv_loop-comma part [] s h = rw append-nil
csv_loop-comma part (c ∷ p) s h =
    rw (h.0, csv_loop)
      (csv_loop-comma (part ++ c ∷ []) p s h.1
        ∙ ap (λ x. keep_part (trim_space x) (csv_loop [] s)) (append_assoc part (c ∷ []) p))

-- `splitCSV` takes a list of parts with commas between them apart into those parts.
pub split_csv-join : (ps : List Bytes) → All IsPart ps → split_csv (join ps) ≡ ps
unfolding split_csv join
split_csv-join [] h = unfold csv_loop keep_part trim_space trim_start trim_end in refl
split_csv-join (p ∷ []) h = csv_loop-end [] p h.0.no_comma ∙ keep_part-kept p [] h.0
split_csv-join (p ∷ q ∷ ps) h =
    csv_loop-comma [] p (join (q ∷ ps)) h.0.no_comma
    ∙ keep_part-kept p (csv_loop [] (join (q ∷ ps))) h.0
    ∙ ap (◌∷◌ p) (split_csv-join (q ∷ ps) h.1)
