-- ===== src/WebUi/Sums.antt =====
-- The statistics of a subdomain against sums over the streams that the collector keeps.
use gunnel.Prelude.{
  ℕ, ◌+◌, ◌*◌, ◌≡◌, refl, sym, ◌∙◌, ap, arith, List, [], ◌∷◌, Bool, not, Bytes, ltb, if◌then◌else◌,
  str_eq, ◌&&◌, ◌||◌, Bool-cases, inl, inr, str_eq_iff,
}
use mathlib.Core.List.{Perm, foldr}
use mathlib.Core.List.Perm
use native.Mathlib.Nat.{ℕ_set}
use gunnel.Prelude.Int.{ℤ}
use gunnel.Prelude.Maps.{Map, empty}
use gunnel.Metrics.{StreamInfo, Collector}
use gunnel.WebUi.{
  SubStats, minute, no_stats, stats_or_new, add_active, add_inactive, keep_active, keep_inactive,
  get_active_streams, get_inactive_streams, add_all, update_stats,
}

-- A sum over the streams that are chosen.
pub sum_of : (StreamInfo → Bool) → (StreamInfo → ℕ) → (ℕ → StreamInfo) → List ℕ → ℕ
sum_of chosen value infos [] = 0
sum_of chosen value infos (p ∷ ps) =
    let rest = sum_of chosen value infos ps in
    if chosen (infos p) then value (infos p) + rest else rest

-- The streams of a subdomain that are active, and those that are or started at most five minutes ago.
abbrev pub active_in : Bytes → StreamInfo → Bool
active_in k i = i.is_active && str_eq i.subdomain k

abbrev pub shown_in : ℕ → Bytes → StreamInfo → Bool
shown_in now k i =
    str_eq i.subdomain k && (i.is_active || not (ltb (i.start_time + 5 * minute) now))

-- The streams of a subdomain that the second loop counts, of the inactive ones.
abbrev late_in : ℕ → Bytes → StreamInfo → Bool
late_in now k i = str_eq i.subdomain k && not (ltb (i.start_time + 5 * minute) now)

abbrev one : StreamInfo → ℕ
one i = 1

abbrev of_key : Map SubStats → Bytes → SubStats
of_key m k = stats_or_new (m k)

-- What a list adds to an entry: `a` active streams, `t` in all, `i` bytes in and `o` out.
abbrev plus : SubStats → ℕ → ℕ → ℕ → ℕ → SubStats
plus s a t i o = record {
  active_streams = s.active_streams + a;
  total_streams = s.total_streams + t;
  bytes_in = s.bytes_in + i;
  bytes_out = s.bytes_out + o;
}

-- What a loop over a list adds, with `d` active streams for each that is chosen.
abbrev tally : SubStats → ℕ → (StreamInfo → Bool) → (ℕ → StreamInfo) → List ℕ → SubStats
tally s d c infos ps =
    plus s (sum_of c (λ i. d) infos ps) (sum_of c one infos ps)
      (sum_of c (λ i. i.bytes_received) infos ps) (sum_of c (λ i. i.bytes_sent) infos ps)

plus_none : (s : SubStats) → s ≡ plus s 0 0 0 0
plus_none s = ground arith

plus_one :
    (s : SubStats) (d x y a t i o : ℕ)
    → plus (plus s d 1 x y) a t i o ≡ plus s (d + a) (1 + t) (x + i) (y + o)
plus_one s d x y a t i o = ground arith

plus_two :
    (a t i o a' t' i' o' : ℕ) {a'' t'' i'' o'' : ℕ}
    → a + a' ≡ a''
    → t + t' ≡ t''
    → i + i' ≡ i''
    → o + o' ≡ o''
    → plus (plus no_stats a t i o) a' t' i' o'
      ≡ record { active_streams = a''; total_streams = t''; bytes_in = i''; bytes_out = o'' }
unfolding no_stats
plus_two a t i o a' t' i' o' x y z w = ground (arith, x, y, z, w)

sum-keep_active :
    (c : StreamInfo → Bool) (v : StreamInfo → ℕ) (infos : ℕ → StreamInfo) (ps : List ℕ)
    → sum_of c v infos (keep_active infos ps) ≡ sum_of (λ i. i.is_active && c i) v infos ps
unfolding sum_of keep_active
sum-keep_active c v infos [] = refl
sum-keep_active c v infos (p ∷ ps) = elim (Bool-cases (infos p).is_active) [
  | inl y ↦ simp (y, sum-keep_active c v infos ps) refl
  | inr n ↦ simp (n, sum-keep_active c v infos ps) refl
]

sum-keep_inactive :
    (c : StreamInfo → Bool) (v : StreamInfo → ℕ) (infos : ℕ → StreamInfo) (ps : List ℕ)
    → sum_of c v infos (keep_inactive infos ps) ≡ sum_of (λ i. not i.is_active && c i) v infos ps
unfolding sum_of keep_inactive
sum-keep_inactive c v infos [] = refl
sum-keep_inactive c v infos (p ∷ ps) = elim (Bool-cases (infos p).is_active) [
  | inl y ↦ simp (y, sum-keep_inactive c v infos ps) refl
  | inr n ↦ simp (n, sum-keep_inactive c v infos ps) refl
]

sum_zero :
    (c : StreamInfo → Bool) (infos : ℕ → StreamInfo) (ps : List ℕ) → sum_of c (λ i. 0) infos ps ≡ 0
unfolding sum_of
sum_zero c infos [] = refl
sum_zero c infos (p ∷ ps) = let rest = sum_zero c infos ps in ground (arith, rest)

-- The active streams of a subdomain and the inactive ones that are shown.
sum-both :
    (now : ℕ) (k : Bytes) (v : StreamInfo → ℕ) (infos : ℕ → StreamInfo) (ps : List ℕ)
    → sum_of (λ i. i.is_active && str_eq i.subdomain k) v infos ps
        + sum_of (λ i. not i.is_active && late_in now k i) v infos ps
      ≡ sum_of (shown_in now k) v infos ps
unfolding sum_of
sum-both now k v infos [] = refl
sum-both now k v infos (p ∷ ps) = let rest = sum-both now k v infos ps in ground arith

-- The entry of a subdomain after a loop whose rounds add the streams that are chosen, `d` to the
-- active ones for each.
module _ (infos : ℕ → StreamInfo) (k : Bytes) (add : Map SubStats → StreamInfo → Map SubStats)
    (c : StreamInfo → Bool) (d : ℕ)
    (added : (m : Map SubStats) (i : StreamInfo)
      → of_key (add m i) k
        ≡ (if c i then plus (of_key m k) d 1 i.bytes_received i.bytes_sent else of_key m k)) where
  all_added :
      (m : Map SubStats) (ps : List ℕ)
      → of_key (add_all add infos m ps) k ≡ tally (of_key m k) d c infos ps
  unfolding add_all sum_of
  all_added m [] = plus_none (of_key m k)
  all_added m (p ∷ ps) = elim (Bool-cases (c (infos p))) [
    | inl y ↦
        all_added (add m (infos p)) ps
        ∙ rw (added m (infos p), y) (plus_one (of_key m k) d _ _ _ _ _ _)
    | inr n ↦ all_added (add m (infos p)) ps ∙ rw (added m (infos p), n) refl
  ]

-- A sum does not depend on the order of a list.
sum-Perm :
    (c : StreamInfo → Bool) (v : StreamInfo → ℕ) (infos : ℕ → StreamInfo) {ps qs : List ℕ}
    → Perm ps qs
    → sum_of c v infos ps ≡ sum_of c v infos qs
unfolding sum_of
sum-Perm c v infos {ps} {qs} perm =
    sum-foldr ps ∙ Perm.foldr-eq ℕ_set step steps perm 0 ∙ sym (sum-foldr qs)
  where
    step : ℕ → ℕ → ℕ
    step p n = if c (infos p) then v (infos p) + n else n

    sum-foldr : (ps : List ℕ) → sum_of c v infos ps ≡ foldr step 0 ps
    sum-foldr [] = refl
    sum-foldr (p ∷ ps) = ap (step p) (sum-foldr ps)

    steps : (p q n : ℕ) → step p (step q n) ≡ step q (step p n)
    steps p q n = ground arith

module _ (sort_func : (ℕ → ℕ → ℤ) → List ℕ → List ℕ)
    (sort_func-Perm : (cmp : ℕ → ℕ → ℤ) (ps : List ℕ) → Perm (sort_func cmp ps) ps) (now : ℕ)
    (k : Bytes) where
  sum-actives :
      (c : StreamInfo → Bool) (v : StreamInfo → ℕ) (infos : ℕ → StreamInfo) (ps : List ℕ)
      → sum_of c v infos (get_active_streams sort_func infos ps)
        ≡ sum_of (λ i. i.is_active && c i) v infos ps
  unfolding get_active_streams
  sum-actives c v infos ps = sum-Perm c v infos (sort_func-Perm _ _) ∙ sum-keep_active c v infos ps

  sum-inactives :
      (c : StreamInfo → Bool) (v : StreamInfo → ℕ) (infos : ℕ → StreamInfo) (ps : List ℕ)
      → sum_of c v infos (get_inactive_streams sort_func infos ps)
        ≡ sum_of (λ i. not i.is_active && c i) v infos ps
  unfolding get_inactive_streams
  sum-inactives c v infos ps =
      sum-Perm c v infos (sort_func-Perm _ _) ∙ sum-keep_inactive c v infos ps

  added_active :
      (m : Map SubStats) (i : StreamInfo)
      → of_key (add_active m i) k ≡ (
          if str_eq i.subdomain k
          then plus (of_key m k) 1 1 i.bytes_received i.bytes_sent
          else of_key m k)
  unfolding add_active stats_or_new
  added_active m i = elim (Bool-cases (str_eq i.subdomain k)) [
    | inl e ↦ rw (e, (str_eq_iff i.subdomain k).0 e) refl
    | inr e ↦ rw e refl
  ]

  added_inactive :
      (m : Map SubStats) (i : StreamInfo)
      → of_key (add_inactive now m i) k ≡ (
          if late_in now k i
          then plus (of_key m k) 0 1 i.bytes_received i.bytes_sent
          else of_key m k)
  unfolding add_inactive stats_or_new
  added_inactive m i = elim (Bool-cases (ltb (i.start_time + 5 * minute) now)) [
    | inl o ↦ elim (Bool-cases (str_eq i.subdomain k)) [
      | inl e ↦ rw (o, e) refl
      | inr e ↦ rw (o, e) refl
    ]
    | inr o ↦ elim (Bool-cases (str_eq i.subdomain k)) [
      | inl e ↦ rw (o, e, (str_eq_iff i.subdomain k).0 e) (ground arith)
      | inr e ↦ rw (o, e) refl
    ]
  ]

  shown_sum :
      (v : StreamInfo → ℕ) (infos : ℕ → StreamInfo) (ps : List ℕ)
      → sum_of (λ i. str_eq i.subdomain k) v infos (get_active_streams sort_func infos ps)
          + sum_of (late_in now k) v infos (get_inactive_streams sort_func infos ps)
        ≡ sum_of (shown_in now k) v infos ps
  shown_sum v infos ps =
      rw
        (
          sum-actives (λ i. str_eq i.subdomain k) v infos ps,
          sum-inactives (late_in now k) v infos ps,
        )
        (sum-both now k v infos ps)

  active_sum :
      (infos : ℕ → StreamInfo) (ps : List ℕ)
      → sum_of (λ i. str_eq i.subdomain k) one infos (get_active_streams sort_func infos ps)
          + sum_of (late_in now k) (λ i. 0) infos (get_inactive_streams sort_func infos ps)
        ≡ sum_of (active_in k) one infos ps
  active_sum infos ps =
      rw
        (
          sum-actives (λ i. str_eq i.subdomain k) one infos ps,
          sum_zero (late_in now k) infos (get_inactive_streams sort_func infos ps),
        )
        (omega arith)

  -- Both loops one after the other.
  loops_sum :
      (infos : ℕ → StreamInfo) (ps : List ℕ)
      → of_key
          (add_all
            (add_inactive now)
            infos
            (add_all add_active infos empty (get_active_streams sort_func infos ps))
            (get_inactive_streams sort_func infos ps))
          k
        ≡ record {
          active_streams = sum_of (active_in k) one infos ps;
          total_streams = sum_of (shown_in now k) one infos ps;
          bytes_in = sum_of (shown_in now k) (λ i. i.bytes_received) infos ps;
          bytes_out = sum_of (shown_in now k) (λ i. i.bytes_sent) infos ps;
        }
  unfolding stats_or_new
  loops_sum infos ps =
      all_added infos k (add_inactive now) (late_in now k) 0 added_inactive _ _
      ∙ ap (λ s. tally s 0 (late_in now k) infos (get_inactive_streams sort_func infos ps))
          (all_added infos k add_active (λ i. str_eq i.subdomain k) 1 added_active empty _)
      ∙ plus_two _ _ _ _ _ _ _ _ (active_sum infos ps) (shown_sum one infos ps)
          (shown_sum (λ i. i.bytes_received) infos ps) (shown_sum (λ i. i.bytes_sent) infos ps)

-- After `UpdateStats` the entry of a subdomain has the number of its streams that the collector still
-- has and that are active, and the number and the bytes of these and of those that are inactive and
-- started at most five minutes ago, whatever the order in which sorting puts them.
pub update_stats-sums :
    (sort_func : (ℕ → ℕ → ℤ) → List ℕ → List ℕ)
    → ((cmp : ℕ → ℕ → ℤ) (ps : List ℕ) → Perm (sort_func cmp ps) ps)
    → (c : Collector) (now : ℕ) (k : Bytes)
    → let (c', stats) = update_stats sort_func c now in
      stats_or_new (stats k) ≡ record {
        active_streams = sum_of (active_in k) one c'.infos c'.streams;
        total_streams = sum_of (shown_in now k) one c'.infos c'.streams;
        bytes_in = sum_of (shown_in now k) (λ i. i.bytes_received) c'.infos c'.streams;
        bytes_out = sum_of (shown_in now k) (λ i. i.bytes_sent) c'.infos c'.streams;
      }
unfolding update_stats
update_stats-sums sort_func perm c now k = loops_sum sort_func perm now k _ _
