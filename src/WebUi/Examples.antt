-- ===== src/WebUi/Examples.antt =====
-- An active stream and one that ended long ago, of the same subdomain.
use gunnel.Prelude.{
  ℕ, zero, suc, ◌≡◌, ◌*◌, List, [], ◌∷◌, Bool, true, codes, false, if◌then◌else◌, Bool-cases, inl,
  inr,
}
use mathlib.Core.List.{Perm}
use mathlib.Core.List.Perm
use gunnel.Prelude.Int.{ℤ, pos, negsuc}
use gunnel.Metrics.{StreamInfo, Collector, new_info, update_in, inactive}
use gunnel.WebUi.{minute, stats_or_new, update_stats}
use gunnel.WebUi.Sums.{sum_of, active_in, shown_in, update_stats-sums}

abbrev nobody : StreamInfo
nobody = record {
  id = [];
  subdomain = [];
  start_time = 0;
  last_active = 0;
  is_active = false;
  bytes_received = 0;
  bytes_sent = 0;
}

abbrev two : Collector
two =
    let c : Collector = record {
      infos = λ p. nobody;
      next = 0;
      streams = [];
      total_in = 0;
      total_out = 0;
    } in
    let c' = (new_info c 1 (codes "s")).0 in
    let c'' = (new_info (inactive c' 0 2) (8 * minute) (codes "s")).0 in
    update_in c'' 1 7 (9 * minute)

abbrev is_pos : ℤ → Bool
is_pos (pos zero) = false
is_pos (pos (suc n)) = true
is_pos (negsuc n) = false

-- Sorting by insertion.
unfoldable insert : (ℕ → ℕ → ℤ) → ℕ → List ℕ → List ℕ
insert cmp x [] = x ∷ []
insert cmp x (y ∷ ys) =
    let rest = insert cmp x ys in if is_pos (cmp x y) then y ∷ rest else x ∷ y ∷ ys

unfoldable insertion_sort : (ℕ → ℕ → ℤ) → List ℕ → List ℕ
insertion_sort cmp [] = []
insertion_sort cmp (x ∷ xs) = insert cmp x (insertion_sort cmp xs)

insert-Perm : (cmp : ℕ → ℕ → ℤ) (x : ℕ) (ys : List ℕ) → Perm (insert cmp x ys) (x ∷ ys)
unfolding insert
insert-Perm cmp x [] = Perm.refl (x ∷ [])
insert-Perm cmp x (y ∷ ys) = elim (Bool-cases (is_pos (cmp x y))) [
  | inl e ↦ rw e (Perm.trans (Perm.cons y (insert-Perm cmp x ys)) (Perm.swap x y ys))
  | inr e ↦ rw e (Perm.refl (x ∷ y ∷ ys))
]

insertion_sort-Perm : (cmp : ℕ → ℕ → ℤ) (xs : List ℕ) → Perm (insertion_sort cmp xs) xs
unfolding insertion_sort
insertion_sort-Perm cmp [] = Perm.refl []
insertion_sort-Perm cmp (x ∷ xs) =
    Perm.trans (insert-Perm cmp x (insertion_sort cmp xs))
      (Perm.cons x (insertion_sort-Perm cmp xs))

update_stats-sums_example :
    let (c', stats) = update_stats insertion_sort two (9 * minute) in
    stats_or_new (stats (codes "s")) ≡ record {
      active_streams = sum_of (active_in (codes "s")) (λ i. 1) c'.infos c'.streams;
      total_streams = sum_of (shown_in (9 * minute) (codes "s")) (λ i. 1) c'.infos c'.streams;
      bytes_in =
          sum_of (shown_in (9 * minute) (codes "s")) (λ i. i.bytes_received) c'.infos c'.streams;
      bytes_out =
          sum_of (shown_in (9 * minute) (codes "s")) (λ i. i.bytes_sent) c'.infos c'.streams;
    }
update_stats-sums_example =
    update_stats-sums insertion_sort insertion_sort-Perm two (9 * minute) (codes "s")
