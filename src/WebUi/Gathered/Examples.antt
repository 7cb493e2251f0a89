-- ===== src/WebUi/Gathered/Examples.antt =====
-- Counters kept in a list, and what is shown of two requests, one of them answered.
use gunnel.Prelude.{
  ℕ, ◌+◌, ◌≡◌, refl, ap, arith, List, [], ◌∷◌, ◌++◌, Bool, true, false, ◌&&◌, Bool-cases, inl, inr,
  Bytes, codes, str_eq, str_eq_iff, if◌then◌else◌, length,
}
use gunnel.Metrics.Requests.{Counted, again, anew, CounterVec, Requests}
use gunnel.Manager.Proxy.{proxied, no_service}
use gunnel.Manager.Recorded.{Proxying, count_flows}
use gunnel.WebUi.Gathered.{Family, get_prometheus_metrics, requests_name, errors_name}
use gunnel.WebUi.Gathered.Shown.{
  IsGathered, family_of, answered_count, get_prometheus_metrics-counts,
}

abbrev labels_eq : List Bytes → List Bytes → Bool
labels_eq [] [] = true
labels_eq [] (b ∷ y) = false
labels_eq (a ∷ x) [] = false
labels_eq (a ∷ x) (b ∷ y) = str_eq a b && labels_eq x y

labels_eq→≡ : (x y : List Bytes) → labels_eq x y ≡ true → x ≡ y
labels_eq→≡ [] [] h = refl
labels_eq→≡ [] (b ∷ y) h = cc
labels_eq→≡ (a ∷ x) [] h = cc
labels_eq→≡ (a ∷ x) (b ∷ y) h = elim (Bool-cases (str_eq a b)) [
  | inl e ↦ let heads = (str_eq_iff a b).0 e in let tails = labels_eq→≡ x y (rw e at h) in cc
  | inr e ↦ absurd (ground (arith, e, h))
]

-- A metric counted once more, or added at the end.
unfoldable tally : List (List Bytes × ℕ) → List Bytes → List (List Bytes × ℕ)
tally [] labels = (labels, 1) ∷ []
tally ((k, n) ∷ xs) labels =
    let rest = tally xs labels in if labels_eq k labels then (labels, n + 1) ∷ xs else (k, n) ∷ rest

after_one :
    {a b : List (List Bytes × ℕ)} {labels : List Bytes} (x : List Bytes × ℕ)
    → Counted a labels b
    → Counted (x ∷ a) labels (x ∷ b)
after_one x (again xs ys n p q) = again (x ∷ xs) ys n (ap (λ l. x ∷ l) p) (ap (λ l. x ∷ l) q)
after_one x (anew xs ys p q) = anew (x ∷ xs) ys (ap (λ l. x ∷ l) p) (ap (λ l. x ∷ l) q)

tally-Counted :
    (v : List (List Bytes × ℕ)) (labels : List Bytes) → Counted v labels (tally v labels)
unfolding tally
tally-Counted [] labels = anew [] [] refl refl
tally-Counted ((k, n) ∷ xs) labels = elim (Bool-cases (labels_eq k labels)) [
  | inl e ↦ rw e (again [] xs n (ap (λ l. (l, n) ∷ xs) (labels_eq→≡ k labels e)) refl)
  | inr e ↦ rw e (after_one (k, n) (tally-Counted xs labels))
]

abbrev listed : CounterVec (List (List Bytes × ℕ))
listed = record { inc = tally; collect = λ v. v; inc-collect = tally-Counted }

abbrev none_yet : Requests (List (List Bytes × ℕ))
none_yet = record { requests_total = []; tunnel_errors = [] }

abbrev two : List Proxying
two =
    record { subdomain = codes "app"; method = codes "GET"; flow = proxied 200 }
    ∷ record { subdomain = codes "app"; method = codes "GET"; flow = no_service }
    ∷ []

abbrev counted : Requests (List (List Bytes × ℕ))
counted = count_flows listed none_yet two

abbrev uptime : Family
uptime = record { name = codes "process_start_time_seconds"; values = 7 ∷ [] }

abbrev families : List Family
families =
    family_of requests_name counted.requests_total
    ++ (family_of errors_name counted.tunnel_errors ++ (uptime ∷ []))

families-IsGathered : IsGathered listed counted families
unfolding str_eq
families-IsGathered = record {
  first = [];
  second = [];
  third = uptime ∷ [];
  parts = refl;
  others = (tt, tt, ((refl, refl), tt));
}

get_prometheus_metrics-counts_example :
    let shown = get_prometheus_metrics families in
    (shown.requests_total ≡ answered_count two)
    × (shown.requests_total + shown.tunnel_errors ≡ length two)
get_prometheus_metrics-counts_example =
    get_prometheus_metrics-counts listed none_yet two families refl refl families-IsGathered
