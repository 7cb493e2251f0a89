-- ===== src/WebUi/Gathered/Shown.antt =====
-- What the web interface shows of the requests that the manager counts.
use gunnel.Prelude.{
  ℕ, ◌+◌, ◌-◌, ◌≤◌, ◌≡◌, refl, ◌∙◌, ap, arith, List, [], ◌∷◌, ◌++◌, Bytes, codes, map, All, false,
  str_eq, Bool-cases, inl, inr, length,
}
use gunnel.Metrics.Requests.{
  CounterVec, Counted, again, anew, Requests, record_request, record_tunnel_error,
}
use gunnel.Manager.Proxy.{Flow, proxied, no_service, unavailable, gave_up}
use gunnel.Manager.Recorded.{Proxying, count_flow, count_flows}
use gunnel.WebUi.Gathered.{
  Family, Totals, zeroes, add_values, requests_name, errors_name, add_family, add_families,
  get_prometheus_metrics,
}

-- The sum of the metrics of a vector.
unfoldable pub total : List (List Bytes × ℕ) → ℕ
total [] = 0
total (x ∷ xs) = x.1 + total xs

-- The families that a vector is gathered to: none if it has no metric.
unfoldable pub family_of : Bytes → List (List Bytes × ℕ) → List Family
family_of name [] = []
family_of name (x ∷ xs) = record { name = name; values = map (λ y. y.1) (x ∷ xs) } ∷ []

abbrev IsOther : Family → Type 0
IsOther f = (str_eq f.name requests_name ≡ false) × (str_eq f.name errors_name ≡ false)

-- What is gathered: the two vectors, each as at most one family, and other families around them.
pub record IsGathered {V : Type 0} (vec : CounterVec V) (r : Requests V) (fs : List Family)
    : Type 0 where
  pub first : List Family
  pub second : List Family
  pub third : List Family
  pub parts :
      fs
      ≡ first
        ++ (family_of requests_name (vec.collect r.requests_total)
            ++ (second ++ (family_of errors_name (vec.collect r.tunnel_errors) ++ third)))
  pub others : All IsOther first × All IsOther second × All IsOther third

-- What some families add to the two sums.
record Adds (fs : List Family) (n m : ℕ) : Type 0 where
  requests : (t : Totals) → (add_families t fs).requests_total ≡ t.requests_total + n
  errors : (t : Totals) → (add_families t fs).tunnel_errors ≡ t.tunnel_errors + m

add_families-append :
    (t : Totals) (a b : List Family) → add_families t (a ++ b) ≡ add_families (add_families t a) b
unfolding add_families
add_families-append t [] b = refl
add_families-append t (f ∷ a) b = add_families-append (add_family t f) a b

append-Adds :
    (a b : List Family) {n m n' m' : ℕ}
    → Adds a n m
    → Adds b n' m'
    → Adds (a ++ b) (n + n') (m + m')
append-Adds a b p q = record {
  requests = λ t.
      rw (add_families-append t a b) (omega (arith, q.requests (add_families t a), p.requests t));
  errors =
      λ t. rw (add_families-append t a b) (omega (arith, q.errors (add_families t a), p.errors t));
}

total-append : (a b : List (List Bytes × ℕ)) → total (a ++ b) ≡ total a + total b
unfolding total
total-append [] b = omega arith
total-append (x ∷ a) b = omega (arith, total-append a b)

nothing_total : {a : List (List Bytes × ℕ)} → a ≡ [] → total a ≡ 0
unfolding total
nothing_total e = rw e refl

values_total :
    (n : ℕ) (xs : List (List Bytes × ℕ)) → add_values n (map (λ y. y.1) xs) ≡ n + total xs
unfolding add_values total
values_total n [] = omega arith
values_total n (x ∷ xs) = omega (arith, values_total (n + x.1) xs)

other-keeps :
    (t : Totals) (f : Family)
    → IsOther f
    → ((add_family t f).requests_total ≡ t.requests_total)
      × ((add_family t f).tunnel_errors ≡ t.tunnel_errors)
unfolding add_family
other-keeps t f o =
    rw (o.0, o.1)
      (elim (Bool-cases (str_eq f.name (codes "gunnel_stream_pool_hits_total"))) [
        | inl e ↦ rw e (refl, refl)
        | inr e ↦
            rw e (elim (Bool-cases (str_eq f.name (codes "gunnel_stream_pool_misses_total"))) [
              | inl d ↦ rw d (refl, refl)
              | inr d ↦ rw d (elim (Bool-cases (str_eq f.name (codes "gunnel_stream_pool_size"))) [
                | inl c ↦ rw c (refl, refl)
                | inr c ↦ rw c (refl, refl)
              ])
            ])
      ])

others-Adds : (fs : List Family) → All IsOther fs → Adds fs 0 0
unfolding add_families
others-Adds [] h = record { requests = λ t. omega arith; errors = λ t. omega arith }
others-Adds (f ∷ fs) (o, h) =
    let rest = others-Adds fs h in
    record {
      requests = λ t. rest.requests (add_family t f) ∙ ap (λ n. n + 0) (other-keeps t f o).0;
      errors = λ t. rest.errors (add_family t f) ∙ ap (λ n. n + 0) (other-keeps t f o).1;
    }

requests-Adds : (xs : List (List Bytes × ℕ)) → Adds (family_of requests_name xs) (total xs) 0
unfolding family_of add_families add_family str_eq
requests-Adds [] = unfold total in record { requests = λ t. omega arith; errors = λ t. omega arith }
requests-Adds (x ∷ xs) = record {
  requests = λ t. values_total t.requests_total (x ∷ xs);
  errors = λ t. omega arith;
}

errors-Adds : (xs : List (List Bytes × ℕ)) → Adds (family_of errors_name xs) 0 (total xs)
unfolding family_of add_families add_family str_eq
errors-Adds [] = unfold total in record { requests = λ t. omega arith; errors = λ t. omega arith }
errors-Adds (x ∷ xs) = record {
  requests = λ t. omega arith;
  errors = λ t. values_total t.tunnel_errors (x ∷ xs);
}

gathered-Adds :
    {V : Type 0} (vec : CounterVec V) (r : Requests V) (fs : List Family)
    → IsGathered vec r fs
    → Adds fs (total (vec.collect r.requests_total)) (total (vec.collect r.tunnel_errors))
gathered-Adds vec r fs g =
    let xs = vec.collect r.requests_total in
    let ys = vec.collect r.tunnel_errors in
    let all = append-Adds g.first _ (others-Adds g.first g.others.0) (
      append-Adds (family_of requests_name xs) _ (requests-Adds xs) (
        append-Adds g.second _ (others-Adds g.second g.others.1) (
          append-Adds (family_of errors_name ys) g.third (errors-Adds ys)
            (others-Adds g.third g.others.2)))) in
    rw g.parts (record {
      requests = λ t. omega (arith, all.requests t);
      errors = λ t. omega (arith, all.errors t);
    })

-- A count is one more in all, whatever its labels.
Counted-total :
    {a b : List (List Bytes × ℕ)} {l : List Bytes} → Counted a l b → total b ≡ total a + 1
unfolding total
Counted-total {l = l} (again xs ys n p q) =
    rw (p, q) (omega (arith, total-append xs ((l, n) ∷ ys), total-append xs ((l, n + 1) ∷ ys)))
Counted-total {l = l} (anew xs ys p q) =
    rw (p, q) (omega (arith, total-append xs ys, total-append xs ((l, 1) ∷ ys)))

unfoldable pub answers : Flow → ℕ
answers (proxied status) = 1
answers _ = 0

-- How many requests ended without an error.
unfoldable pub answered_count : List Proxying → ℕ
answered_count [] = 0
answered_count (p ∷ ps) = answers p.flow + answered_count ps

answers_at_most : (f : Flow) → answers f ≤ 1
unfolding answers
answers_at_most (proxied status) = omega arith
answers_at_most no_service = omega arith
answers_at_most unavailable = omega arith
answers_at_most (gave_up e) = omega arith

module _ {V : Type 0} (vec : CounterVec V) where
  -- What is counted, after some requests.
  record IsTold (r r' : Requests V) (n m : ℕ) : Type 0 where
    requests : total (vec.collect r'.requests_total) ≡ total (vec.collect r.requests_total) + n
    errors : total (vec.collect r'.tunnel_errors) ≡ total (vec.collect r.tunnel_errors) + m

  record_request-IsTold :
      (r : Requests V) (s w : Bytes) (code : ℕ) → IsTold r (record_request vec r s w code) 1 0
  unfolding record_request
  record_request-IsTold r s w code = record {
    requests = Counted-total (vec.inc-collect _ _);
    errors = omega arith;
  }

  record_tunnel_error-IsTold :
      (r : Requests V) (s w : Bytes) → IsTold r (record_tunnel_error vec r s w) 0 1
  unfolding record_tunnel_error
  record_tunnel_error-IsTold r s w = record {
    requests = omega arith;
    errors = Counted-total (vec.inc-collect _ _);
  }

  count_flow-IsTold :
      (r : Requests V) (s w : Bytes) (f : Flow)
      → IsTold r (count_flow vec r s w f) (answers f) (1 - answers f)
  unfolding count_flow answers
  count_flow-IsTold r s w (proxied status) = record_request-IsTold r s w status
  count_flow-IsTold r s w no_service = record_tunnel_error-IsTold r s _
  count_flow-IsTold r s w unavailable = record_tunnel_error-IsTold r s _
  count_flow-IsTold r s w (gave_up e) = record_tunnel_error-IsTold r s _

  count_flows-IsTold :
      (r : Requests V) (ps : List Proxying)
      → IsTold r (count_flows vec r ps) (answered_count ps) (length ps - answered_count ps)
        × (answered_count ps ≤ length ps)
  unfolding count_flows answered_count
  count_flows-IsTold r [] = (record { requests = omega arith; errors = omega arith }, omega arith)
  count_flows-IsTold r (p ∷ ps) =
      let one = count_flow-IsTold r p.subdomain p.method p.flow in
      let rest = count_flows-IsTold (count_flow vec r p.subdomain p.method p.flow) ps in
      let most = answers_at_most p.flow in
      (
        record {
          requests = omega (arith, one.requests, rest.0.requests);
          errors = omega (arith, one.errors, rest.0.errors, rest.1, most);
        },
        omega (arith, rest.1, most),
      )

  -- With counters that were not counted before, the web interface shows as its requests those of
  -- `handleProxyFlow` that ended without an error, and as its tunnel errors the others: each request
  -- once, whatever its subdomain, method, status and kind of error.
  -- The families are gathered after the requests, with one for each of the two vectors.
  pub get_prometheus_metrics-counts :
      (r : Requests V) (ps : List Proxying) (fs : List Family)
      → vec.collect r.requests_total ≡ []
      → vec.collect r.tunnel_errors ≡ []
      → IsGathered vec (count_flows vec r ps) fs
      → let shown = get_prometheus_metrics fs in
        (shown.requests_total ≡ answered_count ps)
        × (shown.requests_total + shown.tunnel_errors ≡ length ps)
  unfolding get_prometheus_metrics
  get_prometheus_metrics-counts r ps fs e d g =
      let told = count_flows-IsTold r ps in
      let adds = gathered-Adds vec (count_flows vec r ps) fs g in
      let none_before = nothing_total e in
      let no_errors = nothing_total d in
      (
        omega (arith, adds.requests zeroes, told.0.requests, none_before),
        omega (
          arith,
          adds.requests zeroes,
          adds.errors zeroes,
          told.0.requests,
          told.0.errors,
          told.1,
          none_before,
          no_errors,
        ),
      )
