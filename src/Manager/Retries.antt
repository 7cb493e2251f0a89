-- ===== src/Manager/Retries.antt =====
-- What the two attempts of `handleProxyFlow` do.
use gunnel.Prelude.{
  ℕ, suc, ◌-◌, ◌≡◌, ◌⊎◌, refl, ◌∙◌, subst, true, false, Option, none, some, Bytes, Option-cases,
  Bool-cases, inl, inr,
}
use gunnel.Transport.{Transport}
use gunnel.Connection.{acquire}
use gunnel.Manager.Registry.{
  Manager, err_no_connection, err_subdomain_not_found, Acquired, acquired, refused, acquire_stream,
  release_stream, stream_or_error, get_client, set_conn,
}
use gunnel.Manager.Proxy.{
  ProxyError, Attempt, answered, failed, Flow, proxied, no_service, unavailable, gave_up,
  is_retryable_error, no_error, proxy_loop, handle_proxy_flow,
}

module _ {T S : Type 0} (ops : Transport T S) where
  -- Why no stream was acquired, with `client` the address that the subdomain leads to.
  pub Refusal : Option ℕ → Acquired S → Type 0
  Refusal client (acquired s) = (id : ℕ) × (client ≡ some id)
  Refusal client (refused err_no_connection) = (id : ℕ) × (client ≡ some id)
  Refusal client (refused err_subdomain_not_found) = client ≡ none

  stream_or_error-Refusal : (id : ℕ) (o : Option S) → Refusal (some id) (stream_or_error o)
  unfolding stream_or_error Refusal
  stream_or_error-Refusal id none = (id, refl)
  stream_or_error-Refusal id (some s) = (id, refl)

  acquire_stream-Refusal :
      (m : Manager T) (now : ℕ) (sub : Bytes)
      → Refusal (get_client m sub) (acquire_stream ops m now sub).1
  unfolding acquire_stream get_client
  acquire_stream-Refusal m now sub = elim (Option-cases (m.subdomains sub)) [
    | inl e ↦ rw (e, acquire_stream) (unfold Refusal in refl)
    | inr (id, e) ↦
        rw (e, acquire_stream) (stream_or_error-Refusal id (acquire ops (m.conns id) now).1)
  ]

  acquire_stream-get_client :
      (m : Manager T) (now : ℕ) (sub : Bytes)
      → get_client (acquire_stream ops m now sub).0 sub ≡ get_client m sub
  unfolding acquire_stream get_client set_conn
  acquire_stream-get_client m now sub = elim (Option-cases (m.subdomains sub)) [
    | inl e ↦ rw (e, acquire_stream) e
    | inr (id, e) ↦ rw (e, acquire_stream) e
  ]

  release_stream-get_client :
      (m : Manager T) (now : ℕ) (sub : Bytes) (s : S)
      → get_client (release_stream ops m now sub s) sub ≡ get_client m sub
  unfolding release_stream get_client set_conn
  release_stream-get_client m now sub s = elim (Option-cases (m.subdomains sub)) [
    | inl e ↦ rw (e, release_stream) e
    | inr (id, e) ↦ rw (e, release_stream) e
  ]

module _ {T S : Type 0} (ops : Transport T S) (close_stream : S → S)
    (attempt : ℕ → S → Attempt) where
  -- How a result of `handleProxyFlow` comes about, with `client` the address that the subdomain leads
  -- to, by the attempts on the streams that were acquired.
  pub Explained : Option ℕ → Flow → Type 0
  Explained client (proxied status) =
      ((s : S) × (attempt 0 s ≡ answered status))
      ⊎ ((s : S) × (e : ProxyError) × (s' : S) × (attempt 0 s ≡ failed e)
          × (is_retryable_error e ≡ true)
          × (attempt 1 s' ≡ answered status))
  Explained client no_service = (id : ℕ) × (client ≡ some id)
  Explained client unavailable = client ≡ none
  Explained client (gave_up e) =
      ((s : S) × (attempt 0 s ≡ failed e) × (is_retryable_error e ≡ false))
      ⊎ ((s : S) × (e' : ProxyError) × (s' : S) × (attempt 0 s ≡ failed e')
          × (is_retryable_error e' ≡ true)
          × (attempt 1 s' ≡ failed e))

  -- What a round with `left` more makes of what was acquired, and of its attempt.
  module _ (left : ℕ) (m : Manager T) (now : ℕ) (sub : Bytes) (last : ProxyError) where
    round-no_service :
        (acquire_stream ops m now sub).1 ≡ refused err_no_connection
        → (proxy_loop ops close_stream attempt (suc left) m now sub last).1 ≡ no_service
    unfolding proxy_loop
    round-no_service h = rw (h, proxy_loop) refl

    round-unavailable :
        (acquire_stream ops m now sub).1 ≡ refused err_subdomain_not_found
        → (proxy_loop ops close_stream attempt (suc left) m now sub last).1 ≡ unavailable
    unfolding proxy_loop
    round-unavailable h = rw (h, proxy_loop) refl

    round-proxied :
        (s : S) (status : ℕ)
        → (acquire_stream ops m now sub).1 ≡ acquired s
        → attempt (1 - left) s ≡ answered status
        → (proxy_loop ops close_stream attempt (suc left) m now sub last).1 ≡ proxied status
    unfolding proxy_loop
    round-proxied s status h a = rw (h, proxy_loop, a) refl

    round-gave_up :
        (s : S) (e : ProxyError)
        → (acquire_stream ops m now sub).1 ≡ acquired s
        → attempt (1 - left) s ≡ failed e
        → is_retryable_error e ≡ false
        → (proxy_loop ops close_stream attempt (suc left) m now sub last).1 ≡ gave_up e
    unfolding proxy_loop
    round-gave_up s e h a r = rw (h, proxy_loop, a, r) refl

    round-retried :
        (s : S) (e : ProxyError)
        → (acquire_stream ops m now sub).1 ≡ acquired s
        → attempt (1 - left) s ≡ failed e
        → is_retryable_error e ≡ true
        → proxy_loop ops close_stream attempt (suc left) m now sub last
          ≡ proxy_loop ops close_stream attempt left
              (release_stream ops (acquire_stream ops m now sub).0 now sub (close_stream s))
              now
              sub
              e
    unfolding proxy_loop
    round-retried s e h a r = rw (h, proxy_loop, a, r) refl

  Attempt-cases :
      (a : Attempt) → ((status : ℕ) × (a ≡ answered status)) ⊎ ((e : ProxyError) × (a ≡ failed e))
  Attempt-cases (answered status) = inl (status, refl)
  Attempt-cases (failed e) = inr (e, refl)

  -- The second round, after a first attempt with an error that can be retried.
  second_round :
      (client : Option ℕ) (s : S) (e : ProxyError)
      → attempt 0 s ≡ failed e
      → is_retryable_error e ≡ true
      → (m : Manager T) (now : ℕ) (sub : Bytes) (got : Acquired S)
      → (acquire_stream ops m now sub).1 ≡ got
      → Refusal ops client got
      → Explained client (proxy_loop ops close_stream attempt 1 m now sub e).1
  unfolding Refusal Explained
  second_round client s e f t m now sub (refused err_no_connection) h r =
      rw (round-no_service 0 m now sub e h) r
  second_round client s e f t m now sub (refused err_subdomain_not_found) h r =
      rw (round-unavailable 0 m now sub e h) r
  second_round client s e f t m now sub (acquired s') h r = elim (Attempt-cases (attempt 1 s')) [
    | inl (status, a) ↦ rw (round-proxied 0 m now sub e s' status h a) (inr (s, e, s', f, t, a))
    | inr (e', a) ↦ elim (Bool-cases (is_retryable_error e')) [
      | inr n ↦ rw (round-gave_up 0 m now sub e s' e' h a n) (inr (s, e, s', f, t, a))
      | inl y ↦
          rw (round-retried 0 m now sub e s' e' h a y)
            (unfold proxy_loop in inr (s, e, s', f, t, a))
    ]
  ]

  first_round :
      (client : Option ℕ) (m : Manager T) (now : ℕ) (sub : Bytes) (last : ProxyError)
      (got : Acquired S)
      → get_client m sub ≡ client
      → (acquire_stream ops m now sub).1 ≡ got
      → Refusal ops client got
      → Explained client (proxy_loop ops close_stream attempt 2 m now sub last).1
  unfolding Refusal Explained
  first_round client m now sub last (refused err_no_connection) g h r =
      rw (round-no_service 1 m now sub last h) r
  first_round client m now sub last (refused err_subdomain_not_found) g h r =
      rw (round-unavailable 1 m now sub last h) r
  first_round client m now sub last (acquired s) g h r = elim (Attempt-cases (attempt 0 s)) [
    | inl (status, a) ↦ rw (round-proxied 1 m now sub last s status h a) (inl (s, a))
    | inr (e, a) ↦ elim (Bool-cases (is_retryable_error e)) [
      | inr n ↦ rw (round-gave_up 1 m now sub last s e h a n) (inl (s, a, n))
      | inl y ↦
          (let m' = (acquire_stream ops m now sub).0 in
            let m'' = release_stream ops m' now sub (close_stream s) in
            let kept : get_client m'' sub ≡ client =
              release_stream-get_client ops m' now sub (close_stream s)
              ∙ acquire_stream-get_client ops m now sub
              ∙ g in
            rw (round-retried 1 m now sub last s e h a y) (
              second_round client s e a y m'' now sub _ refl (
                subst (λ c. Refusal ops c (acquire_stream ops m'' now sub).1) kept
                  (acquire_stream-Refusal ops m'' now sub))))
    ]
  ]

  -- What `handleProxyFlow` returns comes about as it should: a status or an error is that of the
  -- first attempt, or of the second after a first one with an error that can be retried; an error of
  -- the first attempt is returned only if it cannot be retried; `ErrSubdomainNotFound` is only where
  -- no client is registered, and the error for `ErrNoConnection` only where one is.
  pub handle_proxy_flow-Explained :
      (m : Manager T) (now : ℕ) (sub : Bytes)
      → Explained (get_client m sub) (handle_proxy_flow ops close_stream attempt m now sub).1
  unfolding handle_proxy_flow
  handle_proxy_flow-Explained m now sub =
      first_round (get_client m sub) m now sub no_error _ refl refl
        (acquire_stream-Refusal ops m now sub)
