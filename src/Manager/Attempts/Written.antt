-- ===== src/Manager/Attempts/Written.antt =====
-- How often the proxy writes a request and a status.
use gunnel.Prelude.{
  ℕ, zero, suc, ◌-◌, ◌+◌, ◌≤◌, ◌≡◌, ◌⊎◌, refl, ◌∙◌, ap, arith, List, [], ◌∷◌, ◌++◌, Option, none,
  some, Bytes, Bool-cases, inl, inr,
}
use gunnel.Transport.{Transport}
use gunnel.Manager.Registry.{
  Manager, err_no_connection, err_subdomain_not_found, Acquired, acquired, refused, acquire_stream,
  release_stream,
}
use gunnel.Manager.Proxy.{
  ProxyError, Attempt, answered, failed, Flow, proxied, gave_up, is_retryable_error, no_error,
  max_retries, proxy_loop, handle_proxy_flow,
}
use gunnel.Manager.Attempts.{
  Waited, is_ready, too_late, failed_before, Response, unread, read, StreamIo, Write, request,
  header, read_response, after_write, after_wait, after_begin, try_proxy_request, attempt,
  loop_writes, flow_writes,
}

-- The statuses among some writes, and how many of them are of the request.
unfoldable pub statuses : List Write → List ℕ
statuses [] = []
statuses (request ∷ ws) = statuses ws
statuses (header status ∷ ws) = status ∷ statuses ws

unfoldable pub requests : List Write → ℕ
requests [] = 0
requests (request ∷ ws) = requests ws + 1
requests (header status ∷ ws) = requests ws

statuses-append : (a b : List Write) → statuses (a ++ b) ≡ statuses a ++ statuses b
unfolding statuses
statuses-append [] b = refl
statuses-append (request ∷ a) b = statuses-append a b
statuses-append (header s ∷ a) b = ap (λ l. s ∷ l) (statuses-append a b)

requests-append : (a b : List Write) → requests (a ++ b) ≡ requests a + requests b
unfolding requests
requests-append [] b = omega arith
requests-append (request ∷ a) b = omega (arith, requests-append a b)
requests-append (header s ∷ a) b = requests-append a b

abbrev status_of_attempt : Attempt → List ℕ
status_of_attempt (answered status) = status ∷ []
status_of_attempt (failed err) = []

abbrev pub status_of_flow : Flow → List ℕ
status_of_flow (proxied status) = status ∷ []
status_of_flow _ = []

-- One attempt writes a status only with its result, and the request at most once.
record IsOnce (r : List Write × Attempt) : Type 0 where
  told : statuses r.0 ≡ status_of_attempt r.1
  sent : requests r.0 ≤ 1

read_response-IsOnce : (r : Response) → IsOnce (read_response r)
unfolding read_response statuses requests
read_response-IsOnce (unread e) = record { told = refl; sent = omega arith }
read_response-IsOnce (read s c) = record { told = refl; sent = omega arith }

nothing-IsOnce : (e : ProxyError) → IsOnce ([], failed e)
unfolding statuses requests
nothing-IsOnce e = record { told = refl; sent = omega arith }

after_write-IsOnce : (o : Option ProxyError) (r : Response) → IsOnce (after_write o r)
unfolding after_write statuses requests
after_write-IsOnce (some e) r = record { told = refl; sent = omega arith }
after_write-IsOnce none r = read_response-IsOnce r

after_wait-IsOnce : (w : Waited) (io : StreamIo) → IsOnce (after_wait w io)
unfolding after_wait
after_wait-IsOnce is_ready io = after_write-IsOnce io.write_error io.response
after_wait-IsOnce too_late io = nothing-IsOnce _
after_wait-IsOnce (failed_before e) io = nothing-IsOnce _

try_proxy_request-IsOnce : (io : StreamIo) → IsOnce (try_proxy_request io)
unfolding try_proxy_request
try_proxy_request-IsOnce io = begun io.begin_error io
  where
    begun : (o : Option ProxyError) (io : StreamIo) → IsOnce (after_begin o io)
    begun (some e) io = unfold after_begin in nothing-IsOnce _
    begun none io = unfold after_begin in after_wait-IsOnce io.waited io

Acquired-cases :
    {S : Type 0} (a : Acquired S)
    → (a ≡ refused err_no_connection)
      ⊎ ((a ≡ refused err_subdomain_not_found) ⊎ ((s : S) × (a ≡ acquired s)))
Acquired-cases (refused err_no_connection) = inl refl
Acquired-cases (refused err_subdomain_not_found) = inr (inl refl)
Acquired-cases (acquired s) = inr (inr (s, refl))

Attempt-cases :
    (a : Attempt) → ((status : ℕ) × (a ≡ answered status)) ⊎ ((err : ProxyError) × (a ≡ failed err))
Attempt-cases (answered status) = inl (status, refl)
Attempt-cases (failed err) = inr (err, refl)

-- The writes of some attempts, at most `left`, fit what the loop returns.
record IsWritten (left : ℕ) (flow : Flow) (ws : List Write) : Type 0 where
  told : statuses ws ≡ status_of_flow flow
  sent : requests ws ≤ left

answered-IsWritten :
    (left status : ℕ) (r : List Write × Attempt)
    → IsOnce r
    → r.1 ≡ answered status
    → IsWritten (suc left) (proxied status) r.0
answered-IsWritten left status r o b = record {
  told = o.told ∙ ap status_of_attempt b;
  sent = omega (arith, o.sent);
}

-- Writes that hold no status, before those of a loop.
before-IsWritten :
    (left : ℕ) (err : ProxyError) (flow : Flow) (r : List Write × Attempt) (ws : List Write)
    → IsOnce r
    → r.1 ≡ failed err
    → IsWritten left flow ws
    → IsWritten (suc left) flow (r.0 ++ ws)
before-IsWritten left err flow r ws o b w = record {
  told =
      statuses-append r.0 ws
      ∙ ap (λ l. l ++ statuses ws) (o.told ∙ ap status_of_attempt b)
      ∙ w.told;
  sent = omega (arith, o.sent, w.sent, requests-append r.0 ws);
}

gave_up-IsWritten :
    (left : ℕ) (err : ProxyError) (r : List Write × Attempt)
    → IsOnce r
    → r.1 ≡ failed err
    → IsWritten (suc left) (gave_up err) r.0
gave_up-IsWritten left err r o b = record {
  told = o.told ∙ ap status_of_attempt b;
  sent = omega (arith, o.sent);
}

module _ {T S : Type 0} (ops : Transport T S) (close_stream : S → S) (io : ℕ → S → StreamIo) where
  loop_writes-IsWritten :
      (left : ℕ) (m : Manager T) (now : ℕ) (sub : Bytes) (err : ProxyError)
      → IsWritten left
          (proxy_loop ops close_stream (attempt ops close_stream io) left m now sub err).1
          (loop_writes ops close_stream io left m now sub)
  unfolding loop_writes proxy_loop
  loop_writes-IsWritten zero m now sub err =
      unfold statuses requests in record { told = refl; sent = omega arith }
  loop_writes-IsWritten (suc left) m now sub err =
      elim (Acquired-cases (acquire_stream ops m now sub).1) [
        | inl a ↦
            rw (a, proxy_loop, loop_writes)
              (unfold statuses requests in record { told = refl; sent = omega arith })
        | inr (inl a) ↦
            rw (a, proxy_loop, loop_writes)
              (unfold statuses requests in record { told = refl; sent = omega arith })
        | inr (inr (s, a)) ↦ elim (Attempt-cases (try_proxy_request (io (1 - left) s)).1) [
          | inl (status, b) ↦
              rw (a, b, proxy_loop, loop_writes)
                (answered-IsWritten left status (try_proxy_request (io (1 - left) s))
                  (try_proxy_request-IsOnce (io (1 - left) s)) b)
          | inr (e, b) ↦ elim (Bool-cases (is_retryable_error e)) [
            | inr n ↦
                rw (a, b, n, proxy_loop, loop_writes)
                  (gave_up-IsWritten left e (try_proxy_request (io (1 - left) s))
                    (try_proxy_request-IsOnce (io (1 - left) s)) b)
            | inl y ↦
                rw (a, b, y, proxy_loop, loop_writes)
                  (before-IsWritten left e _ (try_proxy_request (io (1 - left) s)) _
                    (try_proxy_request-IsOnce (io (1 - left) s)) b
                    (loop_writes-IsWritten left
                      (release_stream ops (acquire_stream ops m now sub).0 now sub (close_stream s))
                      now sub e))
          ]
        ]
      ]

  -- The attempts of `handleProxyFlow` write a status to the visitor exactly when the flow ends without
  -- an error, and then once, that status: the error page that an error is answered with is never a
  -- second answer. They write the request at most twice.
  pub flow_writes-once :
      (m : Manager T) (now : ℕ) (sub : Bytes)
      → (statuses (flow_writes ops close_stream io m now sub)
          ≡ status_of_flow
              (handle_proxy_flow ops close_stream (attempt ops close_stream io) m now sub).1)
        × (requests (flow_writes ops close_stream io m now sub) ≤ 2)
  unfolding flow_writes handle_proxy_flow max_retries
  flow_writes-once m now sub =
      let w = loop_writes-IsWritten 2 m now sub no_error in (w.told, w.sent)
