-- ===== src/Manager/Attempts.antt =====
-- `tryProxyRequest` of pkg/manager/http.go as the code of one attempt, over what its stream does, and
-- what the attempts of `handleProxyFlow` write to clients and to the visitor. How the wait for the
-- client ends is a parameter here: Handshake is about it.
pub mod Written
mod Examples
use gunnel.Prelude.{
  ℕ, zero, suc, ◌-◌, ◌+◌, List, [], ◌∷◌, ◌++◌, Bool, true, false, Option, none, some, Bytes, codes,
  if◌then◌else◌,
}
use gunnel.Transport.{Transport}
use gunnel.Manager.Registry.{Manager, acquired, refused, acquire_stream, release_stream}
use gunnel.Manager.Proxy.{ProxyError, Attempt, answered, failed, is_retryable_error, max_retries}

-- How the wait for the client's ready message ends. An error that is nil lets the attempt go on, and
-- is `is_ready` too.
pub data Waited : Type 0 where
  is_ready too_late : Waited
  failed_before : ProxyError → Waited

-- What reading the response and copying its body gives: an error, or a status and whether the copy
-- worked.
pub data Response : Type 0 where
  unread : ProxyError → Response
  read : ℕ → Bool → Response

pub record StreamIo : Type 0 where
  pub begin_error : Option ProxyError
  pub waited : Waited
  pub write_error : Option ProxyError
  pub response : Response

-- What is written: the request to the client, whole or in part, and a status to the visitor.
pub data Write : Type 0 where
  request : Write
  header : ℕ → Write

-- `fmt.Errorf("...: %w", err)`
unfoldable pub wrap : Bytes → ProxyError → ProxyError
wrap text e = record { text = text ++ codes ": " ++ e.text; eof = e.eof }

unfoldable pub read_response : Response → List Write × Attempt
read_response (unread e) = (request ∷ [], failed (wrap (codes "failed to read response") e))
read_response (read status copied) = (request ∷ header status ∷ [], answered status)

-- After `req.Write`, with its error.
unfoldable pub after_write : Option ProxyError → Response → List Write × Attempt
after_write (some e) r = (request ∷ [], failed (wrap (codes "failed to write request to stream") e))
after_write none r = read_response r

-- After the `select`.
unfoldable pub after_wait : Waited → StreamIo → List Write × Attempt
after_wait is_ready io = after_write io.write_error io.response
after_wait too_late io =
    ([], failed (record { text = codes "client connection not ready in time"; eof = false }))
after_wait (failed_before e) io = ([], failed (wrap (codes "failed before proxy start") e))

-- After the begin message, with the error of its `Send`.
unfoldable pub after_begin : Option ProxyError → StreamIo → List Write × Attempt
after_begin (some e) io = ([], failed (wrap (codes "failed to send begin connection message") e))
after_begin none io = after_wait io.waited io

-- `tryProxyRequest`
unfoldable pub try_proxy_request : StreamIo → List Write × Attempt
try_proxy_request io = after_begin io.begin_error io

module _ {T S : Type 0} (ops : Transport T S) (close_stream : S → S) (io : ℕ → S → StreamIo) where
  abbrev pub attempt : ℕ → S → Attempt
  attempt i s = (try_proxy_request (io i s)).1

  -- The writes of the loop of `handleProxyFlow`, in their order; its results are those of
  -- `proxy_loop` with `attempt`.
  unfoldable pub loop_writes : (left : ℕ) → Manager T → ℕ → Bytes → List Write
  loop_writes zero m now subdomain = []
  loop_writes (suc left) m now subdomain =
      let (m', got) = acquire_stream ops m now subdomain in
      elim got [
        | refused err ↦ []
        | acquired stream ↦
            let (writes, result) = try_proxy_request (io (1 - left) stream) in
            let m'' = release_stream ops m' now subdomain (close_stream stream) in
            elim result [
              | answered status ↦ writes
              | failed err ↦ elim (is_retryable_error err) [
                | false ↦ writes
                | true ↦ writes ++ loop_writes left m'' now subdomain
              ]
            ]
      ]

  unfoldable pub flow_writes : Manager T → ℕ → Bytes → List Write
  flow_writes m now subdomain = loop_writes max_retries m now subdomain
