-- ===== src/Manager/Attempts/Examples.antt =====
-- A client that takes a request and closes the stream, and takes it again over a second stream.
use gunnel.Prelude.{ℕ, zero, suc, ◌≡◌, ◌≤◌, refl, [], ◌∷◌, Bool, true, false, none, codes, str_eq}
use gunnel.Prelude.Maps.{empty, put}
use gunnel.Transport.Switch.{switch}
use gunnel.Connection.{new, acquire, release}
use gunnel.Manager.Registry.{
  Manager, get_client, stream_or_error, acquire_stream, release_stream, set_conn,
}
use gunnel.Manager.Proxy.{is_retryable_error, handle_proxy_flow}
use gunnel.Manager.Attempts.{
  StreamIo, is_ready, unread, read, request, header, attempt, flow_writes, loop_writes,
  try_proxy_request, after_begin, after_wait, after_write, read_response, wrap,
}
use gunnel.Manager.Attempts.Written.{statuses, requests, status_of_flow, flow_writes-once}

abbrev taken : Manager Bool
taken = record {
  conns = λ id. new switch false 1;
  subdomains = put empty (codes "app") 1;
  token_validator = none;
}

-- The first attempt reads no response, the second reads 200.
abbrev io : ℕ → Bool → StreamIo
io i s = record {
  begin_error = none;
  waited = is_ready;
  write_error = none;
  response = elim i [
    | zero ↦ unread (record { text = codes "EOF"; eof = true })
    | suc j ↦ read 200 true
  ];
}

flow_writes-once_example :
    (statuses (flow_writes switch (λ s. s) io taken 1 (codes "app"))
      ≡ status_of_flow
          (handle_proxy_flow switch (λ s. s) (attempt switch (λ s. s) io) taken 1 (codes "app")).1)
    × (requests (flow_writes switch (λ s. s) io taken 1 (codes "app")) ≤ 2)
flow_writes-once_example = flow_writes-once switch (λ s. s) io taken 1 (codes "app")

twice : flow_writes switch (λ s. s) io taken 1 (codes "app") ≡ request ∷ request ∷ header 200 ∷ []
unfolding flow_writes loop_writes str_eq new acquire_stream get_client stream_or_error acquire
    try_proxy_request after_begin after_wait after_write read_response is_retryable_error wrap
    release_stream set_conn release
twice = refl
