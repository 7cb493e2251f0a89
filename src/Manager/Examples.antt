-- ===== src/Manager/Examples.antt =====
-- A manager whose clients have a transport that is open or closed, and nothing else.
use gunnel.Prelude.{
  ℕ, ◌≡◌, ◌≢◌, refl, arith, List, [], ◌∷◌, Bool, true, false, ◌&&◌, Option, none, some, Bytes,
  codes, str_eq, if◌then◌else◌,
}
use gunnel.Prelude.Maps.{empty, put}
use gunnel.Go.Strings.{has_prefix}
use gunnel.Http.{Request, Net}
use gunnel.Transport.Switch.{switch}
use gunnel.Protocol.Register.{ConnectionRegister}
use gunnel.Connection.{new, enqueue, send}
use gunnel.Honeypot.Text.{
  split_csv, csv_loop, keep_part, trim_space, trim_start, trim_end, is_space,
}
use gunnel.Honeypot.Client.{extract_ip}
use gunnel.Honeypot.Record
use gunnel.Honeypot.Summary.{Visit}
use gunnel.Manager.Registry.{
  Manager, RegistrationResult, get_client, is_authorized, subdomain_or_default, register_client,
  add_client, store, answer_with, set_conn,
}
use gunnel.Manager.Registered.{register_client-get_client}
use gunnel.Manager.Proxy.{Attempt, answered, extract_client_ip, handle_proxy_flow}
use gunnel.Manager.Retries.{Explained, handle_proxy_flow-Explained}
use gunnel.Manager.Answers.{extract_client_ip-forwarded}

abbrev blank : Manager Bool
blank = record { conns = λ id. new switch false 1; subdomains = empty; token_validator = none }

abbrev taken : Manager Bool
taken = record blank { subdomains = put empty (codes "app") 1 }

abbrev registration : ConnectionRegister
registration = record { subdomain = codes "app"; host = []; port = 80; protocol = []; token = [] }

abbrev or_blank : Option (Manager Bool × RegistrationResult) → Manager Bool × RegistrationResult
or_blank none = (blank, record { subdomain = []; success = false })
or_blank (some p) = p

abbrev registered : Manager Bool × RegistrationResult
registered = or_blank (register_client switch blank 1 registration)

is_registered : register_client switch blank 1 registration ≡ some (registered.0, registered.1)
unfolding register_client is_authorized subdomain_or_default add_client get_client store answer_with
    send enqueue set_conn new
is_registered = refl

register_client-get_client_example :
    (registered.1.success ≡ is_authorized blank [])
    × (registered.1.subdomain ≡ subdomain_or_default (codes "app"))
    × (get_client registered.0 (codes "app") ≡ (
        if is_authorized blank [] && str_eq (subdomain_or_default (codes "app")) (codes "app")
        then some 1
        else get_client blank (codes "app")))
register_client-get_client_example =
    register_client-get_client switch blank 1 registration registered.0 registered.1 (codes "app")
      is_registered

taken_app : get_client taken (codes "app") ≡ some 1
unfolding get_client str_eq
taken_app = refl

one_is_not_two : ◌≢◌ {A = ℕ} 1 2
one_is_not_two e = absurd (omega arith)

app_is_some : codes "app" ≢ []
app_is_some e = cc

-- Hosts without ports, and no addresses but those that begin with a digit.
abbrev net : Net
net = record { split_host_port = λ s. some s; parse_ip = λ s. has_prefix s b'1' }

abbrev visitor : Request
visitor = record {
  method = codes "GET";
  path = codes "/";
  host = codes "app.example";
  remote_addr = codes "peer";
  header = λ k. if str_eq k (codes "X-Forwarded-For") then codes "x" else [];
}

abbrev plain : Request
plain = record visitor {
  header = λ k. if str_eq k (codes "X-Forwarded-For") then codes "1" else [];
}

forwarded_x : split_csv (codes "x") ≡ codes "x" ∷ []
unfolding split_csv csv_loop keep_part is_space trim_space trim_start trim_end
forwarded_x = refl

forwarded_1 : split_csv (codes "1") ≡ codes "1" ∷ []
unfolding split_csv csv_loop keep_part is_space trim_space trim_start trim_end
forwarded_1 = refl

plain_ip : extract_client_ip net plain ≡ extract_ip net plain
unfolding has_prefix is_space trim_space trim_start trim_end str_eq
plain_ip = extract_client_ip-forwarded net plain (codes "1") [] forwarded_1 (omega arith) refl

extract_client_ip-forwarded_example : extract_client_ip net plain ≡ extract_ip net plain
unfolding has_prefix is_space trim_space trim_start trim_end str_eq
extract_client_ip-forwarded_example =
    extract_client_ip-forwarded net plain (codes "1") [] forwarded_1 (omega arith) refl

abbrev respond : ℕ → Bool → Attempt
respond n s = answered 200

abbrev no_visits : Bytes → List Visit
no_visits ip = []

handle_proxy_flow-Explained_example :
    Explained switch
      (λ s. s)
      respond
      (get_client taken (codes "app"))
      (handle_proxy_flow switch (λ s. s) respond taken 5 (codes "app")).1
handle_proxy_flow-Explained_example =
    handle_proxy_flow-Explained switch (λ s. s) respond taken 5 (codes "app")

-- The one client's transport is closed, so it opens no stream.
abbrev down : Manager Bool
down = record taken { conns = λ id. new switch true 1 }
