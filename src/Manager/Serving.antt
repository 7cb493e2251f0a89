-- ===== src/Manager/Serving.antt =====
-- `HandleConnection` and `acceptStreams` of pkg/manager/registry.go: the loop of a connection's
-- handler, its goroutine that accepts streams, and the registrations that come in between, which
-- the connection's goroutine handles. Each case of a `select` is one step, and so is any change that
-- the other connections make to the registry. Registrations that are handled after the loop has
-- ended are left out.
pub mod Crash
pub mod Left
mod Examples
use gunnel.Prelude.{
  ℕ, ◌≡◌, ◌⊎◌, List, [], ◌∷◌, Bool, true, false, Option, none, some, Bytes, if◌then◌else◌,
}
use gunnel.Protocol.Register.{ConnectionRegister}
use gunnel.Transport.{Transport}
use gunnel.Manager.Registry.{Manager, RegistrationResult, register_client, connection_done}

-- Where `acceptStreams` is: in `AcceptStream`, in its send to `streamChan`, or returned, and with
-- that has closed the channel.
pub data Acceptor : Type 0 where
  accepting offering ended : Acceptor

-- The handler is in its `select`, has returned, or has ended the program.
pub data Handler : Type 0 where
  selecting returned panicked : Handler

-- What `AcceptStream` gives: a stream, the error of its five seconds, or another one.
pub data Accepted : Type 0 where
  a_stream out_of_time accept_fails : Accepted

unfoldable pub after_accept : Accepted → Acceptor
after_accept a_stream = offering
after_accept out_of_time = accepting
after_accept accept_fails = ended

-- The handler's variables, with the channel of registrations, which has room for one.
pub record Serving (T : Type 0) : Type 0 where
  pub mgr : Manager T
  pub acceptor : Acceptor
  pub handler : Handler
  pub registration_chan : Option RegistrationResult
  pub registered_subdomain : Bytes
  pub context_done : Bool

-- The send to the channel, with its default.
unfoldable pub offer : Option RegistrationResult → RegistrationResult → Option RegistrationResult
offer none r = some r
offer (some old) r = some old

unfoldable pub note : Bytes → RegistrationResult → Bytes
note registered r = if r.success then r.subdomain else registered

-- Whether the program still runs.
abbrev pub is_running : Handler → Bool
is_running panicked = false
is_running _ = true

abbrev pub begun : {T : Type 0} → Manager T → Serving T
begun mgr = record {
  mgr = mgr;
  acceptor = accepting;
  handler = selecting;
  registration_chan = none;
  registered_subdomain = [];
  context_done = false;
}

-- What a receive from the closed `streamChan` leads to: the stream is nil, and its `ID` panics.
abbrev pub crash : {T : Type 0} → Serving T → Serving T
crash s = record s { handler = panicked }

module _ {T S : Type 0} (ops : Transport T S) (id : ℕ) where
  unfoldable pub finish : Serving T → Serving T
  finish s = record s {
    mgr = connection_done ops s.mgr id (some s.registered_subdomain);
    handler = returned;
  }

  pub data Step : Serving T → Serving T → Type 0 where
    accepts :
        (s : Serving T) (a : Accepted)
        → is_running s.handler ≡ true
        → s.acceptor ≡ accepting
        → Step s (record s { acceptor = after_accept a })
    takes_stream :
        (s : Serving T)
        → s.handler ≡ selecting
        → s.acceptor ≡ offering
        → Step s (record s { acceptor = accepting })
    takes_nil : (s : Serving T) → s.handler ≡ selecting → s.acceptor ≡ ended → Step s (crash s)
    registers :
        (s : Serving T) (reg : ConnectionRegister) (m : Manager T) (r : RegistrationResult)
        → s.handler ≡ selecting
        → register_client ops s.mgr id reg ≡ some (m, r)
        → Step s (record s { mgr = m; registration_chan = offer s.registration_chan r })
    takes_registration :
        (s : Serving T) (r : RegistrationResult)
        → s.handler ≡ selecting
        → s.registration_chan ≡ some r
        → Step s (record s {
          registration_chan = none;
          registered_subdomain = note s.registered_subdomain r;
        })
    context_ends :
        (s : Serving T) → is_running s.handler ≡ true → Step s (record s { context_done = true })
    -- Another connection's handler changes the registry; it does not open this connection again.
    others :
        (s : Serving T) (m : Manager T)
        → ((s.mgr.conns id).closed ≡ false) ⊎ ((m.conns id).closed ≡ true)
        → Step s (record s { mgr = m })
    returns : (s : Serving T) → s.handler ≡ selecting → s.context_done ≡ true → Step s (finish s)

  pub data Steps (a : Serving T) : Serving T → Type 0 where
    nothing : Steps a a
    more : {b c : Serving T} → Steps a b → Step b c → Steps a c
