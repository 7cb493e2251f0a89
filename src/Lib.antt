-- ===== src/Lib.antt =====
-- gunnel: a tunnel that gives HTTP services behind a NAT a public subdomain. Clients connect to the
-- server over QUIC and register a subdomain (pkg/protocol, pkg/connection); the server takes requests
-- from the public, finds the client of the subdomain and proxies (pkg/manager); it limits the
-- connections of clients (pkg/server/connlimiter.go) and keeps probing visitors busy
-- (pkg/honeypot). A client dials the backends it serves (pkg/client). No other package uses
-- pkg/tunnel, which copies between a connection and a stream. This library models
-- those parts and proves what makes them correct.
--
-- Prelude/  numbers, lists, texts as lists of bytes, Go's maps (`Map`: what a key leads to) and signed
--           integers; Go/ slices, package strings, `Outcome` for a call that may panic, and big-endian
--           integers; Http what is read of a request, and package net as a parameter (`Net`).
-- Protocol/ pkg/protocol. Enum is enum.go; Message is `Message`, `Write` and `ReadMessage` of
--           messages.go; Text its six messages of one text; Register is registry.go; Parsable the
--           interface, and `Send` and `Receive` of pkg/transport/stream.go as far as bytes go.
--           Frames, RoundTrip, Registration and Enums prove.
-- Server    config.go of pkg/server and, of server.go, `NewServer`, `handleQUICConn` and the end of
--           `runQUICHandler`, over the limiter and the manager. Serving proves over any connections.
--           Issuing is `certInfo` and the TLS of `newHTTPServer`, with what Certificates/ proves.
-- Server/Limiter  pkg/server/connlimiter.go: `ConnectionLimiter`, with Allow, Acquire, Release, the
--           rate check and its cleanup. Ledger and Admission relate it to the list of the open
--           connections, Window and Rate to the history of the admissions. Races has what is lost
--           when goroutines come between the steps of a Release or of a rate check.
-- Honeypot/ pkg/honeypot/honeypot.go: Text the string helpers (copied in pkg/manager/http.go), Client
--           `extractIP`, Record the state and every operation on it, Words 64-bit products and shifts,
--           Fakes the fake responses.
--           Trim, Csv, Delay, Summary, Visits, Stats, Formats prove.
-- Transport the interface `Transport` of pkg/transport/transport.go, with laws, as Connection and
--           Manager take it. Stream is stream.go, one stream with its counters: Gauge and Traffic
--           prove what they count, Locks is the order in which Send and Close take the lock. Pool is
--           transport.go, with Cleanup its three cleanups: Removal, Idle and Reuse prove, Tame, Sound
--           and Kept carry the invariant that Runs states; Interface fills `Transport`.
-- Connection  pkg/connection: the state with its queue of messages, one definition for each method and
--           each case of the loops. Lifecycle and Heartbeats prove, over step relations; Stuck is
--           `Send`, `watchSend` and `Close` between the mutex and the channel, and proves of them.
-- Manager/  pkg/manager: Registry is manager.go and registry.go, with connections in a store so that
--           two subdomains can lead to one; Subdomain is request.go; Proxy is http.go. Registered,
--           Subdomain, Retries and Answers prove. Handshake is `tryProxyRequest` and its goroutine,
--           which meet on channels, and proves about them.
--           Attempts is `tryProxyRequest` over what its stream does, on which Written proves.
--           Serving is `HandleConnection` with `acceptStreams`, on which Crash and Left prove.
-- Metrics/  pkg/metrics: metrics.go, the collector, with its streams in a store, on which Totals proves;
--           Prometheus the counters of prometheus.go that streams move, Requests those of requests.
-- Client/   pkg/client: Config is config.go and `getBackend`, Register the registration and Backoff
--           the reconnection of client.go, Streams is stream.go, with what it does to backends as a
--           list of effects. Paths, Registered, which puts client and manager together, Handling and
--           Backoff prove. Shared is about several backends on one transport; Worker is `worker`,
--           `disconnect` and `reconnectLoop` as steps, on which Leaks and Alive prove.
-- Tunnel    pkg/tunnel/tunnel.go: `copy` and `Close`, on which Copy proves; Directions is `Proxy`.
-- WebUi     the statistics by subdomain of `UpdateStats` of pkg/webui/webui.go, over the collector of
--           pkg/metrics and its sorted lists. Sums proves. Gathered is
--           `getPrometheusMetrics`, on which Shown proves together with Recorded of Manager.
-- Certificates/  pkg/certmanager/cert.go: `buildDecisionFunc`, on which Decision proves, and Setup the
--           rest, on which Obtained proves.
--
-- Times and durations are nanoseconds, and a call takes the time at which it is made. An operation
-- that the source runs under a mutex is one step, and so is a call of the limiter or of a transport,
-- of which parts run without one; where that matters, a theorem names the calls that must not
-- overlap. A stream that fails is two steps of its connection, before and after the mutex, and the
-- locks of a stream and of `Send` are modelled one by one. Sequences of steps are data types.
-- Counters are taken not to reach 2 ^ 63, but the delay's product and shift wrap around as
-- they do in Go. A negative limit, which the source treats as none, is not distinguished from 0. The
-- loop `proxy_loop` makes the two attempts of the source; `drain` and `copy_loop` run on fuel:
-- one unit more than the pool has streams is enough, and one for each call of `Read`.
-- Logging is left out.
--
-- Parameters: of Go's packages, `net.SplitHostPort`, `net.ParseIP`, `strings.TrimSpace` and the
-- headers of a request, and `slices.SortFunc`, of which only that it permutes is used; of this
-- program, what stands behind `Transport`, by its laws, and what `tryProxyRequest` makes of a
-- stream; of QUIC, `Network`; the outcomes of the reads, writes and dials of a client and of a
-- tunnel; of certmagic and `url.Parse`, `Library`; of Prometheus, `CounterVec` and what is
-- gathered of it; the numbers of `crypto/rand`. Not modelled: `LoadConfig` of pkg/client, the
-- listeners and tickers of pkg/server, the pages and the list of clients of pkg/webui, the bytes
-- of requests and responses and `ForEachClient` of pkg/manager; the wrappers of QUIC and of
-- signals are I/O only.
pub mod Prelude
pub mod Go
pub mod Protocol
pub mod Server
pub mod Http
pub mod Honeypot
pub mod Transport
pub mod Connection
pub mod Manager
pub mod Client
pub mod Metrics
pub mod Certificates
pub mod Tunnel
pub mod WebUi
