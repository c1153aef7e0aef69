-- ===== src/Lib.antt =====
-- The HTTP, TCP and UDP load balancer of this repository: what its core does, as definitions
-- translated from the Go source and theorems about them. Paths are from the repository's root.
--
-- A configuration (internal/lb/config.go) names listeners. For each route of an HTTP listener, and
-- for each TCP or UDP listener, the balancer builds a pool of backends, which health checks bring
-- into use. A request is matched against the sorted routes, the pool of the first match chooses a
-- backend by its strategy, and the admin API and SIGHUP change the configuration and rebuild
-- everything.
--
-- Prelude, Text: names of the libraries, lists, integers with an int64's wrap-around, and Go's
--   strings as lists of bytes with the functions of package strings and net that the code calls.
-- Config: the records of internal/lb/config.go, and LoadConfig. A *ListenerConfig is a position in a heap.
-- Extern: the circuit breakers of sony/gobreaker and IEEE floats, as records of operations.
-- Backend: the type Backend of internal/lb/backend.go and its methods, newL4Backend and
--   newL7Backend.
-- Pool: NewL7BackendPool, NewL4BackendPool, healthCheck and StartHealthChecks of
--   internal/lb/backend.go; Pool.Build, Pool.Fresh, Pool.Health and Pool.Connections prove.
-- Strategy: internal/lb/strategy.go, function by function; a *Backend that is answered is a position
--   in the pool. Its children prove, one for each strategy, and Strategy.Choice for all of them.
-- Route: Route.Matches and the comparison of buildL7Routes in internal/lb/loadbalancer.go;
--   Route.Order: that it orders, and what sort.Slice is relied on for.
-- Balancer: LoadBalancer, NewLoadBalancer, buildL7Routes, buildL4Pools and ReloadConfig of
--   internal/lb/loadbalancer.go; Balancer.Choice: the route that ServeHTTP finds;
--   Balancer.Configured: that the routes follow the configuration.
-- Admin: AddRoute, DeleteRoute, AddBackendToRoute, DeleteBackendFromRoute and
--   UpdateBackendWeightInRoute of internal/lb/loadbalancer.go, each one critical section; Reach and
--   Reload: their interleavings with reloads; Undo: a change and the one that takes it back.
-- Api: the middleware and the handlers of internal/lb/admin.go; Api.Endpoints: their table of methods
--   and paths, over a router that does what gorilla/mux documents of clean paths.
-- RateLimit: internal/lb/ratelimit.go over a Redis server.
-- Flight: the protocol by which requests and connections are counted at the backends of a pool, as a
--   step relation that any number of goroutines interleave; it is a
--   specification, which the children named Refines of Serve, Tcp and Udp are about.
-- Http: what the handlers use of net/http and patrickmn/go-cache, and CachingRecorder of
--   internal/lb/metrics.go.
-- Serve: the handler of a route in internal/lb/loadbalancer.go, as `begin`, up to the call of the
--   backend, and `finish`, from its answer on, or `abort`, where the proxy panics.
-- Server: NewLoadBalancer with the limiter and the cache, and ServeHTTP, of internal/lb/loadbalancer.go.
-- Tcp: internal/lb/tcp_proxy.go; a connection is three steps: up to its dial, the dial, and its end.
-- Udp: internal/lb/udp_proxy.go; the loop of Run with its buffer, a packet's handler in two steps, and
--   the goroutine of a flow, turn by turn. Reads and dials are arguments.
-- Metrics: a scrape of internal/lb/metrics.go as the list of its lines.
-- Forward: the Director of internal/lb/backend.go, and the request that a reverse proxy sends.
-- TestServer: the HTTP and UDP servers of internal/backend/server.go, behind the load balancer.
-- Main: what cmd/lb/main.go starts for its listeners, and SIGHUP. Main.Shutdown: SIGINT and SIGTERM, as
--   an interleaving of main, the goroutines it waits for, and those of the proxies, which Tcp.Waits and
--   Udp.Waits model by what their wait groups count.
-- Samples, and the modules named Examples: a small configuration, and the theorems at it.
--
-- Loops are structural recursion, but for the round robin, whose loop runs on the number of rounds
-- that the source's own counter gives it: no fuel is added. Counters wrap at 2^64 and weights as an
-- int64 does; where a theorem asks for no wrap, it says so.
--
-- Parameters: the circuit breakers, whether url.Parse accepts an address, the order in which `range`
-- visits a map, float64 arithmetic, sort.Slice, the Redis server, what the JSON decoder and
-- url.PathUnescape make of a request to the admin API, the cache, httputil's reverse proxy, the ids of crypto/tls's cipher
-- suites, and whether a dial, a listen or a write succeeds. What
-- is relied on of them is a record of laws, or a hypothesis, and the examples give each an instance.
--
-- One function stands for the order of `range` over a map at every build of a pool: two builds of one
-- configuration are equal here, and in Go they are up to the order of the backends of a pool. An answer
-- of a backend is a final one, with the headers that a reverse proxy copies; a 101 goes to the proxy's
-- ErrorHandler.
--
-- Between the steps of a handler other goroutines run; within one step its calls are not interleaved
-- with others. So a flow of UDP is counted in before its goroutine can end,
-- and main's statements from a signal to its wait are one step.
--
-- Not modelled: null entries in the lists of a configuration, on which the code panics, so a body of
-- the admin API is taken to have none; the os.Exit(1) of cmd/lb/main.go where an HTTP listener fails,
-- which ends the program from any state, so Main.Shutdown is about runs in which none fails; several
-- lines of the header Connection; the copying of bytes, sockets and timers, when http.Server's Shutdown
-- answers, and cmd/backend, which only starts the test server. The YAML and environment
-- libraries are parameters of LoadConfig, logging is left out, and the transport settings of a reverse
-- proxy are not kept.
pub mod Prelude
pub mod Text
pub mod Config
pub mod Extern
pub mod Backend
pub mod Pool
pub mod Strategy
pub mod Route
pub mod RateLimit
pub mod Balancer
pub mod Admin
pub mod Api
pub mod Http
pub mod Flight
pub mod Forward
pub mod Serve
pub mod Main
pub mod Metrics
pub mod Server
pub mod Tcp
pub mod TestServer
pub mod Udp
pub mod Samples
