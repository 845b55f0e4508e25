-- ===== src/Lib.antt =====
-- leng, a DNS server that blocks advertisements (Go): a model of the parts that decide what it answers.
--
-- The program. main.go starts a server (server.go) whose listeners hand each request to the event loop
-- (handler.go). The loop asks the custom records first (records.go), then the block list (cache.go),
-- then its two response caches (lcache/), then the upstream servers (resolver.go), follows CNAME
-- records and replies. The block list is filled from the configuration and from hosts files
-- (updater.go), and can be changed through the HTTP API (api.go).
--
-- The files.
-- - Prelude: what the model uses of Go: strings as lists of ASCII bytes, maps as association lists,
--   integers, results, and calls that may panic.
-- - Dns: the messages of github.com/miekg/dns as records, and its functions as a parameter with laws.
-- - Lcache: lcache/cache.go, default.go and errors.go. `get`, `set`, `remove`, `exists`, `full` and
--   `len` are the methods of lengCache, over an abstract `Entry`; the clock is an argument. In
--   Lcache/Threads calls run side by side, an access to the map, the counter or the clock at a time.
-- - BlockCache: MemoryBlockCache of cache.go; regexp and go-glob are a parameter. BlockCache/Order is the
--   block list without the orders of its maps, as a quotient.
-- - Records: records.go. dns.NewRR and dns.ServeMux are parameters; Records/Resolve has the laws of the mux.
-- - Config/Loading: LoadConfig. The parser of TOML is a parameter. Config/Defaults is the text of the
--   defaults and what it sets.
-- - Tls: tls/tls.go over crypto/tls and crypto/x509.
-- - Serving: DoTCP, DoUDP, DoHTTP and `do` of handler.go with Stop of server.go, as goroutines that take
--   steps in any order. An operation is of any type; Handler says what is done with it.
-- - Server: Run, Stop and ReloadConfig of server.go.
-- - Main: the start and the loop of main.go, composed of Updater, Server, Config/Loading and Logger.
--   Main/Exit is main beside the goroutine of activation.go.
-- - Logger: logger.go; Logger is the log configuration, Logger/Files the log files.
-- - Updater: updater.go. The packages os, filepath, bufio, net/http and net/url are the parameter `Os`.
-- - LegacyCache: MemoryCache and lengCache of cache.go, and makeCache of utils.go.
-- - Resolver: Lookup and DoHLookup of resolver.go. The order in which the servers finish is an argument.
-- - Doh: ServeHTTP of doh.go, with the decoding of requests and the response writer. The DNS handler is
--   the list of the messages that it writes. Doh/Listening is the HTTP server around it, and Doh/Query
--   puts DoHTTP and doRequest of handler.go in the place of the DNS handler.
-- - Api: the block list's endpoints of api.go; the personal list is the text of its file. Api/Routes has
--   all the routes and the start of the server.
-- - Metric: internal/metric/metric.go and the calls of its counters. Metric/Counting has the laws that are
--   taken of the counters of prometheus.
-- - Utils: difference and testEq of utils.go.
-- - Config: the settings of config.go.
-- - Handler: responseFor, path by path, with all that it calls outside as the record `Env`; a world of
--   any type carries the clock and the upstream servers. Handler/Follow is doRequest and canFollow.
--   Handler/Reach is the loop as a step relation, a request at a time. In Handler/Threads a request is a
--   process, whose accesses to what requests share are steps; Handler/Threads/Blocked is about one among
--   others.
-- - Tests: the theorems at concrete inputs, over the concrete package, mux and world of Tests/World.
--
-- How the model stands to the code. A method that changes its receiver returns the new state. The
-- operations of a response cache run one after another, except in Lcache/Threads and
-- Handler/Threads. The goroutine that writes a response into the cache is a write that waits in the
-- state until a step performs it, with the message as the lookup returned it. Records are values: a
-- TTL that the cache writes through a shared pointer is written in the entry. A call that
-- dereferences nil is `panicked`. Loops are structural recursion, and the depth of CNAME following
-- is the configured number of rounds, so no fuel is chosen. The goroutines of Lookup are events of a
-- schedule; a schedule may let the call take an answer as soon as there is one, also where the code
-- first waits for all servers. TTLs are below 2 ^ 32, and nanoseconds do not overflow an int64
-- within the times in question, the period after which the metrics are reset among them.
--
-- Not modelled: the lines that are logged, the calls of the metrics within the other parts (Metric has
-- them as events of their own), the sockets of the listeners, the parser of TOML, the methods of
-- response writers that do nothing, races between the writes of a TTL through shared pointers, and the
-- libraries that the program uses, among them those under vendor/.
pub mod Prelude
pub mod Dns
pub mod Lcache
pub mod BlockCache
pub mod Records
pub mod Config
pub mod Handler
pub mod Updater
pub mod Server
pub mod Main
pub mod Metric
pub mod Logger
pub mod Tls
pub mod Serving
pub mod Api
pub mod Doh
pub mod Resolver
pub mod LegacyCache
pub mod Utils
mod Tests
