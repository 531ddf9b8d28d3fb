-- ===== src/Lib.antt =====
-- giraffecloud: the core of the tunnel server and the updates of its client, modelled and verified.
--
-- The server gives users tunnels: a domain under which requests reach a client that is connected to
-- the server. The parts modelled here, and how they meet:
--   * The connection manager (internal/tunnel/connection_manager.go, types.go) keeps, for every
--     domain, a pool of HTTP connections and a pool of WebSocket connections, and who owns the
--     domain. The TCP server adds connections to it, the proxies take them in turns, and a
--     background task sweeps dead ones out. Files Connections/Pool (TunnelConnectionPool),
--     Connections/Manager (ConnectionManager), Connections/Steps (any sequence of operations), and
--     the proofs beside them: Census counts the sockets, Entries, Invariant and Serving state what
--     is well formed, Rotation is on the round robin, Removal, Adding, Owners and Cleanup on single
--     operations.
--   * The tunnels in the database (internal/repository/tunnel_repository.go with the schema in
--     internal/db/ent/schema/tunnel.go), the service over them
--     (internal/service/tunnel_service.go), the names of generated domains
--     (internal/utils/subdomain.go) and the task that waits for DNS records
--     (internal/tasks/dns_monitor.go): Tunnels/Store, Tunnels/Repository, Tunnels/Service with
--     Tunnels/Outside (its errors and what it calls), Tunnels/Domains with Tunnels/Words,
--     Tunnels/DnsMonitor. The proofs are in Tunnels/Service/Create (what a creation does) and, on
--     the ports of a user, in Ports, Lifetimes, Updates and Histories beside it;
--     Tunnels/DnsMonitor/Enabling is on what the task enables. The cache that the proxies ask
--     whether a domain is enabled (internal/tunnel/tunnel_status_cache.go) is Tunnels/StatusCache.
--   * A client opens a tunnel with an API token: AuthenticateTunnelByToken
--     (internal/tunnel/auth_helpers.go) looks the token up
--     (internal/repository/token_repository.go) and chooses among the tunnels of its user.
--     Auth/Tokens, Auth/Tunnels; the proofs are in Auth/Granted and Auth/Revocation. The tokens are
--     made and validated by the token service (internal/service/token_service.go, with
--     internal/api/mapper/token_mapper.go): Auth/Service over Auth/Base64, with the proofs in
--     Auth/Service/Issued.
--   * Traffic is counted in memory and flushed to the database (internal/service/usage_service.go),
--     and the quota of a month is checked against what was flushed
--     (internal/service/quota_service.go). Usage/Service, Usage/Flush, Usage/Quota; the proofs are
--     in Usage/Keys, Usage/Counters, Usage/Conservation, Usage/Failures and Usage/Quota/Decisions.
--   * The client and the server compare versions to decide on updates
--     (internal/version/version.go): Version, with the proofs in Version/Order and
--     Version/Releases. What the server answers a client that asks for updates
--     (internal/service/version_service.go) is Version/Service over Version/Configs (its records
--     and their defaults), and the proofs are in Version/Service/Served.
--   * In the client, Client/Updates decides when an update is installed and from which address
--     (internal/service/auto_update_service.go, updater_service.go), and Client/LocalPool is the
--     pool of connections to the local service (internal/tunnel/connection_pool.go); the proofs are
--     in Client/Installed and Client/Accounted.
--   * The hybrid router (internal/tunnel/hybrid_router.go) takes every visitor: Router/Requests
--     classifies the request, Router/Routing sends it to the gRPC or the TCP tunnel server, and
--     Router/Waiting lets WebSocket requests wait for a TCP tunnel. The proofs are in
--     Router/Counters (the metrics), Router/Answers (what the visitor is sent), Router/Waiting/Kept
--     (over Router/Waiting/Maps) and Router/Waiting/Woken (over Router/Waiting/Others). The
--     WebSocket proxy of the TCP server (internal/tunnel/server.go), which takes its tunnels from
--     the connection manager and asks the quota, is TcpServer/WebSockets, with TcpServer/Wires for
--     what it meets outside and TcpServer/Clients for the visitor's connection; the proofs are in
--     TcpServer/Replies, TcpServer/Sessions, TcpServer/Forgotten and TcpServer/Dead. The handshake
--     by which a client registers its tunnel is TcpServer/Handshakes, with the proofs in
--     TcpServer/Handshakes/Registered.
--   * The gRPC server (internal/tunnel/grpc_service.go, grpc_service_helpers.go) sends requests to
--     a client over one stream and gives its messages to the requests that wait: Grpc/Streams and
--     Grpc/Steps. What is well formed is in Grpc/Channels, Sections and Registered; the proofs are
--     in Grpc/Moves, Grpc/Matched and Grpc/Panics. A client registers its stream in Grpc/Tunnels
--     and a request goes through it in Grpc/Requests, which waits for its response in Grpc/Fetches,
--     with the proofs in Grpc/Admitted, Grpc/Bare and Grpc/Accounted. Large files and uploads
--     (internal/tunnel/grpc_chunked_streaming.go) are Grpc/LargeFiles, Grpc/Uploads, Grpc/Chunks
--     and Grpc/Splitting, with the proofs in Grpc/Unchecked, Grpc/Uploaded, Grpc/Collected and
--     Grpc/Whole.
-- Base and Text hold what the parts share: tests on numbers, lists, maps as association lists, and
-- the functions of Go's strings and strconv packages that the code calls. The modules named Tests
-- (and Grpc/RequestTests and Grpc/ChunkTests) run the code on concrete inputs, those named Samples
-- hold their data.
--
-- How the code corresponds: a struct is a record, a handler is a function from the state to the
-- state and its result, an error is a value. A Go string is the list of its bytes; texts whose case
-- is changed are ASCII. A map is an association list, and iteration follows the list. Signed 64-bit
-- numbers are the words that stand for them, with the wrap-around written out; so are the uint64
-- round-robin counters. Sockets are numbers, and a world lists those on which Close was called and
-- holds the next address and the clock. Pointers to connections are addresses, so that removal
-- compares what the code compares.
--
-- Loops are structural recursion, but for four with fuel. The digits of a 32-bit number are at most
-- the ten of the code's buffer (Text/Decimal). A flush takes batches, each at least one record, so
-- that the count of records is fuel enough (Usage/Flush). A number of six bytes has at most ten
-- digits in base 36 (Tunnels/Domains). The wait for a WebSocket tunnel pauses 50 ms at a time for
-- five seconds, which is 100 pauses (TcpServer/WebSockets).
--
-- Parameters, since their code is generated, is another library's, or is the world outside: the
-- client that ent generates (Client, TokenClient, UsageClient and VersionClient, records of the
-- calls with laws for those that succeed), DNS lookups, HMAC-SHA256 and SHA-256, the random bytes
-- of tokens, the reads that probe a socket, the dialler, the JSON of the handshake, the calls that
-- download and install an update, Caddy, the clock, and the comparison of floating-point numbers
-- that decides on a quota warning.
--
-- A visit of the hybrid router gets the answers of the world from a record: whether a gRPC tunnel
-- is active, what the gRPC server's proxy returns, what is read from and written to sockets, and
-- what other goroutines do to the connections meanwhile.
--
-- Not modelled: goroutines and locks, where each operation is one step (the waiting requests of the
-- router, those of the gRPC server and the calls of the client's pool apart, whose critical
-- sections are steps), so that neither the order in which two locks are taken nor a step between
-- two critical sections of one operation shows; the gRPC server's control channel and conversions
-- and the HTTP proxies of the TCP server; the client's connection to the server, the downloads of
-- its updater and its services; the HTTP handlers, middleware and sessions; configuration, logging
-- and telemetry; the web application.
pub mod Auth
pub mod Base
pub mod Client
pub mod Connections
pub mod Grpc
pub mod Router
pub mod TcpServer
pub mod Text
pub mod Tunnels
pub mod Usage
pub mod Version
