-- ===== src/Connections/Cleanup.antt =====
-- CleanupDeadConnections and GetWebSocketPoolStats of internal/tunnel/connection_manager.go.
use giraffecloud.Base.{
  ℕ, ◌+◌, ◌*◌, ◌≤◌, ◌≡◌, refl, List, [], ◌∷◌, Bytes, nat_eq, bytes_eq, arith, if◌then◌else◌, All,
  All-mono, length,
}
use giraffecloud.Base.Map.{lookup, total}
use giraffecloud.Connections.Pool
use giraffecloud.Connections.Pool.{
  TunnelConnection, TunnelConnectionPool, World, Probe, sweep, remove_closing, remove_keeping,
  close_all, close_socket, close_handle, size, new_pool, next_index, is_connection_healthy,
}
use giraffecloud.Connections.Manager
use giraffecloud.Connections.Manager.{
  DomainConnections, ConnectionManager, ConnectionType, http, websocket, other, settle, place,
  get_domain_owner, has_domain, get_all_http_connections, get_web_socket_pool_size,
  get_http_pool_size, take_turn, on_entry, get_or_create, set_owner, new_domain,
  max_web_socket_tunnels_per_domain, count_pool, stats_from, get_web_socket_pool_stats, PoolStats,
}
use giraffecloud.Connections.Entries.{IsServing}
use giraffecloud.Connections.Invariant.{Inv}

-- The connections whose socket answers the probe.
unfoldable pub healthy : (ℕ → Probe) → List TunnelConnection → List TunnelConnection
healthy probe [] = []
healthy probe (tc ∷ tcs) =
    if is_connection_healthy probe tc.conn then tc ∷ healthy probe tcs else healthy probe tcs

sweep-healthy :
    (probe : ℕ → Probe) (w : World) (tcs : List TunnelConnection)
    → ((sweep probe w tcs).1 ≡ healthy probe tcs)
      × ((sweep probe w tcs).2 + length (healthy probe tcs) ≡ length tcs)
unfolding sweep healthy
sweep-healthy probe w [] = (refl, omega arith)
sweep-healthy probe w (tc ∷ tcs) =
    ground (arith, sweep-healthy probe w tcs, sweep-healthy probe (close_socket tc.conn w) tcs)

-- The sum of the numbers that the statistics list.
unfoldable pub removed_in : List (Bytes × ℕ) → ℕ
removed_in [] = 0
removed_in ((k, n) ∷ stats) = n + removed_in stats

abbrev pub http_total : ConnectionManager → ℕ
http_total m = total (λ dc. size dc.http_pool) m

-- A cleanup keeps of each domain's HTTP connections those that answer, in order, and leaves its
-- WebSocket pool and its owner as they were, so dead WebSocket connections stay; the numbers in its
-- statistics add up to the HTTP connections that went.
pub cleanup_dead_connections-healthy :
    (probe : ℕ → Probe) (w : World) (m : ConnectionManager) (d : Bytes)
    → let (_, m', stats) = Manager.cleanup_dead_connections probe w m in
      (get_all_http_connections m' d ≡ healthy probe (get_all_http_connections m d))
      × (get_web_socket_pool_size m' d ≡ get_web_socket_pool_size m d)
      × (get_domain_owner m' d ≡ get_domain_owner m d)
      × (removed_in stats + http_total m' ≡ http_total m)
unfolding Manager.cleanup_dead_connections Pool.cleanup_dead_connections get_all_http_connections
    Pool.get_all_connections get_web_socket_pool_size get_domain_owner removed_in total size lookup
    healthy
cleanup_dead_connections-healthy probe w [] d = (refl, refl, refl, omega arith)
cleanup_dead_connections-healthy probe w ((k, dc) ∷ m) d =
    let w' = (sweep probe w dc.http_pool.connections).0 in
    ground (
      arith,
      sweep-healthy probe w dc.http_pool.connections,
      cleanup_dead_connections-healthy probe w' m d,
    )

abbrev BoundedBy : ℕ → Bytes × DomainConnections → Type 0
BoundedBy n b = size b.1.ws_pool ≤ n

stats_from_lem :
    (s : PoolStats) (m : ConnectionManager)
    → All (BoundedBy max_web_socket_tunnels_per_domain) m
    → s.max_per_domain ≤ max_web_socket_tunnels_per_domain
    → s.total_tunnels ≤ max_web_socket_tunnels_per_domain * s.total_domains
    → let r = stats_from s m in
      (r.total_tunnels ≡ s.total_tunnels + total (λ dc. size dc.ws_pool) m)
      × All (BoundedBy r.max_per_domain) m
      × (s.max_per_domain ≤ r.max_per_domain)
      × (r.max_per_domain ≤ max_web_socket_tunnels_per_domain)
      × (r.total_tunnels ≤ max_web_socket_tunnels_per_domain * r.total_domains)
unfolding stats_from count_pool total
stats_from_lem s [] b x t = ground arith
stats_from_lem s ((k, dc) ∷ m) (b, bs) x t =
    ground (arith, stats_from_lem (count_pool (size dc.ws_pool) s) m bs)

serving-BoundedBy :
    (next : ℕ) (m : ConnectionManager)
    → All (IsServing next) m
    → All (BoundedBy max_web_socket_tunnels_per_domain) m
serving-BoundedBy next m h = All-mono m (λ b s. s.limit) h

-- The statistics of the WebSocket pools of a manager that is in order: the total counts every
-- connection, every pool is at most as large as the largest one that is reported, which is at most
-- 25, and so the total is at most 25 for each domain that is counted.
pub get_web_socket_pool_stats_bounds :
    (w : World) (m : ConnectionManager)
    → Inv (w, m)
    → let r = get_web_socket_pool_stats m in
      (r.total_tunnels ≡ total (λ dc. size dc.ws_pool) m)
      × All (λ b. size b.1.ws_pool ≤ r.max_per_domain) m
      × (r.max_per_domain ≤ max_web_socket_tunnels_per_domain)
      × (r.total_tunnels ≤ max_web_socket_tunnels_per_domain * r.total_domains)
unfolding get_web_socket_pool_stats
get_web_socket_pool_stats_bounds w m v =
    let (t, b, _, x, l) =
      stats_from_lem (record { total_tunnels = 0; total_domains = 0; max_per_domain = 0 }) m
        (serving-BoundedBy w.next_address m v.serving) (omega arith) (omega arith) in
    (omega (arith, t), b, x, l)
