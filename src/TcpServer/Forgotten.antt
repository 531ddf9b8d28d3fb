-- ===== src/TcpServer/Forgotten.antt =====
-- The usage of a session whose tunnel was the only connection of its domain (internal/tunnel/server.go).
use giraffecloud.Base.{
  ℕ, ◌≡◌, refl, sym, ap, ◌∙◌, Bool, false, some, [], ◌∷◌, Bytes, nat_eq, bytes_eq, leb, arith,
  beq_refl, if◌then◌else◌,
}
use mathlib.Core.Option.{some-injective}
use giraffecloud.Base.Map.{lookup, insert, lookup-insert, lookup-delete}
use giraffecloud.Connections.Pool
use giraffecloud.Connections.Pool.{
  TunnelConnection, TunnelConnectionPool, World, close_socket, close_handle, remove_keeping,
  hand_out, next_index, size,
}
use giraffecloud.Connections.Manager
use giraffecloud.Connections.Manager.{
  DomainConnections, ConnectionManager, settle, get_domain_owner, get_web_socket_connection,
  get_web_socket_pool_size, max_web_socket_tunnels_per_domain, websocket, take_turn, on_entry,
}
use giraffecloud.Connections.Steps.{State}
use giraffecloud.TcpServer.Clients.{HttpRequest, ClientConn}
use giraffecloud.TcpServer.Wires.{Wires}
use giraffecloud.TcpServer.WebSockets.{
  release, with_tunnel, is_blocked, proxy_web_socket_connection_internal,
}
use giraffecloud.TcpServer.Sessions.{IsQuiet, handshake-Left, found-with_tunnel, taken}

-- A domain whose entry is one tunnel is forgotten when the tunnel is taken.
module _ (domain : Bytes) (dc : DomainConnections) (tc : TunnelConnection)
    (no_http : dc.http_pool.connections ≡ []) (only : dc.ws_pool.connections ≡ tc ∷ []) where
  removed-only : remove_keeping tc.address dc.ws_pool.connections ≡ []
  unfolding remove_keeping
  removed-only = rw (only, beq_refl tc.address) refl

  settle-only :
      (world : World) (m : ConnectionManager) (d : DomainConnections)
      → d.http_pool.connections ≡ []
      → d.ws_pool.connections ≡ []
      → (get_domain_owner (settle world m domain d).1 domain).2 ≡ false
  unfolding settle get_domain_owner size
  settle-only world m d h k = ground (arith, lookup-delete domain domain m, beq_refl domain, h, k)

  turn-only : (socket : ℕ) → tc.conn ≡ some socket → (take_turn dc websocket).1 ≡ some tc
  unfolding take_turn Pool.get_connection hand_out next_index
  turn-only socket live = rw only (ground (arith, live))

  turn-kept :
      ((take_turn dc websocket).0.http_pool.connections ≡ [])
      × ((take_turn dc websocket).0.ws_pool.connections ≡ tc ∷ [])
  unfolding take_turn Pool.get_connection
  turn-kept = (no_http, ground (arith, only))

  turned : DomainConnections
  turned = (take_turn dc websocket).0

  found_only :
      (m : ConnectionManager) (socket : ℕ)
      → tc.conn ≡ some socket
      → lookup domain m ≡ some dc
      → get_web_socket_connection m domain ≡ (insert domain turned m, some tc)
  unfolding Manager.get_connection turned
  found_only m socket live e = ground (arith, e, turn-only socket live)

  size_one :
      (m : ConnectionManager)
      → lookup domain m ≡ some dc
      → leb max_web_socket_tunnels_per_domain (get_web_socket_pool_size m domain) ≡ false
  unfolding get_web_socket_pool_size size
  size_one m e = ground (arith, e, only)

  taken_forgotten :
      (world : World) (m : ConnectionManager)
      → lookup domain m ≡ some turned
      → (get_domain_owner (taken world m domain tc).1 domain).2 ≡ false
  unfolding Manager.remove_specific_web_socket_connection_without_closing
      Pool.remove_connection_without_closing turned
  taken_forgotten world m e =
      on_entry (λ (s : State). (get_domain_owner s.1 domain).2 ≡ false) (lookup domain m)
        (λ n. cc (n, e))
        λ d f.
          settle-only world m _
            (ap (λ (x : DomainConnections). x.http_pool.connections) (same d f) ∙ turn-kept.0)
            (ap (λ (x : DomainConnections). remove_keeping tc.address x.ws_pool.connections)
                (same d f)
              ∙ ap (remove_keeping tc.address) turn-kept.1
              ∙ ap (remove_keeping tc.address) (sym only)
              ∙ removed-only)
    where
      same : (d : DomainConnections) → lookup domain m ≡ some d → d ≡ turned
      same d f = some-injective _ _ (sym f ∙ e)

-- When the tunnel that an upgrade uses is the only connection of its domain, when its owner is not
-- blocked, and when nobody opens a connection during the session, no traffic of the session is
-- recorded, however many bytes are copied, and the owner of the domain is unknown afterwards: taking
-- the tunnel out of the pool has removed the domain.
pub proxy_web_socket_connection_internal-unrecorded :
    (w : Wires) (domain : Bytes) (request : HttpRequest) (return_error : Bool) (world : World)
    (m : ConnectionManager) (dc : DomainConnections) (c : ClientConn) (tc : TunnelConnection)
    (socket : ℕ)
    → IsQuiet w
    → is_blocked w domain request return_error m ≡ false
    → lookup domain m ≡ some dc
    → dc.http_pool.connections ≡ []
    → dc.ws_pool.connections ≡ tc ∷ []
    → tc.conn ≡ some socket
    → let o = proxy_web_socket_connection_internal w domain request return_error (world, m) c in
      (o.usage ≡ []) × ((get_domain_owner o.state.1 domain).2 ≡ false)
unfolding proxy_web_socket_connection_internal with_tunnel release
proxy_web_socket_connection_internal-unrecorded w domain request return_error world m dc c tc socket
      quiet b e no_http only live =
    let next : DomainConnections = turned domain dc tc no_http only in
    let m' : ConnectionManager = insert domain next m in
    let s = taken world m' domain tc in
    let left = handshake-Left w domain request return_error quiet s c tc.conn in
    let stored : lookup domain m' ≡ some next =
      lookup-insert domain domain next m
      ∙ ap (λ b. if b then some next else lookup domain m) (beq_refl domain) in
    let unknown = taken_forgotten domain dc tc no_http only world m' stored in
    rw
      (found-with_tunnel w domain request return_error quiet world m m' c tc b
        (size_one domain dc tc no_http only m e)
        (found_only domain dc tc no_http only m socket live e))
      (left.1 unknown, rw left.0 unknown)
