-- ===== src/TcpServer/Dead.antt =====
-- RemoveDeadConnection of internal/tunnel/server.go after a session that failed.
use giraffecloud.Base.{
  ℕ, zero, suc, ◌≡◌, ◌≢◌, refl, ap, ◌∙◌, inl, inr, Bool, false, Option, none, some, List, [], ◌∷◌,
  Bytes, nat_eq, bytes_eq, nat_beq, length, get_elem?, leb, arith, Bool-cases, beq_refl,
}
use giraffecloud.Base.Map.{lookup}
use giraffecloud.Connections.Pool
use giraffecloud.Connections.Pool.{
  TunnelConnection, TunnelConnectionPool, World, hand_out, next_index,
}
use giraffecloud.Connections.Manager
use giraffecloud.Connections.Manager.{
  DomainConnections, ConnectionManager, get_web_socket_connection, get_web_socket_pool_size,
  max_web_socket_tunnels_per_domain, websocket, take_turn, on_entry,
}
use giraffecloud.Connections.Census.{find_at}
use giraffecloud.Connections.Invariant.{Inv}
use giraffecloud.TcpServer.Clients.{HttpRequest, ClientConn}
use giraffecloud.TcpServer.Wires.{Wires}
use giraffecloud.TcpServer.WebSockets.{
  is_blocked, proxy_web_socket_connection_internal, removed_dead, remove_dead_connection,
}
use giraffecloud.Connections.Removal.{ws_connections}
use giraffecloud.TcpServer.Sessions.{IsQuiet, proxy_web_socket_connection_internal-releases}

find_at_member :
    (xs : List TunnelConnection) (i : ℕ) (tc : TunnelConnection)
    → get_elem? xs i ≡ some tc
    → find_at tc.address xs ≢ []
unfolding find_at
find_at_member [] i tc e = cc
find_at_member (x ∷ xs) zero tc e = ground (arith, e, beq_refl tc.address)
find_at_member (x ∷ xs) (suc i) tc e = ground (arith, find_at_member xs i tc e)

hand_out_same :
    (o : Option TunnelConnection) (tc : TunnelConnection) → (hand_out o).0 ≡ some tc → o ≡ some tc
unfolding hand_out
hand_out_same none tc e = e
hand_out_same (some x) tc e = ground (arith, e)

pool_member :
    (p : TunnelConnectionPool) (tc : TunnelConnection)
    → (Pool.get_connection p).1 ≡ some tc
    → find_at tc.address p.connections ≢ []
unfolding Pool.get_connection
pool_member p tc e = elim (Bool-cases (nat_beq (length p.connections) 0)) [
  | inl z ↦ absurd (cc (rw z at e))
  | inr z ↦
      find_at_member p.connections (next_index p) tc
        (hand_out_same (get_elem? p.connections (next_index p)) tc (rw z at e))
]

-- What GetWebSocketConnection hands out stands in the pool.
handed-in_pool :
    (m m' : ConnectionManager) (domain : Bytes) (tc : TunnelConnection)
    → get_web_socket_connection m domain ≡ (m', some tc)
    → find_at tc.address (ws_connections m domain) ≢ []
unfolding Manager.get_connection take_turn
handed-in_pool m m' domain tc = go (lookup domain m) refl
  where
    go :
        (o : Option DomainConnections)
        → lookup domain m ≡ o
        → get_web_socket_connection m domain ≡ (m', some tc)
        → find_at tc.address (ws_connections m domain) ≢ []
    go none e h = ground (arith, e, h)
    go (some dc) e h = ground (arith, e, h, pool_member dc.ws_pool tc)

-- After an upgrade whose tunnel failed, on a manager that is in order and under the conditions under
-- which the tunnel was taken, RemoveDeadConnection removes and closes what GetWebSocketConnection
-- hands out next, and that is another tunnel than the one that failed.
pub remove_dead_connection-other :
    (w : Wires) (domain : Bytes) (request : HttpRequest) (return_error : Bool) (world : World)
    (m m' : ConnectionManager) (c : ClientConn) (tc : TunnelConnection) (socket : ℕ)
    (m2 : ConnectionManager) (other : TunnelConnection)
    → Inv (world, m)
    → IsQuiet w
    → is_blocked w domain request return_error m ≡ false
    → leb max_web_socket_tunnels_per_domain (get_web_socket_pool_size m domain) ≡ false
    → get_web_socket_connection m domain ≡ (m', some tc)
    → tc.conn ≡ some socket
    → let o = proxy_web_socket_connection_internal w domain request return_error (world, m) c in
      get_web_socket_connection o.state.1 domain ≡ (m2, some other)
      → (remove_dead_connection domain o.state
          ≡ Manager.remove_specific_web_socket_connection o.state.0 m2 domain other)
        × (other.address ≢ tc.address)
unfolding remove_dead_connection removed_dead
remove_dead_connection-other w domain request return_error world m m' c tc socket m2 other v quiet b
      room e live next =
    let o = proxy_web_socket_connection_internal w domain request return_error (world, m) c in
    let gone =
      (proxy_web_socket_connection_internal-releases w domain request return_error world m m' c tc
        socket v quiet b room e live).1 in
    (
      ap (removed_dead domain o.state.0) next,
      λ same.
          handed-in_pool o.state.1 m2 domain other next
            (ap (λ a. find_at a (ws_connections o.state.1 domain)) same ∙ gone),
    )
