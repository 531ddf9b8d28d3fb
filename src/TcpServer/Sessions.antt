-- ===== src/TcpServer/Sessions.antt =====
-- What becomes of the tunnel connection that the WebSocket proxy of internal/tunnel/server.go uses.
use giraffecloud.Base.{
  ℕ, ◌≡◌, refl, ap, inl, inr, Bool, true, false, Option, none, some, [], Bytes, ◌==◌, nat_eq,
  bytes_eq, any, leb, nat_beq, arith, Bool-cases, beq_refl, subst,
}
use giraffecloud.Base.Map.{lookup, lookup-insert, lookup-delete, All-lookup}
use giraffecloud.Connections.Pool
use giraffecloud.Connections.Pool.{
  TunnelConnection, TunnelConnectionPool, World, close_socket, close_handle, remove_keeping,
  hand_out, next_index, size,
}
use giraffecloud.Connections.Manager
use giraffecloud.Connections.Manager.{
  DomainConnections, ConnectionManager, settle, get_domain_owner, get_web_socket_connection,
  get_web_socket_pool_size, max_web_socket_tunnels_per_domain, websocket, take_turn, on_entry,
}
use giraffecloud.Connections.Steps.{State, step, gets}
use giraffecloud.Connections.Census.{find_at}
use giraffecloud.Connections.Serving.{find-remove_keeping}
use giraffecloud.Connections.Entries.{IsServing}
use giraffecloud.Connections.Removal.{ws_connections}
use giraffecloud.Connections.Invariant.{Inv, step-Inv}
use giraffecloud.TcpServer.Clients.{HttpRequest, HttpResponse, ClientConn, response, send}
use giraffecloud.TcpServer.Wires.{
  Wires, Outcome, ReadResult, got, malformed, unread, upgrade_request, failed, refused, recorded,
  is_broken_pipe,
}
use giraffecloud.TcpServer.WebSockets.{
  forwarded, answered, after_read, after_write, handshake, release, with_tunnel, with_turn,
  is_blocked, proxied, proxy_web_socket_connection_internal,
}

-- Nobody else changes the connections while data is forwarded.
abbrev pub IsQuiet : Wires → Type 0
IsQuiet w = (s : State) → w.session s ≡ s

-- What the handshake and the forwarding leave: the connections, and the usage of a domain that is
-- not known.
abbrev Left : Bytes → State → Outcome → Type 0
Left domain s o = (o.state ≡ s) × ((get_domain_owner s.1 domain).2 ≡ false → o.usage ≡ [])

recorded_unknown :
    (owner : ℕ × ℕ × Bool) (domain : Bytes) (n_in n_out : ℕ)
    → owner.2 ≡ false
    → recorded owner domain n_in n_out ≡ []
unfolding recorded
recorded_unknown (u, t, ok) domain n_in n_out h = rw h refl

module _ (w : Wires) (domain : Bytes) (request : HttpRequest) (return_error : Bool)
    (quiet : IsQuiet w) where
  forwarded-Left :
      (s : State) (c : ClientConn) → Left domain s (forwarded w domain request return_error s c)
  unfolding forwarded
  forwarded-Left s c = (
    quiet s,
    λ h. elim (Bool-cases w.records_usage) [
      | inl r ↦ rw (r, quiet s) (recorded_unknown (get_domain_owner s.1 domain) domain _ _ h)
      | inr r ↦ rw r refl
    ],
  )

  answered-Left :
      (s : State) (c : ClientConn) (r : HttpResponse) (write flush : Option Bytes)
      → w.visitor_write_error ≡ write
      → w.visitor_flush_error ≡ flush
      → Left domain s (answered w domain request return_error s c r)
  unfolding answered failed
  answered-Left s c r (some x) flush e f = rw e (refl, λ _. refl)
  answered-Left s c r none (some x) e f = rw (e, f) (refl, λ _. refl)
  answered-Left s c r none none e f = elim (Bool-cases (nat_beq r.status_code 101)) [
    | inl ok ↦ rw (e, f, ok) (forwarded-Left s (send (response r) c))
    | inr other ↦ rw (e, f, other) (refl, λ _. refl)
  ]

  after_read-Left :
      (s : State) (c : ClientConn) (r : ReadResult)
      → Left domain s (after_read w domain request return_error s c r)
  unfolding after_read refused failed
  after_read-Left s c (got r) = answered-Left s c r _ _ refl refl
  after_read-Left s c malformed = forwarded-Left s c
  after_read-Left s c (unread e) = (refl, λ _. refl)

  after_write-Left :
      (s : State) (c : ClientConn) (socket : ℕ) (e : Option Bytes)
      → Left domain s (after_write w domain request return_error s c socket e)
  unfolding after_write refused failed
  after_write-Left s c socket none = after_read-Left s c (w.read socket)
  after_write-Left s c socket (some e) = elim (Bool-cases (is_broken_pipe e)) [
    | inl b ↦ rw b (refl, λ _. refl)
    | inr b ↦ rw b (refl, λ _. refl)
  ]

  pub handshake-Left :
      (s : State) (c : ClientConn) (socket : Option ℕ)
      → Left domain s (handshake w domain request return_error s c socket)
  unfolding handshake failed
  handshake-Left s c none = (refl, λ _. refl)
  handshake-Left s c (some socket) =
      after_write-Left s c socket (w.write_error socket (upgrade_request request))

  -- A free tunnel is used when the owner is not blocked and the pool is not full.
  pub found-with_tunnel :
      (world : World) (m m' : ConnectionManager) (c : ClientConn) (tc : TunnelConnection)
      → is_blocked w domain request return_error m ≡ false
      → leb max_web_socket_tunnels_per_domain (get_web_socket_pool_size m domain) ≡ false
      → get_web_socket_connection m domain ≡ (m', some tc)
      → proxied w domain request return_error (world, m) c
        ≡ with_tunnel w domain request return_error (world, m') c tc
  unfolding proxied with_turn
  found-with_tunnel world m m' c tc b room e =
      rw (b, room) (ap (with_turn w domain request return_error world c) e)

abbrev pub taken : World → ConnectionManager → Bytes → TunnelConnection → State
taken = Manager.remove_specific_web_socket_connection_without_closing

settle-ws :
    (world : World) (m : ConnectionManager) (domain : Bytes) (dc : DomainConnections) (a : ℕ)
    → find_at a dc.ws_pool.connections ≡ []
    → find_at a (ws_connections (settle world m domain dc).1 domain) ≡ []
unfolding settle find_at
settle-ws world m domain dc a e =
    ground (arith, lookup-insert domain domain dc m, lookup-delete domain domain m, beq_refl domain)

taken-gone :
    (world : World) (m : ConnectionManager) (domain : Bytes) (tc : TunnelConnection)
    → Inv (world, m)
    → find_at tc.address (ws_connections (taken world m domain tc).1 domain) ≡ []
unfolding Manager.remove_specific_web_socket_connection_without_closing
    Pool.remove_connection_without_closing find_at
taken-gone world m domain tc v =
    on_entry (λ (s : State). find_at tc.address (ws_connections s.1 domain) ≡ []) (lookup domain m)
      (λ e. ground (arith, e))
      λ dc e.
        let s = All-lookup (IsServing world.next_address) domain m v.serving e in
        settle-ws world m domain _ tc.address (
          find-remove_keeping domain dc.target_port tc.address 0 world.next_address
            dc.ws_pool.connections s.ws_pool.connections)

closed-close_socket :
    (socket : ℕ) (tc : TunnelConnection) (world : World)
    → tc.conn ≡ some socket
    → any (λ h. h == socket) (close_socket tc.conn world).closed ≡ true
unfolding close_socket close_handle
closed-close_socket socket tc world e = rw (e, beq_refl socket) refl

-- When the owner is not blocked, the pool is not full and nobody changes the connections during
-- the session, an upgrade that finds a free tunnel ends, on every branch, with the tunnel's socket
-- closed and the tunnel out of the domain's pool.
pub proxy_web_socket_connection_internal-releases :
    (w : Wires) (domain : Bytes) (request : HttpRequest) (return_error : Bool) (world : World)
    (m m' : ConnectionManager) (c : ClientConn) (tc : TunnelConnection) (socket : ℕ)
    → Inv (world, m)
    → IsQuiet w
    → is_blocked w domain request return_error m ≡ false
    → leb max_web_socket_tunnels_per_domain (get_web_socket_pool_size m domain) ≡ false
    → get_web_socket_connection m domain ≡ (m', some tc)
    → tc.conn ≡ some socket
    → let o = proxy_web_socket_connection_internal w domain request return_error (world, m) c in
      (any (λ h. h == socket) o.state.0.closed ≡ true)
      × (find_at tc.address (ws_connections o.state.1 domain) ≡ [])
unfolding proxy_web_socket_connection_internal with_tunnel release step
proxy_web_socket_connection_internal-releases w domain request return_error world m m' c tc socket v
      quiet b room e live =
    let s = taken world m' domain tc in
    let left = (handshake-Left w domain request return_error quiet s c tc.conn).0 in
    rw (found-with_tunnel w domain request return_error quiet world m m' c tc b room e)
      (closed-close_socket socket tc _ live, rw left (taken-gone world m' domain tc (turned-Inv e)))
  where
    turned-Inv : get_web_socket_connection m domain ≡ (m', some tc) → Inv (world, m')
    turned-Inv h =
        subst (λ (r : ConnectionManager × Option TunnelConnection). Inv (world, r.0)) h
          (step-Inv (world, m) (gets domain websocket) v)
