-- ===== src/Connections/Adding.antt =====
-- Where AddConnection of internal/tunnel/connection_manager.go puts a connection.
use giraffecloud.Base.{
  ℕ, ◌≤◌, ◌≡◌, ◌≢◌, ◌⊎◌, refl, sym, ap, ◌∙◌, inl, inr, Bool-cases, true, Option, none, some, List,
  [], ◌∷◌, ◌++◌, Bytes, bytes_eq, beq_refl, leb, arith,
}
use giraffecloud.Base.Map.{lookup, insert, lookup-insert}
use giraffecloud.Connections.Pool
use giraffecloud.Connections.Pool.{TunnelConnection, World, close_handle, size, new_pool}
use giraffecloud.Connections.Manager
use giraffecloud.Connections.Manager.{
  DomainConnections, ConnectionManager, ConnectionType, http, websocket, other, place,
  get_or_create, set_owner, new_domain, max_web_socket_tunnels_per_domain, get_all_http_connections,
  get_web_socket_pool_size,
}
use giraffecloud.Connections.Removal.{ws_connections, Pools, absent-Pools, found-Pools}

-- The domain's connections of one type.
abbrev pub connections_of : ConnectionType → ConnectionManager → Bytes → List TunnelConnection
connections_of http m domain = get_all_http_connections m domain
connections_of websocket m domain = ws_connections m domain
connections_of other m domain = []

module _ (w : World) (m : ConnectionManager) (domain : Bytes) (conn : ℕ)
    (type : ConnectionType) where
  -- The connection is the last of its pool, and no socket was closed.
  abbrev pub Taken : World → ConnectionManager → Type 0
  Taken w' m' =
      (tc : TunnelConnection) × (tc.conn ≡ some conn)
      × (connections_of type m' domain ≡ connections_of type m domain ++ tc ∷ [])
      × (w'.closed ≡ w.closed)

  -- There are 25 WebSocket connections already: the pool stays, and the socket is closed.
  abbrev pub Refused : World → ConnectionManager → Type 0
  Refused w' m' =
      (type ≡ websocket)
      × (max_web_socket_tunnels_per_domain ≤ get_web_socket_pool_size m domain)
      × (connections_of type m' domain ≡ connections_of type m domain)
      × (w'.closed ≡ conn ∷ w.closed)

entry-Pools :
    (m : ConnectionManager) (domain : Bytes) (port : ℕ) (o : Option DomainConnections)
    → lookup domain m ≡ o
    → let dc = get_or_create o domain port in
      Pools m domain dc.http_pool.connections dc.ws_pool.connections
unfolding get_or_create new_domain new_pool
entry-Pools m domain port none e = absent-Pools m domain e
entry-Pools m domain port (some dc) e = found-Pools m domain dc e

ws_size :
    (m : ConnectionManager) (domain : Bytes) (port user tunnel : ℕ) (o : Option DomainConnections)
    → lookup domain m ≡ o
    → size (set_owner user tunnel (get_or_create o domain port)).ws_pool
      ≡ get_web_socket_pool_size m domain
unfolding get_or_create new_domain new_pool get_web_socket_pool_size set_owner size
ws_size m domain port user tunnel none e = ground (arith, e)
ws_size m domain port user tunnel (some dc) e = ground (arith, e)

le_of_leb : (a b : ℕ) → leb a b ≡ true → a ≤ b
le_of_leb a b h = ground (arith, h)

inserted-Pools :
    (m : ConnectionManager) (domain : Bytes) (dc : DomainConnections)
    → Pools (insert domain dc m) domain dc.http_pool.connections dc.ws_pool.connections
inserted-Pools m domain dc =
    found-Pools (insert domain dc m) domain dc
      (ground (arith, lookup-insert domain domain dc m, beq_refl domain))

-- A connection of one of the two types is taken in, or it is refused for the limit.
pub add_connection-Placed :
    (w : World) (m : ConnectionManager) (domain : Bytes) (conn : ℕ) (type : ConnectionType)
    (port user tunnel : ℕ)
    → type ≢ other
    → let (w', m', _) = Manager.add_connection w m domain conn port type user tunnel in
      Taken w m domain conn type w' m' ⊎ Refused w m domain conn type w' m'
unfolding Manager.add_connection place Pool.add_connection Pool.new_tunnel_connection set_owner
    close_handle
add_connection-Placed w m domain conn http port user tunnel known =
    let dc = set_owner user tunnel (get_or_create (lookup domain m) domain port) in
    let tc =
      Pool.new_tunnel_connection w dc.http_pool.domain (some conn) dc.http_pool.target_port in
    let before = entry-Pools m domain port (lookup domain m) refl in
    inl (
      tc,
      refl,
      (inserted-Pools m domain
            (record dc { http_pool = (Pool.add_connection w dc.http_pool (some conn)).1 })).0
          ∙ ap (λ tcs. tcs ++ tc ∷ []) (sym before.0),
      refl,
    )
add_connection-Placed w m domain conn websocket port user tunnel known =
    let dc = set_owner user tunnel (get_or_create (lookup domain m) domain port) in
    let tc = Pool.new_tunnel_connection w dc.ws_pool.domain (some conn) dc.ws_pool.target_port in
    let before = entry-Pools m domain port (lookup domain m) refl in
    let same = ws_size m domain port user tunnel (lookup domain m) refl in
    elim (Bool-cases (leb max_web_socket_tunnels_per_domain (size dc.ws_pool))) [
      | inl full ↦ rw full (
          inr (
            refl,
            omega (arith, same, le_of_leb _ _ full),
            (inserted-Pools m domain dc).1 ∙ sym before.1,
            refl,
          ))
      | inr room ↦ rw room (
          inl (
            tc,
            refl,
            (inserted-Pools m domain
                  (record dc { ws_pool = (Pool.add_connection w dc.ws_pool (some conn)).1 })).1
                ∙ ap (λ tcs. tcs ++ tc ∷ []) (sym before.1),
            refl,
          ))
    ]
add_connection-Placed w m domain conn other port user tunnel known = absurd (known refl)
