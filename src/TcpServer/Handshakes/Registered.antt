-- ===== src/TcpServer/Handshakes/Registered.antt =====
-- Which connections handleConnection (internal/tunnel/server.go) lets in.
use giraffecloud.Tunnels.Outside
use giraffecloud.Base.{
  ℕ, ◌==◌, ◌≢◌, ◌⊎◌, codes, bytes_eq, ◌%◌, ◌^◌, ◌≡◌, refl, true, false, Option, none, some, List,
  [], ◌∷◌, Bytes, Bool-cases, inl, inr,
}
use giraffecloud.Connections.Pool.{World}
use giraffecloud.Connections.Manager
use giraffecloud.Connections.Manager.{ConnectionManager, ConnectionType, other}
use giraffecloud.Connections.Adding.{Taken, Refused, add_connection-Placed}
use giraffecloud.Tunnels.Store.{Tunnel, Client}
use giraffecloud.Tunnels.Service
use giraffecloud.Tunnels.Outside.{RouteCall, Result}
use giraffecloud.Auth.Tokens.{TokenClient}
use giraffecloud.Auth.Tunnels.{AuthResult, authenticate_tunnel_by_token}
use giraffecloud.Auth.Granted.{Granted, authenticate_tunnel_by_token-Granted}
use giraffecloud.TcpServer.Handshakes.{
  HandshakeRequest, success, Peer, Handshake, connection_type_of, turned_away, registered, updated,
  addressed, authenticated, decoded, handle_connection,
}

module _ {S T : Type 0} (tokens : TokenClient S) (tunnels : Client T) (hash : Bytes → Bytes)
    (services : Outside.World) (conn : ℕ) where
  -- AddConnection was called for the tunnel, its success was sent, and the connection is the last of
  -- the tunnel's pool, unless 25 WebSocket connections were there, so that it was closed.
  abbrev Added : ConnectionManager → World → Tunnel → ConnectionType → Handshake T → Type 0
  Added m world t type o =
      (o.state ≡ (
        let (world', m', _) =
          Manager.add_connection world m t.domain conn t.target_port type t.user_id
            (t.id % 2 ^ 32) in
        (world', m')))
      × (o.replies ≡ success t.domain t.target_port type ∷ [])
      × (Taken world m t.domain conn type o.state.0 o.state.1
          ⊎ Refused world m t.domain conn type o.state.0 o.state.1)

  -- The connection was turned away: the manager is as before, and the socket is closed.
  abbrev TurnedAway : ConnectionManager → World → Handshake T → Type 0
  TurnedAway m world o =
      (o.state.1 ≡ m) × (o.state.0.closed ≡ conn ∷ world.closed) × (o.announced ≡ [])

  abbrev Settled : ConnectionManager → World → Tunnel → ConnectionType → Handshake T → Type 0
  Settled m world t type o =
      (type ≢ other → o.is_kept ≡ true → Added m world t type o)
      × (o.is_kept ≡ false → TurnedAway m world o)

  updated-Settled :
      (world : World) (m : ConnectionManager) (peer : Peer) (t : Tunnel) (type : ConnectionType)
      (r : T × List RouteCall × Result (Unit {0}))
      → Settled m world t type (updated tokens tunnels hash services conn world m peer t type r)
  unfolding updated turned_away registered
  updated-Settled world m peer t type (store, log, Outside.err e) =
      (λ k h. cc, λ h. (refl, refl, refl))
  updated-Settled world m peer t type (store, log, Outside.ok _) = elim (Bool-cases peer.receives) [
    | inl yes_so ↦ rw yes_so (
      λ known h. (
        refl,
        refl,
        add_connection-Placed world m t.domain conn type t.target_port t.user_id (t.id % 2 ^ 32)
            known,
      ),
      λ h. cc,
    )
    | inr not_so ↦ rw not_so (λ known h. cc, λ h. (refl, refl, refl))
  ]

  addressed-Settled :
      (world : World) (m : ConnectionManager) (peer : Peer) (t : Tunnel) (type : ConnectionType)
      (ip : Option Bytes) (store : T) (log : List RouteCall)
      → Settled m world t type
          (addressed tokens tunnels hash services conn world m peer t type ip store log)
  unfolding addressed turned_away
  addressed-Settled world m peer t type none store log = (λ known h. cc, λ h. (refl, refl, refl))
  addressed-Settled world m peer t type (some ip) store log =
      updated-Settled world m peer t type
        (Service.update_client_ip tunnels services (t.id % 2 ^ 32) ip store log)

  -- What the request was granted, and what that makes of the connection.
  abbrev Answered : HandshakeRequest → World → ConnectionManager → S → T → Handshake T → Type 0
  Answered request world m s store o =
      (o.is_kept ≡ true
        → (t : Tunnel) × Granted tokens tunnels hash request.token request.domain s store t
          × Added m world t (connection_type_of request) o)
      × (o.is_kept ≡ false → TurnedAway m world o)

  -- The same, from the peer, whose request may not be one that can be decoded.
  abbrev pub Admitted : Peer → World → ConnectionManager → S → T → Handshake T → Type 0
  Admitted peer world m s store o =
      (o.is_kept ≡ true
        → (request : HandshakeRequest) × (peer.request ≡ some request)
          × (t : Tunnel) × Granted tokens tunnels hash request.token request.domain s store t
          × Added m world t (connection_type_of request) o)
      × (o.is_kept ≡ false → TurnedAway m world o)

  type_known : (request : HandshakeRequest) → connection_type_of request ≢ other
  unfolding connection_type_of
  type_known request = elim (Bool-cases (request.connection_type == codes "websocket")) [
    | inl yes_so ↦ rw yes_so (λ e. cc)
    | inr not_so ↦ rw not_so (λ e. cc)
  ]

  authenticated-Answered :
      (world : World) (m : ConnectionManager) (peer : Peer) (request : HandshakeRequest) (s : S)
      (store : T) (log : List RouteCall) (a : AuthResult)
      → authenticate_tunnel_by_token tokens tunnels hash request.token request.domain s store ≡ a
      → Answered request world m s store (
          authenticated tokens tunnels hash services conn world m peer
            (connection_type_of request)
            a
            store
            log)
  unfolding authenticated turned_away
  authenticated-Answered world m peer request s store log (AuthResult.err e) h =
      (λ k. cc, λ k. (refl, refl, refl))
  authenticated-Answered world m peer request s store log (AuthResult.ok t) h =
      let settled =
        addressed-Settled world m peer t (connection_type_of request) peer.client_ip store log in
      (
        λ k. (
          t,
          authenticate_tunnel_by_token-Granted tokens tunnels hash request.token request.domain s
              store t h,
          settled.0 (type_known request) k,
        ),
        settled.1,
      )

  decoded-Admitted :
      (world : World) (m : ConnectionManager) (peer : Peer) (o : Option HandshakeRequest) (s : S)
      (store : T) (log : List RouteCall)
      → peer.request ≡ o
      → Admitted peer world m s store
          (decoded tokens tunnels hash services conn world m peer o s store log)
  unfolding decoded turned_away
  decoded-Admitted world m peer none s store log e = (λ k. cc, λ k. (refl, refl, refl))
  decoded-Admitted world m peer (some request) s store log e =
      let answer = authenticated-Answered world m peer request s store log _ refl in
      (λ k. let (t, granted, added) = answer.0 k in (request, e, t, granted, added), answer.1)

  -- A connection that handleConnection keeps carries a request to which a tunnel was granted: an
  -- enabled tunnel of the user whose unrevoked token the request carries. AddConnection was called
  -- with that tunnel's domain, port, owner and id and the requested type, and the success was sent.
  -- Then the connection is the last one of its pool and no socket was closed; or it is a WebSocket
  -- connection, the pool had 25 or more, the pool stays, and the socket was closed although its
  -- success was sent. A connection that it does not keep, as one without a request that can be
  -- decoded, is closed, nothing is announced, and the manager is as before.
  pub handle_connection-Admitted :
      (world : World) (m : ConnectionManager) (peer : Peer) (s : S) (store : T)
      (log : List RouteCall)
      → Admitted peer world m s store
          (handle_connection tokens tunnels hash services conn (world, m) peer s store log)
  unfolding handle_connection
  handle_connection-Admitted world m peer s store log =
      decoded-Admitted world m peer peer.request s store log refl
