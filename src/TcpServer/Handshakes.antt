-- ===== src/TcpServer/Handshakes.antt =====
-- handleConnection of internal/tunnel/server.go, up to where it waits forever, with the messages of
-- internal/tunnel/types.go. JSON is a parameter: what is decoded and whether a reply can be sent.
pub mod Registered
mod Tests
use giraffecloud.Tunnels.Outside
use giraffecloud.Base.{
  ℕ, ◌%◌, ◌^◌, Bool, true, false, ◌&&◌, Option, none, some, List, [], ◌∷◌, ◌++◌, Bytes, codes, ◌==◌,
  bytes_eq, bytes_beq, if◌then◌else◌,
}
use giraffecloud.Connections.Pool.{World, close_handle}
use giraffecloud.Connections.Manager
use giraffecloud.Connections.Manager.{ConnectionManager, ConnectionType, http, websocket}
use giraffecloud.Connections.Steps.{State}
use giraffecloud.Tunnels.Store.{Tunnel, Client}
use giraffecloud.Tunnels.Service
use giraffecloud.Tunnels.Outside.{RouteCall, Result}
use giraffecloud.Auth.Tokens.{TokenClient}
use giraffecloud.Auth.Tunnels.{AuthError, AuthResult, authenticate_tunnel_by_token}

pub record HandshakeRequest : Type 0 where
  pub token : Bytes
  pub domain : Bytes
  pub connection_type : Bytes

-- TunnelHandshakeResponse: an error with its message, or the tunnel and the type of the connection.
pub data HandshakeResponse : Type 0 where
  not_authenticated : AuthError → HandshakeResponse
  error : Bytes → HandshakeResponse
  success : Bytes → ℕ → ConnectionType → HandshakeResponse

-- The other end of a new connection: its request, if one can be decoded, its address, if it can be
-- split, and whether the success can be sent.
pub record Peer : Type 0 where
  pub request : Option HandshakeRequest
  pub client_ip : Option Bytes
  pub receives : Bool

-- What a handshake leaves: the connections, the table of tunnels, the calls of Caddy, the replies,
-- the domains for which the establishment of a WebSocket tunnel was announced, and whether the
-- connection is kept.
pub record Handshake (T : Type 0) : Type 0 where
  pub state : State
  pub store : T
  pub log : List RouteCall
  pub replies : List HandshakeResponse
  pub announced : List Bytes
  pub is_kept : Bool

unfoldable pub connection_type_of : HandshakeRequest → ConnectionType
unfolding bytes_beq
connection_type_of request =
    if request.connection_type == codes "websocket" then websocket else http

abbrev pub announcement : ConnectionType → Bytes → List Bytes
announcement websocket domain = domain ∷ []
announcement _ domain = []

module _ {S T : Type 0} (tokens : TokenClient S) (tunnels : Client T) (hash : Bytes → Bytes)
    (services : Outside.World) (conn : ℕ) where
  -- A return before the connection is added, by which it is closed.
  unfoldable pub turned_away :
      World → ConnectionManager → T → List RouteCall → List HandshakeResponse → Handshake T
  unfolding close_handle
  turned_away world m store log replies = record {
    state = (close_handle conn world, m);
    store = store;
    log = log;
    replies = replies;
    announced = [];
    is_kept = false;
  }

  unfoldable pub registered :
      World → ConnectionManager → Tunnel → ConnectionType → T → List RouteCall → Handshake T
  registered world m t type store log =
      let (world', m', _) =
        Manager.add_connection world m t.domain conn t.target_port type t.user_id (t.id % 2 ^ 32) in
      record {
        state = (world', m');
        store = store;
        log = log;
        replies = success t.domain t.target_port type ∷ [];
        announced = announcement type t.domain;
        is_kept = true;
      }

  -- After the update of the client's address.
  unfoldable pub updated :
      World
      → ConnectionManager
      → Peer
      → Tunnel
      → ConnectionType
      → T × List RouteCall × Result (Unit {0})
      → Handshake T
  unfolding turned_away registered
  updated world m peer t type (store, log, Outside.err e) =
      turned_away world m store log (error (codes "Failed to update client IP") ∷ [])
  updated world m peer t type (store, log, Outside.ok _) =
      if peer.receives
      then registered world m t type store log
      else turned_away world m store log []

  unfoldable pub addressed :
      World
      → ConnectionManager
      → Peer
      → Tunnel
      → ConnectionType
      → Option Bytes
      → T
      → List RouteCall
      → Handshake T
  unfolding updated turned_away
  addressed world m peer t type none store log =
      turned_away world m store log (error (codes "Failed to get client IP") ∷ [])
  addressed world m peer t type (some ip) store log =
      updated world m peer t type
        (Service.update_client_ip tunnels services (t.id % 2 ^ 32) ip store log)

  unfoldable pub authenticated :
      World
      → ConnectionManager
      → Peer
      → ConnectionType
      → AuthResult
      → T
      → List RouteCall
      → Handshake T
  unfolding addressed turned_away
  authenticated world m peer type (AuthResult.err e) store log =
      turned_away world m store log (not_authenticated e ∷ [])
  authenticated world m peer type (AuthResult.ok t) store log =
      addressed world m peer t type peer.client_ip store log

  unfoldable pub decoded :
      World
      → ConnectionManager
      → Peer
      → Option HandshakeRequest
      → S
      → T
      → List RouteCall
      → Handshake T
  unfolding authenticated turned_away connection_type_of
  decoded world m peer none s store log = turned_away world m store log []
  decoded world m peer (some request) s store log =
      authenticated world m peer (connection_type_of request)
        (authenticate_tunnel_by_token tokens tunnels hash request.token request.domain s store)
        store log

  unfoldable pub handle_connection : State → Peer → S → T → List RouteCall → Handshake T
  unfolding decoded
  handle_connection (world, m) peer s store log = decoded world m peer peer.request s store log
