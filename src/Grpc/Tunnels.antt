-- ===== src/Grpc/Tunnels.antt =====
-- The tunnels of the gRPC server (internal/tunnel/grpc_service.go): EstablishTunnel up to the handling
-- of messages, its deferred clean-up, and IsTunnelActive of grpc_service_helpers.go. The server has
-- a tunnel service.
use giraffecloud.Tunnels.Outside
use giraffecloud.Base.{
  ℕ, ◌%◌, ◌^◌, Bool, true, false, Option, none, some, List, [], Bytes, ◌==◌, nat_eq, bytes_eq,
  if◌then◌else◌,
}
use giraffecloud.Base.Map.{lookup, insert, delete}
use giraffecloud.Tunnels.Store.{Tunnel, Client}
use giraffecloud.Tunnels.Service
use giraffecloud.Tunnels.Outside.{RouteCall, Result}
use giraffecloud.Auth.Tokens.{TokenClient}
use giraffecloud.Auth.Tunnels.{AuthError, AuthResult, authenticate_tunnel_by_token}

-- TunnelStream, without what Streams models of it; a stream of gRPC is a number.
pub record ActiveStream : Type 0 where
  pub domain : Bytes
  pub target_port : ℕ
  pub tunnel_id : ℕ
  pub user_id : ℕ
  pub stream : ℕ
  pub is_connected : Bool

pub record GrpcServer : Type 0 where
  pub tunnel_streams : List (Bytes × ActiveStream)
  pub total_requests : ℕ
  pub concurrent_reqs : ℕ
  pub total_responses : ℕ
  pub total_errors : ℕ
  pub timeout_errors : ℕ

abbrev pub connected : Option ActiveStream → Bool
connected none = false
connected (some stream) = stream.is_connected

unfoldable pub is_tunnel_active : Bytes → GrpcServer → Bool
is_tunnel_active domain s = connected (lookup domain s.tunnel_streams)

pub record TunnelHandshake : Type 0 where
  pub token : Bytes
  pub domain : Bytes
  pub target_port : ℕ

-- The client: its first message, if one comes, with the handshake in it, its address, and whether
-- the response can be sent.
pub record GrpcPeer : Type 0 where
  pub first_message : Option (Option TunnelHandshake)
  pub client_ip : Bytes
  pub receives : Bool

pub data EstablishError : Type 0 where
  handshake_required invalid_handshake configure_failed send_failed : EstablishError
  authentication_failed : AuthError → EstablishError

pub data Establishment : Type 0 where
  serving : ActiveStream → Establishment
  refused : EstablishError → Establishment

pub record Established (T : Type 0) : Type 0 where
  pub server : GrpcServer
  pub store : T
  pub log : List RouteCall
  pub result : Establishment

unfoldable pub tunnel_stream : TunnelHandshake → ℕ → Tunnel → ActiveStream
tunnel_stream handshake stream t = record {
  domain = t.domain;
  target_port =
      if handshake.target_port == 0 then t.target_port % 2 ^ 32 else handshake.target_port;
  tunnel_id = t.id % 2 ^ 32;
  user_id = t.user_id;
  stream = stream;
  is_connected = true;
}

module _ {S T : Type 0} (tokens : TokenClient S) (tunnels : Client T) (hash : Bytes → Bytes)
    (services : Outside.World) where
  -- The deferred function of EstablishTunnel; what UpdateClientIP returns is only logged.
  unfoldable pub leave :
      ActiveStream → GrpcServer → T → List RouteCall → GrpcServer × T × List RouteCall
  leave stream server store log =
      let (store', log', _) =
        Service.update_client_ip tunnels services stream.tunnel_id [] store log in
      (record server { tunnel_streams = delete stream.domain server.tunnel_streams }, store', log')

  -- From the registration on.
  unfoldable pub welcome : Bool → ActiveStream → GrpcServer → T → List RouteCall → Established T
  unfolding leave
  welcome receives stream server store log =
      let server' : GrpcServer = record server {
        tunnel_streams = insert stream.domain stream server.tunnel_streams;
      } in
      let (left, store', log') = leave stream server' store log in
      if receives
      then record { server = server'; store = store; log = log; result = serving stream }
      else record { server = left; store = store'; log = log'; result = refused send_failed }

  -- After the update of the client's address.
  unfoldable pub configured :
      GrpcPeer → ActiveStream → GrpcServer → T × List RouteCall × Result (Unit {0}) → Established T
  unfolding welcome
  configured peer stream server (store, log, Outside.err e) = record {
    server = server;
    store = store;
    log = log;
    result = refused configure_failed;
  }
  configured peer stream server (store, log, Outside.ok _) =
      welcome peer.receives stream server store log

  unfoldable pub admitted :
      GrpcPeer → TunnelHandshake → ℕ → AuthResult → GrpcServer → T → List RouteCall → Established T
  unfolding configured tunnel_stream
  admitted peer handshake stream (AuthResult.err e) server store log = record {
    server = server;
    store = store;
    log = log;
    result = refused (authentication_failed e);
  }
  admitted peer handshake stream (AuthResult.ok t) server store log =
      configured peer (tunnel_stream handshake stream t) server
        (Service.update_client_ip tunnels services (t.id % 2 ^ 32) peer.client_ip store log)

  unfoldable pub received :
      GrpcPeer
      → Option (Option TunnelHandshake)
      → ℕ
      → GrpcServer
      → S
      → T
      → List RouteCall
      → Established T
  unfolding admitted
  received peer none stream server s store log = record {
    server = server;
    store = store;
    log = log;
    result = refused handshake_required;
  }
  received peer (some none) stream server s store log = record {
    server = server;
    store = store;
    log = log;
    result = refused invalid_handshake;
  }
  received peer (some (some handshake)) stream server s store log =
      admitted peer handshake stream
        (authenticate_tunnel_by_token tokens tunnels hash handshake.token handshake.domain s store)
        server store log

  unfoldable pub establish_tunnel :
      GrpcPeer → ℕ → GrpcServer → S → T → List RouteCall → Established T
  unfolding received
  establish_tunnel peer stream server s store log =
      received peer peer.first_message stream server s store log
