-- ===== src/Grpc/Admitted.antt =====
-- Which tunnels EstablishTunnel (internal/tunnel/grpc_service.go) serves.
use giraffecloud.Tunnels.Outside
use giraffecloud.Base.{
  ℕ, ◌≡◌, refl, inl, inr, true, false, some, List, Bytes, ◌==◌, bytes_eq, if◌then◌else◌, Bool-cases,
}
use giraffecloud.Base.Map.{lookup, lookup-delete}
use giraffecloud.Tunnels.Store.{Tunnel, Client}
use giraffecloud.Tunnels.Service
use giraffecloud.Tunnels.Outside.{RouteCall}
use giraffecloud.Auth.Tokens.{TokenClient}
use giraffecloud.Auth.Granted.{Granted}
use giraffecloud.Grpc.Tunnels.{
  ActiveStream, GrpcServer, is_tunnel_active, TunnelHandshake, send_failed, Establishment, serving,
  refused, tunnel_stream, leave,
}

module _ {S T : Type 0} (tokens : TokenClient S) (tunnels : Client T) (hash : Bytes → Bytes)
    (services : Outside.World) where
  -- What the departure of a stream does to the domains: its domain is not served any more, by
  -- whichever stream it was.
  pub leave-is_tunnel_active :
      (stream : ActiveStream) (server : GrpcServer) (store : T) (log : List RouteCall) (d : Bytes)
      → is_tunnel_active d (leave tokens tunnels hash services stream server store log).0
        ≡ (if stream.domain == d then false else is_tunnel_active d server)
  unfolding leave is_tunnel_active
  leave-is_tunnel_active stream server store log d =
      rw (lookup-delete stream.domain d server.tunnel_streams)
        (elim (Bool-cases (stream.domain == d)) [
          | inl same ↦ rw same refl
          | inr other ↦ rw other refl
        ])

  module _ (handshake : TunnelHandshake) (number : ℕ) (server : GrpcServer) where
    -- The stream for a tunnel is registered, the other domains are as before.
    abbrev pub Registered : Tunnel → ActiveStream → GrpcServer → Type 0
    Registered t stream server' =
        (stream ≡ tunnel_stream handshake number t)
        × (is_tunnel_active t.domain server' ≡ true)
        × ((d : Bytes)
            → lookup d server'.tunnel_streams
              ≡ (if t.domain == d then some stream else lookup d server.tunnel_streams))

    -- The domain is served by no stream, the other domains are as before.
    abbrev pub Unregistered : Tunnel → GrpcServer → Type 0
    Unregistered t server' =
        (d : Bytes)
        → is_tunnel_active d server' ≡ (if t.domain == d then false else is_tunnel_active d server)

    abbrev Settled : Tunnel → GrpcServer → Establishment → Type 0
    Settled t server' (serving stream) = Registered t stream server'
    Settled t server' (refused send_failed) = Unregistered t server'
    Settled t server' (refused _) = server' ≡ server

    -- What is served, and what is not.
    abbrev pub Admitted : S → T → GrpcServer → Establishment → Type 0
    Admitted s store server' (serving stream) =
        (t : Tunnel) × Granted tokens tunnels hash handshake.token handshake.domain s store t
        × Registered t stream server'
    Admitted s store server' (refused send_failed) =
        (t : Tunnel) × Granted tokens tunnels hash handshake.token handshake.domain s store t
        × Unregistered t server'
    Admitted s store server' (refused _) = server' ≡ server
