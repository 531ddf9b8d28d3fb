-- ===== src/Connections/Owners.antt =====
-- Who owns a domain: AddConnection and GetDomainOwner of internal/tunnel/connection_manager.go.
use giraffecloud.Base.{
  ℕ, ◌≡◌, refl, true, Bytes, ◌==◌, nat_eq, bytes_eq, arith, if◌then◌else◌, bytes_beq_iff,
}
use giraffecloud.Base.Map.{lookup, lookup-insert}
use giraffecloud.Connections.Pool.{World}
use giraffecloud.Connections.Manager
use giraffecloud.Connections.Manager.{
  DomainConnections, ConnectionManager, ConnectionType, http, websocket, other, settle, place,
  get_domain_owner, has_domain, get_all_http_connections, get_web_socket_pool_size,
  get_http_pool_size, take_turn, on_entry, get_or_create, set_owner, new_domain,
  max_web_socket_tunnels_per_domain,
}

-- An owner that is set stays.
abbrev pub keep : ℕ → ℕ → ℕ
keep old new = if old == 0 then new else old

place-owner :
    (w : World) (dc : DomainConnections) (type : ConnectionType) (conn : ℕ)
    → ((place w dc type conn).1.user_id ≡ dc.user_id)
      × ((place w dc type conn).1.tunnel_id ≡ dc.tunnel_id)
unfolding place
place-owner w dc http conn = (refl, refl)
place-owner w dc websocket conn = ground arith
place-owner w dc other conn = (refl, refl)

-- Whatever its type and whether or not its socket is accepted, an added connection makes its domain
-- known, with the user and the tunnel that were set before, or else its own; the owners of all
-- other domains stay.
pub get_domain_owner-add_connection :
    (w : World) (m : ConnectionManager) (domain : Bytes) (conn port : ℕ) (type : ConnectionType)
    (user tunnel : ℕ) (d : Bytes)
    → get_domain_owner (Manager.add_connection w m domain conn port type user tunnel).1 d ≡ (
        if domain == d
        then (keep (get_domain_owner m d).0 user, keep (get_domain_owner m d).1 tunnel, true)
        else get_domain_owner m d)
unfolding get_domain_owner Manager.add_connection set_owner get_or_create new_domain
get_domain_owner-add_connection w m domain conn port type user tunnel d =
    let dc = set_owner user tunnel (get_or_create (lookup domain m) domain port) in
    ground (
      arith,
      lookup-insert domain d (place w dc type conn).1 m,
      bytes_beq_iff domain d,
      place-owner w dc type conn,
    )
