-- ===== src/TcpServer/Handshakes/Tests.antt =====
-- A handshake with the TCP server (internal/tunnel/server.go) over tables in memory.
use giraffecloud.Base.{◌≡◌, refl, true, some, [], ◌∷◌, codes, bytes_beq}
use giraffecloud.Connections.Steps.{start}
use giraffecloud.Tunnels.Store.{updated_row}
use giraffecloud.Tunnels.Repository
use giraffecloud.Tunnels.Memory.{in_memory}
use giraffecloud.Tunnels.Service
use giraffecloud.Auth.Memory.{tokens_in_memory}
use giraffecloud.Auth.Tokens.{get_by_token}
use giraffecloud.Auth.Tunnels.{
  find_domain, matched, choose_enabled, choose_tunnel, with_tunnels, with_token,
  authenticate_tunnel_by_token,
}
use giraffecloud.TcpServer.Handshakes.{HandshakeRequest, Peer, handle_connection}
use giraffecloud.TcpServer.Handshakes.Registered.{Admitted, handle_connection-Admitted}
use giraffecloud.Auth.Samples.{hash, laptop_token, shop_tunnel, services}

abbrev request : HandshakeRequest
request = record {
  token = codes "secret";
  domain = codes "shop.example";
  connection_type = codes "websocket";
}

abbrev peer : Peer
peer = record { request = some request; client_ip = some (codes "1.2.3.4"); receives = true }

handle_connection-Admitted_example :
    Admitted tokens_in_memory in_memory hash services 7 peer start.0 start.1
      (laptop_token ∷ [])
      (shop_tunnel ∷ [])
      (handle_connection tokens_in_memory in_memory hash services 7
        (start.0, start.1)
        peer
        (laptop_token ∷ [])
        (shop_tunnel ∷ [])
        [])
handle_connection-Admitted_example =
    handle_connection-Admitted tokens_in_memory in_memory hash services 7 start.0 start.1 peer
      (laptop_token ∷ []) (shop_tunnel ∷ []) []

-- The connection is kept.
kept_test :
    (handle_connection tokens_in_memory in_memory hash services 7
      (start.0, start.1)
      peer
      (laptop_token ∷ [])
      (shop_tunnel ∷ [])
      []).is_kept
    ≡ true
unfolding handle_connection bytes_beq start authenticate_tunnel_by_token with_token get_by_token
    with_tunnels Repository.get_by_user_id choose_tunnel choose_enabled matched find_domain
    Service.update_client_ip Repository.get_by_id Repository.update_client_ip updated_row
kept_test = refl
