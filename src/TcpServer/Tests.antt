-- ===== src/TcpServer/Tests.antt =====
-- Runs of the WebSocket proxy of internal/tunnel/server.go on concrete inputs.
use giraffecloud.Base.{
  ℕ, ◌≡◌, refl, true, false, Option, none, some, List, [], ◌∷◌, Bytes, codes, ◌==◌, nat_eq,
  bytes_eq, any, bytes_beq,
}
use giraffecloud.Base.Map.{lookup, insert}
use giraffecloud.Connections.Pool
use giraffecloud.Connections.Pool.{TunnelConnection, World}
use giraffecloud.Connections.Manager
use giraffecloud.Connections.Manager.{
  ConnectionManager, DomainConnections, websocket, get_domain_owner, get_web_socket_connection,
  get_web_socket_pool_size,
}
use giraffecloud.Connections.Steps.{State, run, start, step, Op, adds}
use giraffecloud.Connections.Census.{find_at}
use giraffecloud.Connections.Invariant.{run-Inv}
use giraffecloud.TcpServer.Clients.{HttpRequest, ClientConn, response, send, close_client}
use giraffecloud.TcpServer.Wires.{Wires, Outcome, got, upgrade_request}
use giraffecloud.TcpServer.WebSockets.{is_blocked, proxy_web_socket_connection_internal}
use giraffecloud.TcpServer.Forgotten.{proxy_web_socket_connection_internal-unrecorded}
use giraffecloud.Connections.Removal.{ws_connections}
use giraffecloud.TcpServer.Sessions.{proxy_web_socket_connection_internal-releases}

abbrev shop : Bytes
shop = codes "shop.example"

abbrev hello : HttpRequest
hello = record {
  method = codes "GET";
  request_uri = codes "/ws/";
  host = shop;
  header = (codes "Host", shop ∷ []) ∷ (codes "Upgrade", codes "websocket" ∷ []) ∷ [];
}

-- The host stands once, before the other headers.
upgrade_request_test :
    upgrade_request hello
    ≡ codes "GET /ws/ HTTP/1.1\r\nHost: shop.example\r\nUpgrade: websocket\r\n\r\n"
unfolding upgrade_request bytes_beq
upgrade_request_test = refl

-- A tunnel that accepts the upgrade, with 5 and 7 bytes copied; and one that is dead.
abbrev wires : Option Bytes → Wires
wires error = record {
  quota = none;
  request_tunnel = none;
  pause = λ _ s. s;
  session = λ s. s;
  write_error = λ _ _. error;
  read = λ _. got (record { status_code = 101; payload = [] });
  visitor_write_error = none;
  visitor_flush_error = none;
  records_usage = true;
  copied_in = 5;
  copied_out = 7;
}

abbrev visitor : ClientConn
visitor = record { sent = []; is_closed = false }

abbrev two : List Op
two = adds shop 7 80 websocket 1 2 ∷ adds shop 8 80 websocket 1 2 ∷ []

abbrev two_tunnels : State
two_tunnels = run start two

abbrev line : ℕ → ℕ → TunnelConnection
line address handle = record {
  address = address;
  conn = some handle;
  domain = shop;
  target_port = 80;
  request_count = 0;
  created_at = 0;
}

abbrev dead : Outcome
dead =
    proxy_web_socket_connection_internal (wires (some (codes "broken pipe"))) shop hello true
      two_tunnels visitor

proxy_web_socket_connection_internal-releases_example :
    (any (λ h. h == 8) dead.state.0.closed ≡ true)
    × (find_at 1 (ws_connections dead.state.1 shop) ≡ [])
unfolding is_blocked get_web_socket_pool_size run step start Manager.add_connection
    Manager.get_connection Pool.size Pool.get_connection lookup insert bytes_beq Manager.new_domain
    Pool.new_pool Pool.add_connection
proxy_web_socket_connection_internal-releases_example =
    proxy_web_socket_connection_internal-releases (wires (some (codes "broken pipe"))) shop hello
      true two_tunnels.0 two_tunnels.1 (get_web_socket_connection two_tunnels.1 shop).0 visitor
      (line 1 8) 8 (run-Inv two) (λ s. refl) refl refl refl refl

abbrev one_tunnel : State
one_tunnel = run start (adds shop 7 80 websocket 1 2 ∷ [])

abbrev entry : DomainConnections
entry = record {
  domain = shop;
  http_pool = record { domain = shop; target_port = 80; connections = []; round_robin = 0 };
  ws_pool = record {
    domain = shop;
    target_port = 80;
    connections = line 0 7 ∷ [];
    round_robin = 0;
  };
  target_port = 80;
  user_id = 1;
  tunnel_id = 2;
}

abbrev alone : Outcome
alone = proxy_web_socket_connection_internal (wires none) shop hello true one_tunnel visitor

proxy_web_socket_connection_internal-unrecorded_example :
    (alone.usage ≡ []) × ((get_domain_owner alone.state.1 shop).2 ≡ false)
unfolding is_blocked run step start lookup Manager.add_connection Pool.add_connection insert
    bytes_beq Pool.size Manager.new_domain Pool.new_pool
proxy_web_socket_connection_internal-unrecorded_example =
    proxy_web_socket_connection_internal-unrecorded (wires none) shop hello true one_tunnel.0
      one_tunnel.1 entry visitor (line 0 7) 7 (λ s. refl) refl refl refl refl refl

-- The upgrade was answered all the same, and the visitor's connection is closed.
answered_test :
    (alone.client ≡ record {
      sent = response (record { status_code = 101; payload = [] }) ∷ [];
      is_closed = true;
    })
unfolding proxy_web_socket_connection_internal run step start lookup Manager.add_connection
    Pool.add_connection Manager.get_connection Pool.get_connection get_web_socket_pool_size
    Pool.size close_client insert bytes_beq Manager.new_domain Pool.new_pool send
answered_test = refl
