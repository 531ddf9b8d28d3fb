-- ===== src/Router/Routing.antt =====
-- ProxyConnection and the three routes of internal/tunnel/hybrid_router.go. Each handles one
-- visitor; the counters are atomic, so that the handlers of several visitors add up.
use giraffecloud.Base.{
  ℕ, ◌+◌, ◌%◌, ◌^◌, Bool, true, false, ◌&&◌, ◌||◌, Option, none, some, ◌++◌, Bytes, codes, ◌==◌,
  bytes_eq, leb, map, if◌then◌else◌,
}
use giraffecloud.Text.{contains}
use giraffecloud.Connections.Steps.{State}
use giraffecloud.Connections.Manager.{has_web_socket_connection}
use giraffecloud.TcpServer.Clients.{
  HttpRequest, HttpResponse, Reply, router_error, not_connected, response, ClientConn, send,
  close_client,
}
use giraffecloud.TcpServer.Wires.{Wires, Outcome}
use giraffecloud.TcpServer.WebSockets.{proxy_web_socket_connection_internal, remove_dead_connection}
use giraffecloud.Router.Requests.{
  HybridRouterConfig, ProxyError, analyze_request, is_web_socket_upgrade, is_timeout_error,
}

-- The counters of HybridTunnelRouter.
pub record Metrics : Type 0 where
  pub total_requests : ℕ
  pub grpc_requests : ℕ
  pub tcp_requests : ℕ
  pub websocket_upgrades : ℕ
  pub routing_errors : ℕ
  pub timeout_errors : ℕ

-- atomic.AddInt64(&n, 1)
abbrev pub bump : ℕ → ℕ
bump n = (n + 1) % 2 ^ 64

-- What a proxy call through the gRPC tunnel gives.
pub data ProxyResult : Type 0 where
  proxied : HttpResponse → ProxyResult
  refused : ProxyError → ProxyResult

-- The rest of the world during the handling of a visitor: the answers of the two calls of
-- IsTunnelActive, the request that http.ReadRequest parses, the proxy calls of the gRPC server, the
-- two waits for a TCP tunnel with what they do to the connections, and the wires of the two proxy
-- calls of the TCP server.
pub record Visit : Type 0 where
  pub is_active : Bool
  pub is_still_active : Bool
  pub parsed : Option HttpRequest
  pub proxy_http_request : HttpRequest → ProxyResult
  pub proxy_http_request_with_chunking : HttpRequest → ProxyResult
  pub wait : State → State × Bool
  pub wait_again : State → State × Bool
  pub wires : Wires
  pub wires_again : Wires

-- The state of a handler: the counters, the visitor and the connections of the TCP server.
pub record Handling : Type 0 where
  pub metrics : Metrics
  pub client : ClientConn
  pub state : State

unfoldable pub count_total : Handling → Handling
count_total h =
    let m = h.metrics in record h { metrics = record m { total_requests = bump m.total_requests } }

unfoldable pub count_grpc : Handling → Handling
count_grpc h =
    let m = h.metrics in record h { metrics = record m { grpc_requests = bump m.grpc_requests } }

unfoldable pub count_tcp : Handling → Handling
count_tcp h =
    let m = h.metrics in
    record h {
      metrics = record m {
        tcp_requests = bump m.tcp_requests;
        websocket_upgrades = bump m.websocket_upgrades;
      };
    }

unfoldable pub count_error : Handling → Handling
count_error h =
    let m = h.metrics in record h { metrics = record m { routing_errors = bump m.routing_errors } }

unfoldable pub count_timeout : Bool → Handling → Handling
count_timeout timed_out h =
    let m = h.metrics in
    if timed_out
    then record h { metrics = record m { timeout_errors = bump m.timeout_errors } }
    else h

unfoldable pub reply : Reply → Handling → Handling
reply r h = record h { client = send r h.client }

-- A counted error that is written to the visitor.
unfoldable pub fail : ℕ → Bytes → Handling → Handling
unfolding count_error reply
fail code message h = reply (router_error code message) (count_error h)

-- strings.ToUpper on a byte of ASCII.
abbrev pub upper_byte : ℕ → ℕ
upper_byte c = if leb b'a' c && leb c b'z' then (c + 224) % 256 else c

-- The methods whose bodies are streamed.
unfoldable pub is_upload : Bytes → Bool
is_upload method =
    let upper = map upper_byte method in
    upper == codes "POST" || upper == codes "PUT" || upper == codes "PATCH"

-- What the two gRPC routes make of the answer of the gRPC server.
unfoldable pub relay : Handling → ProxyResult → Handling
unfolding reply fail count_timeout
relay h (proxied r) = reply (response r) h
relay h (refused e) =
    reply (router_error 502 (codes "Bad Gateway - " ++ e.text))
      (count_timeout (is_timeout_error e) (count_error h))

module _ (v : Visit) (domain : Bytes) where
  -- The common part of the two gRPC routes.
  unfoldable pub with_request :
      (HttpRequest → ProxyResult) → Handling → Option HttpRequest → Handling
  unfolding relay fail
  with_request proxy h (some request) = relay h (proxy request)
  with_request proxy h none = fail 400 (codes "Bad Request - Invalid HTTP request") h

  unfoldable pub route_to_grpc_tunnel : Bytes → Handling → Handling
  unfolding with_request count_grpc reply
  route_to_grpc_tunnel method h =
      if v.is_active
      then with_request
          (if is_upload method then v.proxy_http_request_with_chunking else v.proxy_http_request)
          (count_grpc h) v.parsed
      else reply (not_connected domain) (count_grpc h)

  unfoldable pub route_to_grpc_chunked_streaming : Handling → Handling
  unfolding with_request count_grpc reply
  route_to_grpc_chunked_streaming h =
      if v.is_active
      then with_request v.proxy_http_request_with_chunking (count_grpc h) v.parsed
      else reply (not_connected domain) (count_grpc h)

  -- The end of a proxy call of the TCP server.
  unfoldable pub resume : Handling → Outcome → Handling
  resume h o = record h { client = o.client; state = o.state }

  -- The second attempt: after the wait, with its result.
  unfoldable pub retry : HttpRequest → Handling → State × Bool → Handling
  unfolding resume fail
  retry request h (s, true) =
      resume h (proxy_web_socket_connection_internal v.wires_again domain request false s h.client)
  retry request h (s, false) =
      fail 502 (codes "Bad Gateway - TCP tunnel re-establishment failed") (record h { state = s })

  unfoldable pub is_connection_failure : Bytes → Bool
  unfolding contains
  is_connection_failure err =
      contains err (codes "broken pipe") || contains err (codes "connection")

  -- What follows the first proxy call, by its error.
  unfoldable pub recover : HttpRequest → Handling → Option Bytes → Handling
  unfolding retry fail remove_dead_connection is_connection_failure
  recover request h none = h
  recover request h (some e) =
      if is_connection_failure e
      then (let cleaned : Handling = record h { state = remove_dead_connection domain h.state } in
          if v.is_still_active
          then retry request cleaned (v.wait_again cleaned.state)
          else fail 503 (codes "Service Unavailable - Tunnel offline") cleaned)
      else fail 500 (codes "Internal Server Error - WebSocket proxy failed") h

  unfoldable pub proxy_web_socket : HttpRequest → Handling → Handling
  unfolding recover resume
  proxy_web_socket request h =
      let o = proxy_web_socket_connection_internal v.wires domain request true h.state h.client in
      recover request (resume h o) o.error

  unfoldable pub after_wait : HttpRequest → Handling → State × Bool → Handling
  unfolding proxy_web_socket fail
  after_wait request h (s, true) = proxy_web_socket request (record h { state = s })
  after_wait request h (s, false) =
      fail 502 (codes "Bad Gateway - TCP tunnel establishment timeout") (record h { state = s })

  unfoldable pub upgrade : Handling → Option HttpRequest → Handling
  unfolding after_wait proxy_web_socket fail reply count_error has_web_socket_connection
  upgrade h none = fail 400 (codes "Bad Request - Invalid WebSocket request") h
  upgrade h (some request) =
      if has_web_socket_connection h.state.1 domain
      then proxy_web_socket request h
      else if v.is_active
      then after_wait request h (v.wait h.state)
      else reply (not_connected domain) (count_error h)

  unfoldable pub route_to_tcp_tunnel : Handling → Handling
  unfolding upgrade count_tcp
  route_to_tcp_tunnel h = upgrade (count_tcp h) v.parsed

  unfoldable pub dispatch : Bool → Bool → Bytes → Handling → Handling
  unfolding route_to_grpc_tunnel route_to_grpc_chunked_streaming route_to_tcp_tunnel
  dispatch should_use_tcp is_actual_web_socket method h =
      if should_use_tcp
      then if is_actual_web_socket then route_to_tcp_tunnel h else route_to_grpc_chunked_streaming h
      else route_to_grpc_tunnel method h

  -- ProxyConnection, with the deferred Close of the visitor's connection.
  unfoldable pub proxy_connection : HybridRouterConfig → Bytes → Handling → Handling
  unfolding dispatch count_total analyze_request is_web_socket_upgrade
  proxy_connection config request_data h =
      let (should_use_tcp, method, path) = analyze_request config request_data in
      let done =
        dispatch should_use_tcp (is_web_socket_upgrade request_data) method (count_total h) in
      record done { client = close_client done.client }
