-- ===== src/TcpServer/WebSockets.antt =====
-- ProxyWebSocketConnection and its variant with errors, and RemoveDeadConnection, of
-- internal/tunnel/server.go. Of what reaches the visitor, the replies are kept; the data that is
-- forwarded is counted, and what a failed write has sent in part is left out.
use giraffecloud.Base.{
  ℕ, zero, suc, Bool, true, false, ◌&&◌, Option, none, some, [], ◌++◌, Bytes, codes, ◌==◌, nat_eq,
  bytes_eq, leb, if◌then◌else◌,
}
use giraffecloud.Text.Decimal.{fmt_uint32}
use giraffecloud.Connections.Pool.{TunnelConnection, World, close_socket}
use giraffecloud.Connections.Manager
use giraffecloud.Connections.Manager.{
  ConnectionManager, get_domain_owner, get_web_socket_pool_size, get_web_socket_connection,
  max_web_socket_tunnels_per_domain,
}
use giraffecloud.Connections.Steps.{State}
use giraffecloud.TcpServer.Clients.{
  HttpRequest, HttpResponse, response, ClientConn, send, close_client,
}
use giraffecloud.Usage.Quota.{block}
use giraffecloud.TcpServer.Wires.{
  ReadResult, got, malformed, unread, Wires, Outcome, upgrade_request, error_if, failed, refused,
  is_broken_pipe, recorded,
}

module _ (w : Wires) (domain : Bytes) (request : HttpRequest) (return_error : Bool) where
  -- The copying in both directions.
  unfoldable pub forwarded : State → ClientConn → Outcome
  unfolding recorded
  forwarded s c =
      let s' = w.session s in
      record {
        state = s';
        client = c;
        usage =
            if w.records_usage
            then recorded (get_domain_owner s'.1 domain) domain w.copied_in w.copied_out
            else [];
        error = none;
      }

  -- From the upgrade response on: it goes to the visitor, and the data follows on a status of 101.
  unfoldable pub answered : State → ClientConn → HttpResponse → Outcome
  unfolding forwarded failed error_if fmt_uint32
  answered s c r = elim w.visitor_write_error [
    | some e ↦
        failed s c
          (error_if return_error (codes "failed to write upgrade response to client: " ++ e))
    | none ↦ elim w.visitor_flush_error [
      | some e ↦
          failed s c (error_if return_error (codes "failed to flush upgrade response: " ++ e))
      | none ↦
          if r.status_code == 101
          then forwarded s (send (response r) c)
          else failed s (send (response r) c) (
              error_if return_error
                (codes "WebSocket upgrade failed with status: " ++ fmt_uint32 r.status_code))
    ]
  ]

  unfoldable pub after_read : State → ClientConn → ReadResult → Outcome
  unfolding answered forwarded refused error_if
  after_read s c (got r) = answered s c r
  after_read s c malformed = forwarded s c
  after_read s c (unread e) =
      refused s c 502 (codes "Bad Gateway")
        (error_if return_error (codes "failed to read upgrade response from tunnel: " ++ e))

  unfoldable pub after_write : State → ClientConn → ℕ → Option Bytes → Outcome
  unfolding after_read failed refused error_if
  after_write s c socket none = after_read s c (w.read socket)
  after_write s c socket (some e) =
      let text = codes "failed to write upgrade request to tunnel: " ++ e in
      if is_broken_pipe e
      then failed s c (some text)
      else refused s c 502 (codes "Bad Gateway") (error_if return_error text)

  -- The handshake. A connection that is handed out has a socket.
  unfoldable pub handshake : State → ClientConn → Option ℕ → Outcome
  unfolding after_write failed
  handshake s c none = failed s c none
  handshake s c (some socket) =
      after_write s c socket (w.write_error socket (upgrade_request request))

  -- The deferred Close of the tunnel connection.
  unfoldable pub release : TunnelConnection → Outcome → Outcome
  release tc o = record o { state = (close_socket tc.conn o.state.0, o.state.1) }

  -- From a tunnel connection on: it leaves the pool, and its socket is closed in the end.
  unfoldable pub with_tunnel : State → ClientConn → TunnelConnection → Outcome
  unfolding handshake release
  with_tunnel (world, m) c tc = release tc (
      handshake (Manager.remove_specific_web_socket_connection_without_closing world m domain tc) c
        tc.conn)

  -- The loop that waits for a tunnel: the given count of pauses of 50 ms is left.
  unfoldable pub wait_for_tunnel : ℕ → ℕ → State → State × Option TunnelConnection
  wait_for_tunnel zero waited s = (s, none)
  wait_for_tunnel (suc left) waited s =
      let (world, m) = w.pause waited s in
      let (m', found) = get_web_socket_connection m domain in
      elim found [
        | some tc ↦ ((world, m'), some tc)
        | none ↦ wait_for_tunnel left (suc waited) (world, m')
      ]

  unfoldable pub after_wait : State × Option TunnelConnection → ClientConn → Outcome
  unfolding with_tunnel refused error_if
  after_wait (s, some tc) c = with_tunnel s c tc
  after_wait (s, none) c =
      refused s c 504 (codes "Gateway Timeout - WebSocket tunnel establishment timeout")
        (error_if return_error (codes "timeout waiting for WebSocket tunnel establishment"))

  -- After the callback, by its error. Five seconds are 100 pauses.
  unfoldable pub after_request : State → ClientConn → Option Bytes → Outcome
  unfolding after_wait wait_for_tunnel refused error_if
  after_request s c (some e) =
      refused s c 502 (codes "Bad Gateway - Failed to request WebSocket tunnel")
        (error_if return_error (codes "failed to request WebSocket tunnel: " ++ e))
  after_request s c none = after_wait (wait_for_tunnel 100 0 s) c

  -- No tunnel is free: one is asked for.
  unfoldable pub request_new : State → ClientConn → Option (Bytes → Option Bytes) → Outcome
  unfolding after_request refused error_if
  request_new s c none =
      refused s c 502 (codes "Bad Gateway - WebSocket tunnel not connected")
        (error_if return_error (codes "no WebSocket tunnel connection found"))
  request_new s c (some ask) = after_request s c (ask domain)

  unfoldable pub with_turn :
      World → ClientConn → ConnectionManager × Option TunnelConnection → Outcome
  unfolding with_tunnel request_new
  with_turn world c (m, some tc) = with_tunnel (world, m) c tc
  with_turn world c (m, none) = request_new (world, m) c w.request_tunnel

  -- The quota check: whether the domain's owner is known and blocked.
  unfoldable pub is_blocked : ConnectionManager → Bool
  is_blocked m = elim w.quota [
    | none ↦ false
    | some decide ↦
        let (user, _, ok) = get_domain_owner m domain in
        ok && elim (decide user) [ block ↦ true | _ ↦ false ]
  ]

  unfoldable pub proxied : State → ClientConn → Outcome
  unfolding is_blocked with_turn refused error_if fmt_uint32
  proxied (world, m) c =
      if is_blocked m
      then refused (world, m) c 402 (codes "Quota exceeded")
          (error_if return_error (codes "quota exceeded"))
      else if leb max_web_socket_tunnels_per_domain (get_web_socket_pool_size m domain)
      then refused (world, m) c 503
          (codes "Service Unavailable - Too many concurrent WebSocket connections")
          (error_if return_error (
            codes "WebSocket tunnel limit reached: "
            ++ fmt_uint32 (get_web_socket_pool_size m domain)
            ++ codes "/"
            ++ fmt_uint32 max_web_socket_tunnels_per_domain))
      else with_turn world c (get_web_socket_connection m domain)

  -- The deferred Close of the visitor's connection.
  unfoldable pub proxy_web_socket_connection_internal : State → ClientConn → Outcome
  unfolding proxied
  proxy_web_socket_connection_internal s c =
      let o = proxied s c in record o { client = close_client o.client }

-- RemoveDeadConnection, from the connection that is handed out on.
unfoldable pub removed_dead : Bytes → World → ConnectionManager × Option TunnelConnection → State
removed_dead domain world (m, some ws) =
    Manager.remove_specific_web_socket_connection world m domain ws
removed_dead domain world (m, none) = (world, m)

unfoldable pub remove_dead_connection : Bytes → State → State
unfolding removed_dead
remove_dead_connection domain (world, m) =
    removed_dead domain world (get_web_socket_connection m domain)
