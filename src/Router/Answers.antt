-- ===== src/Router/Answers.antt =====
-- What a visitor of the hybrid router (internal/tunnel/hybrid_router.go) is sent.
use giraffecloud.Base.{
  ◌≤◌, ◌≡◌, refl, ap, ◌∙◌, inl, inr, Bool, true, false, Option, none, some, [], Bytes, length,
  arith, Bool-cases,
}
use giraffecloud.Connections.Steps.{State}
use giraffecloud.Connections.Manager.{has_web_socket_connection}
use giraffecloud.TcpServer.Clients.{HttpRequest, Reply, ClientConn, send, close_client}
use giraffecloud.TcpServer.Wires.{Outcome}
use giraffecloud.TcpServer.WebSockets.{proxy_web_socket_connection_internal, remove_dead_connection}
use giraffecloud.TcpServer.Replies.{
  Answered, send_closed, proxy_web_socket_connection_internal-Answered,
  proxy_web_socket_connection_internal-closed,
}
use giraffecloud.Router.Requests.{HybridRouterConfig, analyze_request, is_web_socket_upgrade}
use giraffecloud.Router.Routing.{
  Visit, Handling, ProxyResult, proxied, refused, fail, count_error, count_total, count_grpc,
  count_tcp, count_timeout, reply, relay, with_request, route_to_grpc_tunnel,
  route_to_grpc_chunked_streaming, resume, retry, recover, is_connection_failure, proxy_web_socket,
  after_wait, upgrade, route_to_tcp_tunnel, dispatch, proxy_connection,
}

-- The second connection, once it is closed, is the first one closed after at most one reply.
abbrev Reached : ClientConn → ClientConn → Type 0
Reached c e = (d : ClientConn) × Answered c d × (close_client e ≡ close_client d)

abbrev silent : {c : ClientConn} → Reached c c
silent {c} = (c, inl refl, refl)

abbrev one : {c : ClientConn} (r : Reply) → Reached c (send r c)
one {c} r = (send r c, inr (r, refl), refl)

close_twice : (c : ClientConn) → close_client (close_client c) ≡ close_client c
unfolding close_client
close_twice c = refl

is_closed-close_client : (c : ClientConn) → (close_client c).is_closed ≡ true
unfolding close_client
is_closed-close_client c = refl

count_timeout-client : (b : Bool) (h : Handling) → (count_timeout b h).client ≡ h.client
unfolding count_timeout
count_timeout-client true h = refl
count_timeout-client false h = refl

module _ (v : Visit) (domain : Bytes) where
  retry-closed :
      (request : HttpRequest) (h : Handling) (r : State × Bool)
      → h.client.is_closed ≡ true
      → (retry v domain request h r).client ≡ h.client
  unfolding retry resume fail reply count_error
  retry-closed request h (s, true) c =
      proxy_web_socket_connection_internal-closed v.wires_again domain request false s h.client c
  retry-closed request h (s, false) c = send_closed _ h.client c

  abbrev cleaned : Handling → Handling
  cleaned h = record h { state = remove_dead_connection domain h.state }

  recover-closed :
      (request : HttpRequest) (h : Handling) (e : Option Bytes)
      → h.client.is_closed ≡ true
      → (recover v domain request h e).client ≡ h.client
  unfolding recover fail reply count_error
  recover-closed request h none c = refl
  recover-closed request h (some e) c = elim (Bool-cases (is_connection_failure v domain e)) [
    | inl f ↦ elim (Bool-cases v.is_still_active) [
      | inl a ↦ rw (f, a) (retry-closed request (cleaned h) (v.wait_again (cleaned h).state) c)
      | inr a ↦ rw (f, a) (send_closed _ h.client c)
    ]
    | inr f ↦ rw f (send_closed _ h.client c)
  ]

  -- Once the TCP server has been asked to proxy an upgrade, the visitor's connection is as that
  -- call left it, closed: neither the router's own errors nor the retry after a new tunnel was
  -- established reach the visitor.
  pub proxy_web_socket-client :
      (request : HttpRequest) (h : Handling)
      → ((proxy_web_socket v domain request h).client
          ≡ (proxy_web_socket_connection_internal v.wires domain request true h.state
              h.client).client)
        × ((proxy_web_socket v domain request h).client.is_closed ≡ true)
  unfolding proxy_web_socket resume
  proxy_web_socket-client request h = (same, ap (λ (c : ClientConn). c.is_closed) same ∙ shut)
    where
      o : Outcome
      o = proxy_web_socket_connection_internal v.wires domain request true h.state h.client

      shut : o.client.is_closed ≡ true
      shut =
          let (d, a, e) =
            proxy_web_socket_connection_internal-Answered v.wires domain request true h.state
              h.client in
          ap (λ (c : ClientConn). c.is_closed) e ∙ is_closed-close_client d

      same : (proxy_web_socket v domain request h).client ≡ o.client
      same = recover-closed request (resume v domain h o) o.error shut

  relay-Reached : (h : Handling) (p : ProxyResult) → Reached h.client (relay h p).client
  unfolding relay reply count_error
  relay-Reached h (proxied r) = one _
  relay-Reached h (refused e) = rw count_timeout-client (one _)

  with_request-Reached :
      (proxy : HttpRequest → ProxyResult) (h : Handling) (o : Option HttpRequest)
      → Reached h.client (with_request v domain proxy h o).client
  unfolding with_request fail reply count_error
  with_request-Reached proxy h none = one _
  with_request-Reached proxy h (some request) = relay-Reached h (proxy request)

  proxy_web_socket-Reached :
      (request : HttpRequest) (h : Handling)
      → Reached h.client (proxy_web_socket v domain request h).client
  proxy_web_socket-Reached request h =
      let (d, a, e) =
        proxy_web_socket_connection_internal-Answered v.wires domain request true h.state
          h.client in
      (d, a, ap close_client ((proxy_web_socket-client request h).0 ∙ e) ∙ close_twice d)

  after_wait-Reached :
      (request : HttpRequest) (h : Handling) (r : State × Bool)
      → Reached h.client (after_wait v domain request h r).client
  unfolding after_wait fail reply count_error
  after_wait-Reached request h (s, true) = proxy_web_socket-Reached request (record h { state = s })
  after_wait-Reached request h (s, false) = one _

  upgrade-Reached :
      (h : Handling) (o : Option HttpRequest) → Reached h.client (upgrade v domain h o).client
  unfolding upgrade fail reply count_error
  upgrade-Reached h none = one _
  upgrade-Reached h (some request) =
      elim (Bool-cases (has_web_socket_connection h.state.1 domain)) [
        | inl c ↦ rw c (proxy_web_socket-Reached request h)
        | inr c ↦ elim (Bool-cases v.is_active) [
          | inl a ↦ rw (c, a) (after_wait-Reached request h (v.wait h.state))
          | inr a ↦ rw (c, a) (one _)
        ]
      ]

  dispatch-Reached :
      (b c : Bool) (method : Bytes) (h : Handling)
      → Reached h.client (dispatch v domain b c method h).client
  unfolding dispatch route_to_tcp_tunnel route_to_grpc_chunked_streaming route_to_grpc_tunnel reply
      count_grpc count_tcp
  dispatch-Reached true true method h = upgrade-Reached (count_tcp h) v.parsed
  dispatch-Reached true false method h = elim (Bool-cases v.is_active) [
    | inl a ↦ rw a (with_request-Reached _ (count_grpc h) v.parsed)
    | inr a ↦ rw a (one _)
  ]
  dispatch-Reached false c method h = elim (Bool-cases v.is_active) [
    | inl a ↦ rw a (with_request-Reached _ (count_grpc h) v.parsed)
    | inr a ↦ rw a (one _)
  ]

  one_reply : (c d : ClientConn) → c.sent ≡ [] → Answered c d → length (close_client d).sent ≤ 1
  unfolding close_client send
  one_reply c d h a = ground (arith, h, a)

  -- Whatever the request, the tunnels and the errors, ProxyConnection closes the visitor's
  -- connection after at most one reply, if nothing was sent on it before.
  pub proxy_connection-one_reply :
      (config : HybridRouterConfig) (request : Bytes) (h : Handling)
      → h.client.sent ≡ []
      → (length (proxy_connection v domain config request h).client.sent ≤ 1)
        × ((proxy_connection v domain config request h).client.is_closed ≡ true)
  unfolding proxy_connection count_total
  proxy_connection-one_reply config request h fresh =
      let (d, a, e) =
        dispatch-Reached (analyze_request config request).0 (is_web_socket_upgrade request)
          (analyze_request config request).1 (count_total h) in
      (rw e (one_reply h.client d fresh a), is_closed-close_client _)
