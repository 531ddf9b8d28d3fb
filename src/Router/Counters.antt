-- ===== src/Router/Counters.antt =====
-- The counters of the hybrid router (internal/tunnel/hybrid_router.go) over any visits.
use giraffecloud.Base.{
  ℕ, ◌+◌, ◌^◌, ◌<◌, ◌≤◌, ◌≡◌, ◌⊎◌, inl, inr, refl, subst, Bool, true, false, Option, none, some,
  List, [], ◌∷◌, Bytes, length, arith, Bool-cases,
}
use giraffecloud.Connections.Steps.{State}
use giraffecloud.Connections.Manager.{has_web_socket_connection}
use giraffecloud.TcpServer.Clients.{HttpRequest}
use giraffecloud.TcpServer.WebSockets.{proxy_web_socket_connection_internal, remove_dead_connection}
use giraffecloud.Router.Requests.{
  HybridRouterConfig, analyze_request, is_web_socket_upgrade, is_timeout_error,
}
use giraffecloud.Router.Routing.{
  Metrics, Visit, Handling, ProxyResult, proxied, refused, fail, count_error, count_total,
  count_grpc, count_tcp, count_timeout, reply, relay, with_request, route_to_grpc_tunnel,
  route_to_grpc_chunked_streaming, resume, retry, recover, is_connection_failure, proxy_web_socket,
  after_wait, upgrade, route_to_tcp_tunnel, dispatch, proxy_connection, bump,
}

pub record Visitor : Type 0 where
  pub visit : Visit
  pub domain : Bytes
  pub request_data : Bytes

-- The handling of a visitor on a new connection.
unfoldable pub visited : HybridRouterConfig → Metrics × State → Visitor → Metrics × State
visited config (m, s) x =
    let h =
      proxy_connection x.visit x.domain config x.request_data
        (record { metrics = m; client = record { sent = []; is_closed = false }; state = s }) in
    (h.metrics, h.state)

-- The router serves the visitors.
unfoldable pub serve : HybridRouterConfig → Metrics × State → List Visitor → Metrics × State
serve config s [] = s
serve config s (x ∷ xs) = serve config (visited config s x) xs

unfoldable pub no_requests : Metrics
no_requests = record {
  total_requests = 0;
  grpc_requests = 0;
  tcp_requests = 0;
  websocket_upgrades = 0;
  routing_errors = 0;
  timeout_errors = 0;
}

-- At most one error is counted, and a timeout only with it.
abbrev Charged : Metrics → Metrics → Type 0
Charged m m' =
    (m'.total_requests ≡ m.total_requests)
    × (m'.grpc_requests ≡ m.grpc_requests)
    × (m'.tcp_requests ≡ m.tcp_requests)
    × (m'.websocket_upgrades ≡ m.websocket_upgrades)
    × (((m'.routing_errors ≡ m.routing_errors) × (m'.timeout_errors ≡ m.timeout_errors))
        ⊎ ((m'.routing_errors ≡ bump m.routing_errors)
            × ((m'.timeout_errors ≡ m.timeout_errors)
                ⊎ (m'.timeout_errors ≡ bump m.timeout_errors))))

abbrev unchanged : {m : Metrics} → Charged m m
unchanged = (refl, refl, refl, refl, inl (refl, refl))

abbrev one_error : {m : Metrics} → Charged m (record m { routing_errors = bump m.routing_errors })
one_error = (refl, refl, refl, refl, inr (refl, inl refl))

relay-Charged : (h : Handling) (p : ProxyResult) → Charged h.metrics (relay h p).metrics
unfolding relay reply count_error count_timeout
relay-Charged h (proxied r) = unchanged
relay-Charged h (refused e) = elim (Bool-cases (is_timeout_error e)) [
  | inl t ↦ rw t (refl, refl, refl, refl, inr (refl, inr refl))
  | inr t ↦ rw t one_error
]

module _ (v : Visit) (domain : Bytes) where
  with_request-Charged :
      (proxy : HttpRequest → ProxyResult) (h : Handling) (o : Option HttpRequest)
      → Charged h.metrics (with_request v domain proxy h o).metrics
  unfolding with_request fail reply count_error
  with_request-Charged proxy h none = one_error
  with_request-Charged proxy h (some request) = relay-Charged h (proxy request)

  retry-Charged :
      (request : HttpRequest) (h : Handling) (r : State × Bool)
      → Charged h.metrics (retry v domain request h r).metrics
  unfolding retry resume fail reply count_error
  retry-Charged request h (s, true) = unchanged
  retry-Charged request h (s, false) = one_error

  abbrev cleaned : Handling → Handling
  cleaned h = record h { state = remove_dead_connection domain h.state }

  recover-Charged :
      (request : HttpRequest) (h : Handling) (e : Option Bytes)
      → Charged h.metrics (recover v domain request h e).metrics
  unfolding recover fail reply count_error
  recover-Charged request h none = unchanged
  recover-Charged request h (some e) = elim (Bool-cases (is_connection_failure v domain e)) [
    | inl c ↦ elim (Bool-cases v.is_still_active) [
      | inl a ↦ rw (c, a) (retry-Charged request (cleaned h) (v.wait_again (cleaned h).state))
      | inr a ↦ rw (c, a) one_error
    ]
    | inr c ↦ rw c one_error
  ]

  proxy_web_socket-Charged :
      (request : HttpRequest) (h : Handling)
      → Charged h.metrics (proxy_web_socket v domain request h).metrics
  unfolding proxy_web_socket resume
  proxy_web_socket-Charged request h =
      let o = proxy_web_socket_connection_internal v.wires domain request true h.state h.client in
      recover-Charged request (resume v domain h o) o.error

  after_wait-Charged :
      (request : HttpRequest) (h : Handling) (r : State × Bool)
      → Charged h.metrics (after_wait v domain request h r).metrics
  unfolding after_wait fail reply count_error
  after_wait-Charged request h (s, true) = proxy_web_socket-Charged request (record h { state = s })
  after_wait-Charged request h (s, false) = one_error

  upgrade-Charged :
      (h : Handling) (o : Option HttpRequest) → Charged h.metrics (upgrade v domain h o).metrics
  unfolding upgrade fail reply count_error
  upgrade-Charged h none = one_error
  upgrade-Charged h (some request) =
      elim (Bool-cases (has_web_socket_connection h.state.1 domain)) [
        | inl c ↦ rw c (proxy_web_socket-Charged request h)
        | inr c ↦ elim (Bool-cases v.is_active) [
          | inl a ↦ rw (c, a) (after_wait-Charged request h (v.wait h.state))
          | inr a ↦ rw (c, a) one_error
        ]
      ]

  grpc-Charged :
      (method : Bytes) (h : Handling)
      → Charged (count_grpc h).metrics (route_to_grpc_tunnel v domain method h).metrics
  unfolding route_to_grpc_tunnel reply
  grpc-Charged method h = elim (Bool-cases v.is_active) [
    | inl a ↦ rw a (with_request-Charged _ (count_grpc h) v.parsed)
    | inr a ↦ rw a unchanged
  ]

  chunked-Charged :
      (h : Handling)
      → Charged (count_grpc h).metrics (route_to_grpc_chunked_streaming v domain h).metrics
  unfolding route_to_grpc_chunked_streaming reply
  chunked-Charged h = elim (Bool-cases v.is_active) [
    | inl a ↦ rw a (with_request-Charged _ (count_grpc h) v.parsed)
    | inr a ↦ rw a unchanged
  ]

  -- Every route counts the visitor as one of its kind, and at most one error.
  dispatch-Charged :
      (b c : Bool) (method : Bytes) (h : Handling)
      → (Charged (count_grpc h).metrics (dispatch v domain b c method h).metrics)
        ⊎ (Charged (count_tcp h).metrics (dispatch v domain b c method h).metrics)
  unfolding dispatch route_to_tcp_tunnel
  dispatch-Charged true true method h = inr (upgrade-Charged (count_tcp h) v.parsed)
  dispatch-Charged true false method h = inl (chunked-Charged h)
  dispatch-Charged false c method h = inl (grpc-Charged method h)

-- The counters after `n` visitors.
pub record Counted (n : ℕ) (m : Metrics) : Type 0 where
  pub total : m.total_requests ≡ n
  pub routed : m.grpc_requests + m.tcp_requests ≡ n
  pub upgrades : m.websocket_upgrades ≡ m.tcp_requests
  pub errors : m.routing_errors ≤ n
  pub timeouts : m.timeout_errors ≤ m.routing_errors

proxy_connection-Counted :
    (v : Visit) (domain : Bytes) (config : HybridRouterConfig) (request : Bytes) (h : Handling)
    (n : ℕ)
    → n + 1 < 2 ^ 64
    → Counted n h.metrics
    → Counted (n + 1) (proxy_connection v domain config request h).metrics
unfolding proxy_connection count_total count_grpc count_tcp
proxy_connection-Counted v domain config request h n bound c = ground (
  arith,
  dispatch-Charged v domain (analyze_request config request).0 (is_web_socket_upgrade request)
      (analyze_request config request).1 (count_total h),
)

visited-Counted :
    (config : HybridRouterConfig) (s : Metrics × State) (x : Visitor) (n : ℕ)
    → n + 1 < 2 ^ 64
    → Counted n s.0
    → Counted (n + 1) (visited config s x).0
unfolding visited
visited-Counted config (m, s) x n bound c =
    proxy_connection-Counted x.visit x.domain config x.request_data _ n bound c

serve-Counted :
    (config : HybridRouterConfig) (xs : List Visitor) (s : Metrics × State) (n : ℕ)
    → n + length xs < 2 ^ 64
    → Counted n s.0
    → Counted (n + length xs) (serve config s xs).0
unfolding serve
serve-Counted config [] s n bound c = subst (λ (k : ℕ). Counted k s.0) (omega arith) c
serve-Counted config (x ∷ xs) s n bound c =
    subst (λ (k : ℕ). Counted k (serve config (visited config s x) xs).0) (omega arith)
      (serve-Counted config xs (visited config s x) (n + 1) (omega arith)
        (visited-Counted config s x n (omega arith) c))

-- After any visitors, fewer than 2 ^ 64 of them, the total is their number; each counts once, for
-- the gRPC tunnel or for the TCP tunnel; the WebSocket upgrades are the requests of the TCP tunnel;
-- there is at most one routing error for each visitor; and the timeouts are among the errors.
pub serve-no_requests :
    (config : HybridRouterConfig) (xs : List Visitor) (s : State)
    → length xs < 2 ^ 64
    → Counted (length xs) (serve config (no_requests, s) xs).0
unfolding no_requests
serve-no_requests config xs s bound =
    subst (λ (k : ℕ). Counted k (serve config (no_requests, s) xs).0) (omega arith)
      (serve-Counted config xs (no_requests, s) 0 (omega arith) (ground arith))
