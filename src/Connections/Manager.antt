-- ===== src/Connections/Manager.antt =====
-- internal/tunnel/connection_manager.go, the type ConnectionManager. Each operation runs under the
-- manager's lock; sockets that are handed to it are not nil, as its callers see to.
use giraffecloud.Base.{
  ℕ, suc, ◌+◌, ◌≡◌, refl, Bool, true, false, ◌&&◌, ◌||◌, Option, none, some, List, [], ◌∷◌, Bytes,
  ◌==◌, nat_eq, bytes_eq, ltb, leb, if◌then◌else◌,
}
use giraffecloud.Base.Map.{lookup, insert, delete}
use giraffecloud.Connections.Pool
use giraffecloud.Connections.Pool.{
  TunnelConnection, TunnelConnectionPool, World, Probe, new_pool, close_handle, size,
}

pub data ConnectionType : Type 0 where
  http websocket other : ConnectionType

pub record DomainConnections : Type 0 where
  pub domain : Bytes
  pub http_pool : TunnelConnectionPool
  pub ws_pool : TunnelConnectionPool
  pub target_port : ℕ
  pub user_id : ℕ
  pub tunnel_id : ℕ

abbrev pub ConnectionManager : Type 0
ConnectionManager = List (Bytes × DomainConnections)

abbrev pub max_web_socket_tunnels_per_domain : ℕ
max_web_socket_tunnels_per_domain = 25

unfoldable pub new_domain : Bytes → ℕ → DomainConnections
new_domain domain port = record {
  domain = domain;
  http_pool = new_pool domain port;
  ws_pool = new_pool domain port;
  target_port = port;
  user_id = 0;
  tunnel_id = 0;
}

unfoldable pub get_or_create : Option DomainConnections → Bytes → ℕ → DomainConnections
get_or_create none domain port = new_domain domain port
get_or_create (some dc) domain port = dc

-- An owner that is set stays.
unfoldable pub set_owner : ℕ → ℕ → DomainConnections → DomainConnections
set_owner user tunnel dc = record dc {
  user_id = if dc.user_id == 0 then user else dc.user_id;
  tunnel_id = if dc.tunnel_id == 0 then tunnel else dc.tunnel_id;
}

-- The switch of AddConnection: the socket goes to its pool, or is closed.
unfoldable pub place :
    World
    → DomainConnections
    → ConnectionType
    → ℕ
    → World × DomainConnections × Option TunnelConnection
place w dc http conn =
    let (w', p, tc) = Pool.add_connection w dc.http_pool (some conn) in
    (w', record dc { http_pool = p }, some tc)
place w dc websocket conn =
    let (w', p, tc) = Pool.add_connection w dc.ws_pool (some conn) in
    if leb max_web_socket_tunnels_per_domain (size dc.ws_pool)
    then (close_handle conn w, dc, none)
    else (w', record dc { ws_pool = p }, some tc)
place w dc other conn = (w, dc, none)

unfoldable pub add_connection :
    World
    → ConnectionManager
    → Bytes
    → ℕ
    → ℕ
    → ConnectionType
    → ℕ
    → ℕ
    → World × ConnectionManager × Option TunnelConnection
unfolding place set_owner get_or_create
add_connection w m domain conn port type user tunnel =
    let dc = set_owner user tunnel (get_or_create (lookup domain m) domain port) in
    let (w', dc', tc) = place w dc type conn in (w', insert domain dc' m, tc)

unfoldable pub get_domain_owner : ConnectionManager → Bytes → ℕ × ℕ × Bool
get_domain_owner m domain = elim (lookup domain m) [
  | none ↦ (0, 0, false)
  | some dc ↦ (dc.user_id, dc.tunnel_id, true)
]

abbrev pub is_empty : DomainConnections → Bool
is_empty dc = size dc.http_pool == 0 && size dc.ws_pool == 0

-- The end of the removals: a domain with no connection is closed and forgotten.
unfoldable pub settle :
    World → ConnectionManager → Bytes → DomainConnections → World × ConnectionManager
settle w m domain dc =
    let (w', _) = Pool.close w dc.http_pool in
    let (w'', _) = Pool.close w' dc.ws_pool in
    if is_empty dc then (w'', delete domain m) else (w, insert domain dc m)

-- The switch on the type of the connection has empty cases.
unfoldable pub remove_connection :
    World → ConnectionManager → Bytes → ConnectionType → World × ConnectionManager
unfolding settle
remove_connection w m domain type = elim (lookup domain m) [
  | none ↦ (w, m)
  | some dc ↦ settle w m domain dc
]

unfoldable pub remove_specific_http_connection :
    World → ConnectionManager → Bytes → TunnelConnection → World × ConnectionManager
unfolding settle
remove_specific_http_connection w m domain target = elim (lookup domain m) [
  | none ↦ (w, m)
  | some dc ↦
      let (w', p) = Pool.remove_connection w dc.http_pool target in
      settle w' m domain (record dc { http_pool = p })
]

unfoldable pub remove_specific_web_socket_connection :
    World → ConnectionManager → Bytes → TunnelConnection → World × ConnectionManager
unfolding settle
remove_specific_web_socket_connection w m domain target = elim (lookup domain m) [
  | none ↦ (w, m)
  | some dc ↦
      let (w', p) = Pool.remove_connection w dc.ws_pool target in
      settle w' m domain (record dc { ws_pool = p })
]

unfoldable pub remove_specific_web_socket_connection_without_closing :
    World → ConnectionManager → Bytes → TunnelConnection → World × ConnectionManager
unfolding settle
remove_specific_web_socket_connection_without_closing w m domain target = elim (lookup domain m) [
  | none ↦ (w, m)
  | some dc ↦
      settle w m domain
        (record dc { ws_pool = Pool.remove_connection_without_closing dc.ws_pool target })
]

-- The domain's entry after a round-robin step, and what the step gives.
unfoldable pub take_turn :
    DomainConnections → ConnectionType → DomainConnections × Option TunnelConnection
take_turn dc http =
    let (p, tc, _) = Pool.get_connection dc.http_pool in (record dc { http_pool = p }, tc)
take_turn dc websocket =
    let (p, tc, _) = Pool.get_connection dc.ws_pool in (record dc { ws_pool = p }, tc)
take_turn dc other = (dc, none)

unfoldable pub get_connection :
    ConnectionManager → Bytes → ConnectionType → ConnectionManager × Option TunnelConnection
unfolding take_turn
get_connection m domain type = elim (lookup domain m) [
  | none ↦ (m, none)
  | some dc ↦ let (dc', tc) = take_turn dc type in (insert domain dc' m, tc)
]

abbrev pub get_http_connection :
    ConnectionManager → Bytes → ConnectionManager × Option TunnelConnection
get_http_connection m domain = get_connection m domain http

abbrev pub get_web_socket_connection :
    ConnectionManager → Bytes → ConnectionManager × Option TunnelConnection
get_web_socket_connection m domain = get_connection m domain websocket

unfoldable pub get_http_pool_size : ConnectionManager → Bytes → ℕ
get_http_pool_size m domain = elim (lookup domain m) [ none ↦ 0 | some dc ↦ size dc.http_pool ]

unfoldable pub get_web_socket_pool_size : ConnectionManager → Bytes → ℕ
get_web_socket_pool_size m domain = elim (lookup domain m) [ none ↦ 0 | some dc ↦ size dc.ws_pool ]

unfoldable pub has_domain : ConnectionManager → Bytes → Bool
has_domain m domain = elim (lookup domain m) [
  | none ↦ false
  | some dc ↦ ltb 0 (size dc.http_pool) || ltb 0 (size dc.ws_pool)
]

unfoldable pub has_http_connection : ConnectionManager → Bytes → Bool
has_http_connection m domain = elim (lookup domain m) [
  | none ↦ false
  | some dc ↦ ltb 0 (size dc.http_pool)
]

unfoldable pub has_web_socket_connection : ConnectionManager → Bytes → Bool
has_web_socket_connection m domain = elim (lookup domain m) [
  | none ↦ false
  | some dc ↦ ltb 0 (size dc.ws_pool)
]

unfoldable pub get_all_http_connections : ConnectionManager → Bytes → List TunnelConnection
get_all_http_connections m domain = elim (lookup domain m) [
  | none ↦ []
  | some dc ↦ Pool.get_all_connections dc.http_pool
]

pub record PoolStats : Type 0 where
  pub total_tunnels : ℕ
  pub total_domains : ℕ
  pub max_per_domain : ℕ

unfoldable pub count_pool : ℕ → PoolStats → PoolStats
count_pool n s =
    if ltb 0 n
    then record {
      total_tunnels = s.total_tunnels + n;
      total_domains = suc s.total_domains;
      max_per_domain = if ltb s.max_per_domain n then n else s.max_per_domain;
    }
    else s

unfoldable pub stats_from : PoolStats → ConnectionManager → PoolStats
unfolding count_pool
stats_from s [] = s
stats_from s ((k, dc) ∷ m) = stats_from (count_pool (size dc.ws_pool) s) m

unfoldable pub get_web_socket_pool_stats : ConnectionManager → PoolStats
unfolding stats_from
get_web_socket_pool_stats m =
    stats_from (record { total_tunnels = 0; total_domains = 0; max_per_domain = 0 }) m

-- The statistics name the domains that lost connections.
unfoldable pub cleanup_dead_connections :
    (ℕ → Probe) → World → ConnectionManager → World × ConnectionManager × List (Bytes × ℕ)
cleanup_dead_connections probe w [] = (w, [], [])
cleanup_dead_connections probe w ((k, dc) ∷ m) =
    let (w', p, removed) = Pool.cleanup_dead_connections probe w dc.http_pool in
    let (w'', m', stats) = cleanup_dead_connections probe w' m in
    (
      w'',
      (k, record dc { http_pool = p }) ∷ m',
      if ltb 0 removed then (k, removed) ∷ stats else stats,
    )

unfoldable pub close : World → ConnectionManager → World × ConnectionManager
close w [] = (w, [])
close w ((k, dc) ∷ m) =
    let (w', _) = Pool.close w dc.http_pool in
    let (w'', _) = Pool.close w' dc.ws_pool in close w'' m

-- Each removal does nothing for a domain that is not there.
pub on_entry {ℓ κ} :
    {A : Type ℓ} (P : A → Type κ) (o : Option DomainConnections) {a : A} {f : DomainConnections → A}
    → (o ≡ none → P a)
    → ((dc : DomainConnections) → o ≡ some dc → P (f dc))
    → P (elim o [ none ↦ a | some dc ↦ f dc ])
on_entry P none missing found = missing refl
on_entry P (some dc) missing found = found dc refl
