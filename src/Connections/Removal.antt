-- ===== src/Connections/Removal.antt =====
-- Taking connections out: the removals of internal/tunnel/connection_manager.go.
use giraffecloud.Base.{
  ℕ, ◌==◌, ◌≡◌, refl, sym, ap, ◌∙◌, inl, inr, Bool-cases, both_true, true, none, some, List, [],
  ◌∷◌, length, nat_beq_iff, Bytes, nat_eq, bytes_eq, arith, beq_refl, bytes_beq_iff, ◌≢◌,
}
use giraffecloud.Base.Map.{lookup, insert, delete, All-lookup, lookup-insert, lookup-delete}
use giraffecloud.Connections.Pool
use giraffecloud.Connections.Pool.{
  TunnelConnection, TunnelConnectionPool, World, Probe, sweep, remove_closing, remove_keeping,
  close_all, close_socket, close_handle, size, new_pool, next_index, is_connection_healthy,
}
use giraffecloud.Connections.Manager
use giraffecloud.Connections.Manager.{
  DomainConnections, ConnectionManager, ConnectionType, http, websocket, other, settle, place,
  get_domain_owner, has_domain, get_all_http_connections, get_web_socket_pool_size,
  get_http_pool_size, take_turn, is_empty, on_entry, get_or_create, set_owner, new_domain,
  max_web_socket_tunnels_per_domain,
}
use giraffecloud.Connections.Steps.{State}
use giraffecloud.Connections.Census.{find_at}
use giraffecloud.Connections.Serving.{PoolServes, find-remove_keeping, remove_closing_keeping}
use giraffecloud.Connections.Entries.{IsServing}
use giraffecloud.Connections.Invariant.{Inv}

-- After a removal the domain is known exactly while it has a connection, and other domains stay.
abbrev pub Settled : ConnectionManager → Bytes → ConnectionManager → Type 0
Settled m domain m' =
    ((get_domain_owner m' domain).2 ≡ has_domain m' domain)
    × ((d : Bytes) → domain ≢ d → lookup d m' ≡ lookup d m)

settle-Settled :
    (w : World) (m : ConnectionManager) (domain : Bytes) (dc : DomainConnections)
    → Settled m domain (settle w m domain dc).1
unfolding settle get_domain_owner has_domain
settle-Settled w m domain dc = (
  ground (arith, lookup-insert domain domain dc m, lookup-delete domain domain m, beq_refl domain),
  λ d other.
      ground (
        arith,
        lookup-insert domain d dc m,
        lookup-delete domain d m,
        bytes_beq_iff domain d,
        other,
      ),
)

absent-Settled :
    (m : ConnectionManager) (domain : Bytes) → lookup domain m ≡ none → Settled m domain m
unfolding get_domain_owner has_domain
absent-Settled m domain e = (ground arith, λ d _. refl)

abbrev pub ws_connections : ConnectionManager → Bytes → List TunnelConnection
ws_connections m domain = elim (lookup domain m) [ none ↦ [] | some dc ↦ dc.ws_pool.connections ]

nil_of_length : (tcs : List TunnelConnection) → (length tcs == 0) ≡ true → tcs ≡ []
nil_of_length [] h = refl
nil_of_length (tc ∷ tcs) h = absurd (omega (arith, (nat_beq_iff (length (tc ∷ tcs)) 0).0 h))

-- The pools of a domain, by its entry.
abbrev pub Pools :
    ConnectionManager → Bytes → List TunnelConnection → List TunnelConnection → Type 0
Pools m domain https wss =
    (get_all_http_connections m domain ≡ https) × (ws_connections m domain ≡ wss)

pub absent-Pools :
    (m : ConnectionManager) (domain : Bytes) → lookup domain m ≡ none → Pools m domain [] []
unfolding get_all_http_connections
absent-Pools m domain e = (ground (arith, e), ground (arith, e))

pub found-Pools :
    (m : ConnectionManager) (domain : Bytes) (dc : DomainConnections)
    → lookup domain m ≡ some dc
    → Pools m domain dc.http_pool.connections dc.ws_pool.connections
unfolding get_all_http_connections Pool.get_all_connections
found-Pools m domain dc e = (ground (arith, e), ground (arith, e))

-- What is forgotten had no connection, so that the pools are those of the entry.
settle-Pools :
    (w : World) (m : ConnectionManager) (domain : Bytes) (dc : DomainConnections)
    → Pools (settle w m domain dc).1 domain dc.http_pool.connections dc.ws_pool.connections
unfolding settle size
settle-Pools w m domain dc = elim (Bool-cases (is_empty dc)) [
  | inl empty ↦
      let (no_http, no_ws) = both_true _ _ empty in
      let (https, wss) =
        absent-Pools (delete domain m) domain
          (ground (arith, lookup-delete domain domain m, beq_refl domain)) in
      rw empty (https ∙ sym (nil_of_length _ no_http), wss ∙ sym (nil_of_length _ no_ws))
  | inr full ↦ rw full (
      found-Pools (insert domain dc m) domain dc
        (ground (arith, lookup-insert domain domain dc m, beq_refl domain)))
]

find-other :
    (a b : ℕ) (tcs : List TunnelConnection)
    → a ≢ b
    → find_at b (remove_keeping a tcs) ≡ find_at b tcs
unfolding remove_keeping find_at
find-other a b [] apart = refl
find-other a b (tc ∷ tcs) apart = ground (arith, find-other a b tcs apart, apart)

-- The removal of the HTTP connection at an address, and of nothing else.
abbrev pub Removed : ConnectionManager → Bytes → ℕ → ConnectionManager → Type 0
Removed m domain a m' =
    (find_at a (get_all_http_connections m' domain) ≡ [])
    × ((b : ℕ)
        → a ≢ b
        → find_at b (get_all_http_connections m' domain)
          ≡ find_at b (get_all_http_connections m domain))
    × (ws_connections m' domain ≡ ws_connections m domain)

absent-Removed :
    (m : ConnectionManager) (domain : Bytes) (a : ℕ) → lookup domain m ≡ none → Removed m domain a m
unfolding get_all_http_connections find_at
absent-Removed m domain a e = (ground arith, λ b apart. refl, refl)

settle-Removed :
    (w : World) (m : ConnectionManager) (domain : Bytes) (dc : DomainConnections) (a next : ℕ)
    (p : TunnelConnectionPool)
    → lookup domain m ≡ some dc
    → PoolServes domain dc.target_port next dc.http_pool
    → p.connections ≡ remove_keeping a dc.http_pool.connections
    → Removed m domain a (settle w m domain (record dc { http_pool = p })).1
settle-Removed w m domain dc a next p e s kept =
    let (https, wss) = settle-Pools w m domain (record dc { http_pool = p }) in
    let (before, ws_before) = found-Pools m domain dc e in
    (
      ap (find_at a) (https ∙ kept)
          ∙ find-remove_keeping domain dc.target_port a 0 next dc.http_pool.connections
              s.connections,
      λ b apart.
          ap (find_at b) (https ∙ kept)
          ∙ find-other a b dc.http_pool.connections apart
          ∙ sym (ap (find_at b) before),
      wss ∙ sym ws_before,
    )

-- In a manager that is in order, removing an HTTP connection leaves none at its address in the
-- domain's pool, keeps the connection at every other address and all WebSocket connections of the
-- domain, leaves the domain known exactly while it has a connection of either type, and leaves the
-- entries of other domains as they were.
pub remove_specific_http_connection-gone :
    (w : World) (m : ConnectionManager) (domain : Bytes) (tc : TunnelConnection)
    → Inv (w, m)
    → Removed m domain tc.address (Manager.remove_specific_http_connection w m domain tc).1
      × Settled m domain (Manager.remove_specific_http_connection w m domain tc).1
unfolding Manager.remove_specific_http_connection Pool.remove_connection
remove_specific_http_connection-gone w m domain tc v =
    on_entry (λ (s : State). Removed m domain tc.address s.1 × Settled m domain s.1)
      (lookup domain m) (λ e. (absent-Removed m domain tc.address e, absent-Settled m domain e))
      λ dc e.
        let s = All-lookup (IsServing w.next_address) domain m v.serving e in
        (
          settle-Removed _ m domain dc tc.address w.next_address _ e s.http_pool
              (remove_closing_keeping tc.address w dc.http_pool.connections),
          settle-Settled _ m domain _,
        )
