-- ===== src/Connections/Entries.antt =====
-- What the operations of ConnectionManager (internal/tunnel/connection_manager.go) do to the entry
-- of one domain.
use giraffecloud.Base.{
  ℕ, ◌≤◌, ◌≡◌, refl, ◌∙◌, length-append, Option, none, some, [], ◌∷◌, Bytes, nat_eq, bytes_eq,
  arith, All, inl, inr, leb, Bool-cases,
}
use giraffecloud.Base.Map.{All-insert, All-delete}
use giraffecloud.Connections.Pool
use giraffecloud.Connections.Pool.{
  TunnelConnection, TunnelConnectionPool, World, Probe, sweep, remove_closing, remove_keeping,
  close_all, close_socket, close_handle, size, new_pool, next_index,
}
use giraffecloud.Connections.Manager
use giraffecloud.Connections.Manager.{
  DomainConnections, ConnectionManager, ConnectionType, http, websocket, other, settle, place,
  take_turn, on_entry, get_or_create, set_owner, new_domain, max_web_socket_tunnels_per_domain,
}
use giraffecloud.Connections.Steps.{State}
use giraffecloud.Connections.Serving.{
  PoolServes, PoolServes-mono, new_pool-PoolServes, add-PoolServes, Serves-sweep, sweep-next,
  close_all-next, get_connection-PoolServes, keeping-PoolServes, length-remove_keeping-le,
  size-get_connection,
}

-- An entry of the map is in order, below the next free address.
pub record IsServing (next : ℕ) (b : Bytes × DomainConnections) : Type 0 where
  pub domain : b.1.domain ≡ b.0
  pub http_pool : PoolServes b.0 b.1.target_port next b.1.http_pool
  pub ws_pool : PoolServes b.0 b.1.target_port next b.1.ws_pool
  pub limit : size b.1.ws_pool ≤ max_web_socket_tunnels_per_domain

pub IsServing-mono :
    (next next' : ℕ) (b : Bytes × DomainConnections)
    → next ≤ next'
    → IsServing next b
    → IsServing next' b
IsServing-mono next next' b h s = record {
  domain = s.domain;
  http_pool = PoolServes-mono next' h s.http_pool;
  ws_pool = PoolServes-mono next' h s.ws_pool;
  limit = s.limit;
}

abbrev pub Kept : ℕ → State → Type 0
Kept next s = (s.0.next_address ≡ next) × All (IsServing next) s.1

pub settle-Kept :
    (next : ℕ) (w : World) (m : ConnectionManager) (k : Bytes) (dc : DomainConnections)
    → w.next_address ≡ next
    → All (IsServing next) m
    → IsServing next (k, dc)
    → Kept next (settle w m k dc)
unfolding settle Pool.close
settle-Kept next w m k dc e h s = ground (
  arith,
  close_all-next w dc.http_pool.connections,
  close_all-next (close_all w dc.http_pool.connections) dc.ws_pool.connections,
  All-delete (IsServing next) k m h,
  All-insert (IsServing next) k dc m s h,
)

pub owned-IsServing :
    (next : ℕ) (o : Option DomainConnections) (k : Bytes) (port user tunnel : ℕ)
    → ((dc : DomainConnections) → o ≡ some dc → IsServing next (k, dc))
    → IsServing next (k, set_owner user tunnel (get_or_create o k port))
unfolding set_owner get_or_create new_domain size new_pool
owned-IsServing next none k port user tunnel h = record {
  domain = refl;
  http_pool = new_pool-PoolServes;
  ws_pool = new_pool-PoolServes;
  limit = omega arith;
}
owned-IsServing next (some dc) k port user tunnel h =
    let s = h dc refl in
    record { domain = s.domain; http_pool = s.http_pool; ws_pool = s.ws_pool; limit = s.limit }

-- `place` allocates at most one address.
abbrev Placed : ℕ → Bytes → World × DomainConnections × Option TunnelConnection → Type 0
Placed next k r = (next ≤ r.0.next_address) × IsServing r.0.next_address (k, r.1)

pub place-Placed :
    (w : World) (k : Bytes) (dc : DomainConnections) (type : ConnectionType) (conn : ℕ)
    → IsServing w.next_address (k, dc)
    → Placed w.next_address k (place w dc type conn)
unfolding place Pool.add_connection close_handle size
place-Placed w k dc http conn s = (
  omega arith,
  record {
    domain = s.domain;
    http_pool = add-PoolServes w (some conn) refl s.http_pool;
    ws_pool = PoolServes-mono _ (omega arith) s.ws_pool;
    limit = s.limit;
  },
)
place-Placed w k dc websocket conn s =
    elim (Bool-cases (leb max_web_socket_tunnels_per_domain (size dc.ws_pool))) [
      | inl full ↦ rw full (omega arith, s)
      | inr room ↦ rw room (
        omega arith,
        record {
          domain = s.domain;
          http_pool = PoolServes-mono _ (omega arith) s.http_pool;
          ws_pool = add-PoolServes w (some conn) refl s.ws_pool;
          limit = ground (
            arith,
            length-append dc.ws_pool.connections (
                Pool.new_tunnel_connection w dc.ws_pool.domain (some conn) dc.ws_pool.target_port
                ∷ []),
          );
        },
      )
    ]
place-Placed w k dc other conn s = (omega arith, s)

pub take_turn-IsServing :
    (next : ℕ) (k : Bytes) (dc : DomainConnections) (type : ConnectionType)
    → IsServing next (k, dc)
    → IsServing next (k, (take_turn dc type).0)
unfolding take_turn
take_turn-IsServing next k dc http s = record {
  domain = s.domain;
  http_pool = get_connection-PoolServes dc.http_pool s.http_pool;
  ws_pool = s.ws_pool;
  limit = s.limit;
}
take_turn-IsServing next k dc websocket s = record {
  domain = s.domain;
  http_pool = s.http_pool;
  ws_pool = get_connection-PoolServes dc.ws_pool s.ws_pool;
  limit = omega (arith, s.limit, size-get_connection dc.ws_pool);
}
take_turn-IsServing next k dc other s = s

pub cleanup-Kept :
    (next : ℕ) (probe : ℕ → Probe) (w : World) (m : ConnectionManager)
    → w.next_address ≡ next
    → All (IsServing next) m
    → Kept next (let (w', m', _) = Manager.cleanup_dead_connections probe w m in (w', m'))
unfolding Manager.cleanup_dead_connections Pool.cleanup_dead_connections
cleanup-Kept next probe w [] e h = (e, tt)
cleanup-Kept next probe w ((k, dc) ∷ m) e (s, h) =
    let w' = (sweep probe w dc.http_pool.connections).0 in
    let (e', h') =
      cleanup-Kept next probe w' m (sweep-next probe w dc.http_pool.connections ∙ e) h in
    (
      e',
      (
        record {
          domain = s.domain;
          http_pool = record {
            domain = s.http_pool.domain;
            target_port = s.http_pool.target_port;
            connections =
                Serves-sweep k dc.target_port probe w 0 next dc.http_pool.connections
                  s.http_pool.connections;
          };
          ws_pool = s.ws_pool;
          limit = s.limit;
        },
        h',
      ),
    )

close-next :
    (w : World) (m : ConnectionManager) → (Manager.close w m).0.next_address ≡ w.next_address
unfolding Manager.close Pool.close
close-next w [] = refl
close-next w ((k, dc) ∷ m) =
    let w' = close_all w dc.http_pool.connections in
    let w'' = close_all w' dc.ws_pool.connections in
    close-next w'' m
    ∙ close_all-next w' dc.ws_pool.connections
    ∙ close_all-next w dc.http_pool.connections

-- An entry from whose pools the connection at an address went.
pub keeping-IsServing_http :
    (next a : ℕ) (k : Bytes) (dc : DomainConnections)
    → IsServing next (k, dc)
    → IsServing next (
      k,
      record dc {
        http_pool = record dc.http_pool { connections = remove_keeping a dc.http_pool.connections };
      },
    )
keeping-IsServing_http next a k dc s = record {
  domain = s.domain;
  http_pool = keeping-PoolServes a dc.http_pool s.http_pool;
  ws_pool = s.ws_pool;
  limit = s.limit;
}

pub keeping-IsServing_ws :
    (next a : ℕ) (k : Bytes) (dc : DomainConnections)
    → IsServing next (k, dc)
    → IsServing next (
      k,
      record dc {
        ws_pool = record dc.ws_pool { connections = remove_keeping a dc.ws_pool.connections };
      },
    )
unfolding size
keeping-IsServing_ws next a k dc s = record {
  domain = s.domain;
  http_pool = s.http_pool;
  ws_pool = keeping-PoolServes a dc.ws_pool s.ws_pool;
  limit = omega (arith, s.limit, length-remove_keeping-le a dc.ws_pool.connections);
}
