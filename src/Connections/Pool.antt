-- ===== src/Connections/Pool.antt =====
-- internal/tunnel/connection_manager.go, the type TunnelConnectionPool, and TunnelConnection of
-- internal/tunnel/types.go. A pointer to a connection is its address, a socket its handle.
use giraffecloud.Base.{
  ℕ, suc, ◌+◌, ◌%◌, ◌^◌, Bool, true, false, Option, none, some, List, [], ◌∷◌, ◌++◌, Bytes, ◌==◌,
  nat_eq, length, get_elem?, if◌then◌else◌,
}

pub record TunnelConnection : Type 0 where
  pub address : ℕ
  pub conn : Option ℕ
  pub domain : Bytes
  pub target_port : ℕ
  pub request_count : ℕ
  pub created_at : ℕ

-- What the pools share with the runtime: the next free address, the handles on which Close was
-- called, newest first, and the clock.
pub record World : Type 0 where
  pub next_address : ℕ
  pub closed : List ℕ
  pub now : ℕ

pub record TunnelConnectionPool : Type 0 where
  pub domain : Bytes
  pub target_port : ℕ
  pub connections : List TunnelConnection
  pub round_robin : ℕ

-- What one read with a deadline of a millisecond gives.
pub data Probe : Type 0 where
  timeout got_byte failed : Probe

unfoldable pub new_tunnel_connection : World → Bytes → Option ℕ → ℕ → TunnelConnection
new_tunnel_connection w domain conn port = record {
  address = w.next_address;
  conn = conn;
  domain = domain;
  target_port = port;
  request_count = 0;
  created_at = w.now;
}

-- net.Conn.Close on a handle, and TunnelConnection.Close, which skips a nil socket.
unfoldable pub close_handle : ℕ → World → World
close_handle h w = record w { closed = h ∷ w.closed }

unfoldable pub close_socket : Option ℕ → World → World
unfolding close_handle
close_socket none w = w
close_socket (some h) w = close_handle h w

unfoldable pub increment_request_count : TunnelConnection → TunnelConnection
increment_request_count tc = record tc { request_count = suc tc.request_count }

unfoldable pub new_pool : Bytes → ℕ → TunnelConnectionPool
new_pool domain port = record {
  domain = domain;
  target_port = port;
  connections = [];
  round_robin = 0;
}

unfoldable pub add_connection :
    World → TunnelConnectionPool → Option ℕ → World × TunnelConnectionPool × TunnelConnection
unfolding new_tunnel_connection
add_connection w p conn =
    let tc = new_tunnel_connection w p.domain conn p.target_port in
    (
      record w { next_address = suc w.next_address },
      record p { connections = p.connections ++ tc ∷ [] },
      tc,
    )

unfoldable pub is_timeout : Probe → Bool
is_timeout timeout = true
is_timeout got_byte = false
is_timeout failed = false

-- `probe` gives the outcome of the read on each handle.
unfoldable pub is_connection_healthy : (ℕ → Probe) → Option ℕ → Bool
unfolding is_timeout
is_connection_healthy probe none = false
is_connection_healthy probe (some h) = is_timeout (probe h)

-- The loop of CleanupDeadConnections.
unfoldable pub sweep :
    (ℕ → Probe) → World → List TunnelConnection → World × List TunnelConnection × ℕ
unfolding is_connection_healthy close_socket
sweep probe w [] = (w, [], 0)
sweep probe w (tc ∷ tcs) =
    let healthy = is_connection_healthy probe tc.conn in
    let (w', kept, removed) = sweep probe (if healthy then w else close_socket tc.conn w) tcs in
    if healthy then (w', tc ∷ kept, removed) else (w', kept, suc removed)

unfoldable pub cleanup_dead_connections :
    (ℕ → Probe) → World → TunnelConnectionPool → World × TunnelConnectionPool × ℕ
cleanup_dead_connections probe w p =
    let (w', kept, removed) = sweep probe w p.connections in
    (w', record p { connections = kept }, removed)

abbrev pub u64_mod : ℕ
u64_mod = 2 ^ 64

-- The connection that a round-robin step lands on. `true` says that a cleanup is started, which
-- the code does when the chosen connection has no socket.
unfoldable pub hand_out : Option TunnelConnection → Option TunnelConnection × Bool
hand_out none = (none, false)
hand_out (some tc) = elim tc.conn [ none ↦ (none, true) | some h ↦ (some tc, false) ]

unfoldable pub next_index : TunnelConnectionPool → ℕ
next_index p = (p.round_robin + 1) % u64_mod % length p.connections

unfoldable pub get_connection :
    TunnelConnectionPool → TunnelConnectionPool × Option TunnelConnection × Bool
unfolding hand_out next_index
get_connection p =
    if length p.connections == 0
    then (p, none, false)
    else (let (tc, sweeping) = hand_out (get_elem? p.connections (next_index p)) in
        (record p { round_robin = (p.round_robin + 1) % u64_mod }, tc, sweeping))

-- The loops of RemoveConnection and RemoveConnectionWithoutClosing: the first connection at the
-- address goes.
unfoldable pub remove_closing : ℕ → World → List TunnelConnection → World × List TunnelConnection
unfolding close_socket
remove_closing a w [] = (w, [])
remove_closing a w (tc ∷ tcs) =
    let (w', rest) = remove_closing a w tcs in
    if tc.address == a then (close_socket tc.conn w, tcs) else (w', tc ∷ rest)

unfoldable pub remove_keeping : ℕ → List TunnelConnection → List TunnelConnection
remove_keeping a [] = []
remove_keeping a (tc ∷ tcs) = if tc.address == a then tcs else tc ∷ remove_keeping a tcs

unfoldable pub remove_connection :
    World → TunnelConnectionPool → TunnelConnection → World × TunnelConnectionPool
remove_connection w p target =
    let (w', rest) = remove_closing target.address w p.connections in
    (w', record p { connections = rest })

unfoldable pub remove_connection_without_closing :
    TunnelConnectionPool → TunnelConnection → TunnelConnectionPool
remove_connection_without_closing p target = record p {
  connections = remove_keeping target.address p.connections;
}

unfoldable pub size : TunnelConnectionPool → ℕ
size p = length p.connections

unfoldable pub get_all_connections : TunnelConnectionPool → List TunnelConnection
get_all_connections p = p.connections

unfoldable pub close_all : World → List TunnelConnection → World
unfolding close_socket
close_all w [] = w
close_all w (tc ∷ tcs) = close_all (close_socket tc.conn w) tcs

unfoldable pub close : World → TunnelConnectionPool → World × TunnelConnectionPool
close w p = (close_all w p.connections, record p { connections = [] })
