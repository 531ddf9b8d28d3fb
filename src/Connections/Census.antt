-- ===== src/Connections/Census.antt =====
-- Where each socket is: internal/tunnel/connection_manager.go neither loses a socket nor closes one
-- that it does not hold.
pub mod Steps
use giraffecloud.Base.{
  ℕ, suc, ◌+◌, ◌≡◌, refl, Bool, true, false, Option, none, some, List, [], ◌∷◌, ◌++◌, Bytes, ◌==◌,
  nat_eq, bytes_eq, arith, if◌then◌else◌, Option-cases, inl, inr,
}
use giraffecloud.Base.Map.{
  lookup, insert, delete, IsUnique, insert-IsUnique, delete-IsUnique, total, total-insert,
  total-insert_new, total-delete,
}
use giraffecloud.Connections.Pool
use giraffecloud.Connections.Pool.{
  TunnelConnection, TunnelConnectionPool, World, Probe, sweep, remove_closing, remove_keeping,
  close_all, close_socket, close_handle, size,
}
use giraffecloud.Connections.Manager
use giraffecloud.Connections.Manager.{
  DomainConnections, ConnectionManager, ConnectionType, http, websocket, other, settle, place,
  take_turn,
}
use giraffecloud.Connections.Steps.{
  State, Op, adds, removes, removes_http, removes_ws, takes_ws, gets, cleans, closes, step,
}

-- One if the socket is the handle.
unfoldable pub is_handle : ℕ → Option ℕ → ℕ
is_handle h none = 0
is_handle h (some c) = if c == h then 1 else 0

-- How often the handle stands in a list of connections, in a list of handles, in a domain.
unfoldable pub held_in : ℕ → List TunnelConnection → ℕ
unfolding is_handle
held_in h [] = 0
held_in h (tc ∷ tcs) = is_handle h tc.conn + held_in h tcs

unfoldable pub count : ℕ → List ℕ → ℕ
count h [] = 0
count h (c ∷ cs) = (if c == h then 1 else 0) + count h cs

abbrev pub held_by : ℕ → DomainConnections → ℕ
held_by h dc = held_in h dc.http_pool.connections + held_in h dc.ws_pool.connections

abbrev pub held : ℕ → ConnectionManager → ℕ
held h m = total (held_by h) m

closed_socket :
    (h : ℕ) (s : Option ℕ) (w : World)
    → count h (close_socket s w).closed ≡ is_handle h s + count h w.closed
unfolding close_socket count is_handle
closed_socket h none w = omega arith
closed_socket h (some c) w = refl

held_in-append :
    (h : ℕ) (xs ys : List TunnelConnection) → held_in h (xs ++ ys) ≡ held_in h xs + held_in h ys
unfolding held_in
held_in-append h [] ys = omega arith
held_in-append h (x ∷ xs) ys = omega (arith, held_in-append h xs ys)

held_in-sweep :
    (h : ℕ) (probe : ℕ → Probe) (w : World) (tcs : List TunnelConnection)
    → held_in h (sweep probe w tcs).1 + count h (sweep probe w tcs).0.closed
      ≡ held_in h tcs + count h w.closed
unfolding sweep held_in
held_in-sweep h probe w [] = refl
held_in-sweep h probe w (tc ∷ tcs) = ground (
  arith,
  held_in-sweep h probe w tcs,
  held_in-sweep h probe (close_socket tc.conn w) tcs,
  closed_socket h tc.conn w,
)

held_in-remove_closing :
    (h a : ℕ) (w : World) (tcs : List TunnelConnection)
    → held_in h (remove_closing a w tcs).1 + count h (remove_closing a w tcs).0.closed
      ≡ held_in h tcs + count h w.closed
unfolding remove_closing held_in
held_in-remove_closing h a w [] = refl
held_in-remove_closing h a w (tc ∷ tcs) =
    ground (arith, held_in-remove_closing h a w tcs, closed_socket h tc.conn w)

-- The connections that a removal at the address takes: one or none.
unfoldable pub find_at : ℕ → List TunnelConnection → List TunnelConnection
find_at a [] = []
find_at a (tc ∷ tcs) = if tc.address == a then tc ∷ [] else find_at a tcs

held_in-remove_keeping :
    (h a : ℕ) (tcs : List TunnelConnection)
    → held_in h (remove_keeping a tcs) + held_in h (find_at a tcs) ≡ held_in h tcs
unfolding remove_keeping held_in find_at
held_in-remove_keeping h a [] = refl
held_in-remove_keeping h a (tc ∷ tcs) = ground (arith, held_in-remove_keeping h a tcs)

closed-close_all :
    (h : ℕ) (w : World) (tcs : List TunnelConnection)
    → count h (close_all w tcs).closed ≡ held_in h tcs + count h w.closed
unfolding close_all held_in
closed-close_all h w [] = omega arith
closed-close_all h w (tc ∷ tcs) =
    omega (arith, closed-close_all h (close_socket tc.conn w) tcs, closed_socket h tc.conn w)

held-settle :
    (h : ℕ) (w : World) (m : ConnectionManager) (k : Bytes) (dc old : DomainConnections)
    → IsUnique m
    → lookup k m ≡ some old
    → held h (settle w m k dc).1 + count h (settle w m k dc).0.closed + held_by h old
      ≡ held h m + count h w.closed + held_by h dc
unfolding settle Pool.close
held-settle h w m k dc old u e = ground (
  arith,
  total-delete (held_by h) k old m u e,
  total-insert (held_by h) k dc old m e,
  closed-close_all h w dc.http_pool.connections,
  closed-close_all h (close_all w dc.http_pool.connections) dc.ws_pool.connections,
)

-- A socket of a known type enters the census.
abbrev pub enters : ℕ → ConnectionType → ℕ → ℕ
enters h http conn = is_handle h (some conn)
enters h websocket conn = is_handle h (some conn)
enters h other conn = 0

held-place :
    (h : ℕ) (w : World) (dc : DomainConnections) (type : ConnectionType) (conn : ℕ)
    → held_by h (place w dc type conn).1 + count h (place w dc type conn).0.closed
      ≡ held_by h dc + count h w.closed + enters h type conn
unfolding place Pool.add_connection held_in count close_handle is_handle
held-place h w dc http conn = omega (
  arith,
  held_in-append h dc.http_pool.connections
      (Pool.new_tunnel_connection w dc.http_pool.domain (some conn) dc.http_pool.target_port ∷ []),
)
held-place h w dc websocket conn = ground (
  arith,
  held_in-append h dc.ws_pool.connections
      (Pool.new_tunnel_connection w dc.ws_pool.domain (some conn) dc.ws_pool.target_port ∷ []),
)
held-place h w dc other conn = omega arith

held-take_turn :
    (h : ℕ) (dc : DomainConnections) (type : ConnectionType)
    → held_by h (take_turn dc type).0 ≡ held_by h dc
unfolding take_turn Pool.get_connection
held-take_turn h dc http = ground arith
held-take_turn h dc websocket = ground arith
held-take_turn h dc other = refl

held-cleanup :
    (h : ℕ) (probe : ℕ → Probe) (w : World) (m : ConnectionManager)
    → held h (Manager.cleanup_dead_connections probe w m).1
        + count h (Manager.cleanup_dead_connections probe w m).0.closed
      ≡ held h m + count h w.closed
unfolding Manager.cleanup_dead_connections Pool.cleanup_dead_connections total
held-cleanup h probe w [] = refl
held-cleanup h probe w ((k, dc) ∷ m) =
    let (w', _, _) = Pool.cleanup_dead_connections probe w dc.http_pool in
    omega (arith, held_in-sweep h probe w dc.http_pool.connections, held-cleanup h probe w' m)

closed-close :
    (h : ℕ) (w : World) (m : ConnectionManager)
    → count h (Manager.close w m).0.closed ≡ held h m + count h w.closed
unfolding Manager.close Pool.close total
closed-close h w [] = omega arith
closed-close h w ((k, dc) ∷ m) =
    let w' = close_all w dc.http_pool.connections in
    let w'' = close_all w' dc.ws_pool.connections in
    omega (
      arith,
      closed-close_all h w dc.http_pool.connections,
      closed-close_all h w' dc.ws_pool.connections,
      closed-close h w'' m,
    )
