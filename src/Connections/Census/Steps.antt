-- ===== src/Connections/Census/Steps.antt =====
-- The census of sockets over the operations of ConnectionManager and over any sequence of them
-- (internal/tunnel/connection_manager.go).
use giraffecloud.Base.{
  ℕ, ◌+◌, ◌≡◌, refl, Option, none, some, List, [], ◌∷◌, Bytes, nat_eq, bytes_eq, arith, ap,
  Option-cases, inl, inr,
}
use giraffecloud.Base.Map.{
  lookup, IsUnique, insert-IsUnique, delete-IsUnique, total, total-insert, total-insert_new,
}
use giraffecloud.Connections.Pool
use giraffecloud.Connections.Pool.{
  TunnelConnection, TunnelConnectionPool, World, Probe, sweep, remove_closing, remove_keeping,
  close_all, close_socket, close_handle, size, new_pool,
}
use giraffecloud.Connections.Manager
use giraffecloud.Connections.Manager.{
  DomainConnections, ConnectionManager, ConnectionType, http, websocket, other, settle, place,
  take_turn, on_entry, get_or_create, set_owner, new_domain,
}
use giraffecloud.Connections.Steps.{
  State, Op, adds, removes, removes_http, removes_ws, takes_ws, gets, cleans, closes, step, run,
  start,
}
use giraffecloud.Connections.Census.{
  held, held_by, held_in, count, enters, find_at, held-settle, held-place, held-take_turn,
  held-cleanup, closed-close, held_in-remove_closing, held_in-remove_keeping,
}

settle-IsUnique :
    (w : World) (m : ConnectionManager) (k : Bytes) (dc : DomainConnections)
    → IsUnique m
    → IsUnique (settle w m k dc).1
unfolding settle
settle-IsUnique w m k dc u = ground (arith, delete-IsUnique k m u, insert-IsUnique k dc m u)

lookup-cleanup :
    (j : Bytes) (probe : ℕ → Probe) (w : World) (m : ConnectionManager)
    → lookup j m ≡ none
    → lookup j (Manager.cleanup_dead_connections probe w m).1 ≡ none
unfolding Manager.cleanup_dead_connections lookup
lookup-cleanup j probe w [] h = refl
lookup-cleanup j probe w ((k, dc) ∷ m) h =
    ground (arith, lookup-cleanup j probe (Pool.cleanup_dead_connections probe w dc.http_pool).0 m)

cleanup-IsUnique :
    (probe : ℕ → Probe) (w : World) (m : ConnectionManager)
    → IsUnique m
    → IsUnique (Manager.cleanup_dead_connections probe w m).1
unfolding Manager.cleanup_dead_connections
cleanup-IsUnique probe w [] u = u
cleanup-IsUnique probe w ((k, dc) ∷ m) (fresh, u) =
    let w' = (Pool.cleanup_dead_connections probe w dc.http_pool).0 in
    (lookup-cleanup k probe w' m fresh, cleanup-IsUnique probe w' m u)

pub close-nil : (w : World) (m : ConnectionManager) → (Manager.close w m).1 ≡ []
unfolding Manager.close
close-nil w [] = refl
close-nil w ((k, dc) ∷ m) =
    let w' = (Pool.close w dc.http_pool).0 in
    let w'' = (Pool.close w' dc.ws_pool).0 in close-nil w'' m

-- Every operation keeps one entry for each domain.
pub step-IsUnique : (s : State) (op : Op) → IsUnique s.1 → IsUnique (step s op).1
unfolding step Manager.remove_connection Manager.remove_specific_http_connection
    Manager.remove_specific_web_socket_connection
    Manager.remove_specific_web_socket_connection_without_closing Manager.get_connection
    Manager.add_connection
step-IsUnique (w, m) (adds domain conn port type user tunnel) u = insert-IsUnique domain _ m u
step-IsUnique (w, m) (removes domain type) u =
    on_entry (λ (s : State). IsUnique s.1) (lookup domain m) (λ _. u)
      λ dc _. settle-IsUnique w m domain dc u
step-IsUnique (w, m) (removes_http domain tc) u =
    on_entry (λ (s : State). IsUnique s.1) (lookup domain m) (λ _. u)
      λ dc _. settle-IsUnique _ m domain _ u
step-IsUnique (w, m) (removes_ws domain tc) u =
    on_entry (λ (s : State). IsUnique s.1) (lookup domain m) (λ _. u)
      λ dc _. settle-IsUnique _ m domain _ u
step-IsUnique (w, m) (takes_ws domain tc) u =
    on_entry (λ (s : State). IsUnique s.1) (lookup domain m) (λ _. u)
      λ dc _. settle-IsUnique _ m domain _ u
step-IsUnique (w, m) (gets domain type) u =
    on_entry (λ (r : ConnectionManager × Option TunnelConnection). IsUnique r.0) (lookup domain m)
      (λ _. u) λ dc _. insert-IsUnique domain (take_turn dc type).0 m u
step-IsUnique (w, m) (cleans probe) u = cleanup-IsUnique probe w m u
step-IsUnique (w, m) closes u = rw (close-nil w m) tt

-- What an operation brings in, and what it gives up to its caller without closing it.
abbrev pub entered : ℕ → Op → ℕ
entered h (adds domain conn port type user tunnel) = enters h type conn
entered h _ = 0

abbrev given_up_from : ℕ → TunnelConnection → Option DomainConnections → ℕ
given_up_from h tc none = 0
given_up_from h tc (some dc) = held_in h (find_at tc.address dc.ws_pool.connections)

abbrev pub given_up : ℕ → ConnectionManager → Op → ℕ
given_up h m (takes_ws domain tc) = given_up_from h tc (lookup domain m)
given_up h m _ = 0

-- The sockets in the pools and the closed ones, as often as each occurs.
abbrev pub census : ℕ → State → ℕ
census h s = held h s.1 + count h s.0.closed

census-add :
    (h : ℕ) (w : World) (m : ConnectionManager) (domain : Bytes) (conn port : ℕ)
    (type : ConnectionType) (user tunnel : ℕ)
    → census h (step (w, m) (adds domain conn port type user tunnel))
      ≡ census h (w, m) + enters h type conn
unfolding step Manager.add_connection set_owner new_domain get_or_create new_pool held_in
census-add h w m domain conn port type user tunnel = elim (Option-cases (lookup domain m)) [
  | inl e ↦
      let dc = set_owner user tunnel (new_domain domain port) in
      ground (
        arith,
        total-insert_new (held_by h) domain (place w dc type conn).1 m e,
        held-place h w dc type conn,
      )
  | inr (old, e) ↦
      let dc = set_owner user tunnel old in
      ground (
        arith,
        total-insert (held_by h) domain (place w dc type conn).1 old m e,
        held-place h w dc type conn,
      )
]

-- Every operation accounts for each handle: what the pools hold of it and how often it was closed
-- add up to what they did before, with the socket that an addition brings in, and without the one
-- that is taken from a WebSocket pool unclosed.
pub step-census :
    (h : ℕ) (s : State) (op : Op)
    → IsUnique s.1
    → census h (step s op) + given_up h s.1 op ≡ census h s + entered h op
unfolding step Manager.remove_connection Manager.remove_specific_http_connection
    Manager.remove_specific_web_socket_connection
    Manager.remove_specific_web_socket_connection_without_closing Manager.get_connection
    Pool.remove_connection Pool.remove_connection_without_closing total
step-census h (w, m) (adds domain conn port type user tunnel) u =
    omega (arith, census-add h w m domain conn port type user tunnel)
step-census h (w, m) (removes domain type) u =
    on_entry (λ (s : State). census h s + 0 ≡ census h (w, m) + 0) (lookup domain m) (λ _. refl)
      λ dc e. omega (arith, held-settle h w m domain dc dc u e)
step-census h (w, m) (removes_http domain tc) u =
    on_entry (λ (s : State). census h s + 0 ≡ census h (w, m) + 0) (lookup domain m) (λ _. refl)
      λ dc e.
        let (w', tcs) = remove_closing tc.address w dc.http_pool.connections in
        omega (
          arith,
          held-settle h w' m domain
              (record dc { http_pool = record dc.http_pool { connections = tcs } }) dc u e,
          held_in-remove_closing h tc.address w dc.http_pool.connections,
        )
step-census h (w, m) (removes_ws domain tc) u =
    on_entry (λ (s : State). census h s + 0 ≡ census h (w, m) + 0) (lookup domain m) (λ _. refl)
      λ dc e.
        let (w', tcs) = remove_closing tc.address w dc.ws_pool.connections in
        omega (
          arith,
          held-settle h w' m domain
              (record dc { ws_pool = record dc.ws_pool { connections = tcs } }) dc u e,
          held_in-remove_closing h tc.address w dc.ws_pool.connections,
        )
step-census h (w, m) (takes_ws domain tc) u = elim (Option-cases (lookup domain m)) [
  | inl e ↦ rw (e, Manager.remove_specific_web_socket_connection_without_closing) refl
  | inr (dc, e) ↦
      let p = Pool.remove_connection_without_closing dc.ws_pool tc in
      rw (e, Manager.remove_specific_web_socket_connection_without_closing)
        (omega (
          arith,
          held-settle h w m domain (record dc { ws_pool = p }) dc u e,
          held_in-remove_keeping h tc.address dc.ws_pool.connections,
        ))
]
step-census h (w, m) (gets domain type) u =
    on_entry
      (λ (r : ConnectionManager × Option TunnelConnection).
        census h (w, r.0) + 0 ≡ census h (w, m) + 0)
      (lookup domain m) (λ _. refl)
      λ dc e. omega (
        arith,
        total-insert (held_by h) domain (take_turn dc type).0 dc m e,
        held-take_turn h dc type,
      )
step-census h (w, m) (cleans probe) u = omega (arith, held-cleanup h probe w m)
step-census h (w, m) closes u = omega (arith, closed-close h w m, ap (held h) (close-nil w m))

-- The same along a sequence of operations.
unfoldable pub entered_in : ℕ → List Op → ℕ
entered_in h [] = 0
entered_in h (op ∷ ops) = entered h op + entered_in h ops

unfoldable pub given_up_in : ℕ → State → List Op → ℕ
given_up_in h s [] = 0
given_up_in h s (op ∷ ops) = given_up h s.1 op + given_up_in h (step s op) ops

run-census_from :
    (h : ℕ) (s : State) (ops : List Op)
    → IsUnique s.1
    → census h (run s ops) + given_up_in h s ops ≡ census h s + entered_in h ops
unfolding run entered_in given_up_in
run-census_from h s [] u = refl
run-census_from h s (op ∷ ops) u =
    omega (arith, step-census h s op u, run-census_from h (step s op) ops (step-IsUnique s op u))

-- From an empty manager, any sequence of operations: each handle stands in the pools and among the
-- closed ones, and was given up unclosed, exactly as often as it was brought in. So no socket is
-- lost, none is closed twice, and none is in a pool after it was closed, unless it came in twice.
pub run-census :
    (h : ℕ) (ops : List Op)
    → held h (run start ops).1 + count h (run start ops).0.closed + given_up_in h start ops
      ≡ entered_in h ops
unfolding start count total
run-census h ops = omega (arith, run-census_from h start ops tt)
