-- ===== src/Connections/Invariant.antt =====
-- The invariant of ConnectionManager (internal/tunnel/connection_manager.go).
use giraffecloud.Base.{
  ℕ, ◌≡◌, refl, Option, some, List, [], ◌∷◌, Bytes, nat_eq, bytes_eq, All, All-mono,
}
use giraffecloud.Base.Map.{lookup, IsUnique, All-insert, All-lookup}
use giraffecloud.Connections.Pool
use giraffecloud.Connections.Pool.{
  TunnelConnection, TunnelConnectionPool, World, Probe, sweep, remove_closing, remove_keeping,
  close_all, close_socket, close_handle, size, new_pool, next_index,
}
use giraffecloud.Connections.Manager
use giraffecloud.Connections.Manager.{
  DomainConnections, ConnectionManager, ConnectionType, http, websocket, other, settle, place,
  take_turn, on_entry, get_or_create, set_owner, new_domain, max_web_socket_tunnels_per_domain,
}
use giraffecloud.Connections.Steps.{
  State, Op, adds, removes, removes_http, removes_ws, takes_ws, gets, cleans, closes, step, run,
  start,
}
use giraffecloud.Connections.Census.Steps.{step-IsUnique, close-nil}
use giraffecloud.Connections.Serving.{remove_closing_keeping, remove_closing-next}
use giraffecloud.Connections.Entries.{
  IsServing, IsServing-mono, Kept, settle-Kept, owned-IsServing, place-Placed, take_turn-IsServing,
  cleanup-Kept, keeping-IsServing_http, keeping-IsServing_ws,
}

-- One entry for each domain; its pools hold connections of that domain and port, each at an
-- address of its own; and at most 25 WebSocket connections.
pub record Inv (s : State) : Type 0 where
  pub unique : IsUnique s.1
  pub serving : All (IsServing s.0.next_address) s.1

-- What the step does to the entries, at the address bound that it leaves.
abbrev Stepped : State → Type 0
Stepped s = All (IsServing s.0.next_address) s.1

Kept-Stepped : (next : ℕ) (s : State) → Kept next s → Stepped s
Kept-Stepped next s (e, h) = rw e h

module _ (w : World) (m : ConnectionManager) (domain : Bytes)
    (h : All (IsServing w.next_address) m) where
  entry :
      (dc : DomainConnections) → lookup domain m ≡ some dc → IsServing w.next_address (domain, dc)
  entry dc e = All-lookup (IsServing w.next_address) domain m h e

  settled :
      (w' : World) (dc : DomainConnections)
      → w'.next_address ≡ w.next_address
      → IsServing w.next_address (domain, dc)
      → Stepped (settle w' m domain dc)
  settled w' dc e s =
      Kept-Stepped w.next_address (settle w' m domain dc)
        (settle-Kept w.next_address w' m domain dc e h s)

step-serving : (s : State) (op : Op) → All (IsServing s.0.next_address) s.1 → Stepped (step s op)
unfolding step Manager.add_connection Manager.remove_connection
    Manager.remove_specific_http_connection Manager.remove_specific_web_socket_connection
    Manager.remove_specific_web_socket_connection_without_closing Manager.get_connection
    Pool.remove_connection Pool.remove_connection_without_closing
step-serving (w, m) (adds domain conn port type user tunnel) h =
    let o = lookup domain m in
    let (grown, s) =
      place-Placed w domain (set_owner user tunnel (get_or_create o domain port)) type conn
        (owned-IsServing w.next_address o domain port user tunnel (entry w m domain h)) in
    All-insert (IsServing _) domain _ m s
      (All-mono m (λ b. IsServing-mono w.next_address _ b grown) h)
step-serving (w, m) (removes domain type) h =
    on_entry Stepped (lookup domain m) (λ _. h)
      λ dc e. settled w m domain h w dc refl (entry w m domain h dc e)
step-serving (w, m) (removes_http domain tc) h =
    on_entry Stepped (lookup domain m) (λ _. h)
      λ dc e. settled w m domain h _ _ (remove_closing-next tc.address w dc.http_pool.connections) (
        rw (remove_closing_keeping tc.address w dc.http_pool.connections)
          (keeping-IsServing_http w.next_address tc.address domain dc (entry w m domain h dc e)))
step-serving (w, m) (removes_ws domain tc) h =
    on_entry Stepped (lookup domain m) (λ _. h)
      λ dc e. settled w m domain h _ _ (remove_closing-next tc.address w dc.ws_pool.connections) (
        rw (remove_closing_keeping tc.address w dc.ws_pool.connections)
          (keeping-IsServing_ws w.next_address tc.address domain dc (entry w m domain h dc e)))
step-serving (w, m) (takes_ws domain tc) h =
    on_entry Stepped (lookup domain m) (λ _. h)
      λ dc e.
        settled w m domain h w _ refl
          (keeping-IsServing_ws w.next_address tc.address domain dc (entry w m domain h dc e))
step-serving (w, m) (gets domain type) h =
    on_entry
      (λ (r : ConnectionManager × Option TunnelConnection). All (IsServing w.next_address) r.0)
      (lookup domain m) (λ _. h)
      λ dc e.
        All-insert (IsServing w.next_address) domain (take_turn dc type).0 m
          (take_turn-IsServing w.next_address domain dc type (entry w m domain h dc e)) h
step-serving (w, m) (cleans probe) h =
    Kept-Stepped w.next_address (step (w, m) (cleans probe))
      (cleanup-Kept w.next_address probe w m refl h)
step-serving (w, m) closes h = rw (close-nil w m) tt

-- Every operation keeps the invariant.
pub step-Inv : (s : State) (op : Op) → Inv s → Inv (step s op)
step-Inv s op v = record {
  unique = step-IsUnique s op v.unique;
  serving = step-serving s op v.serving;
}

run-Inv_from : (s : State) (ops : List Op) → Inv s → Inv (run s ops)
unfolding run
run-Inv_from s [] v = v
run-Inv_from s (op ∷ ops) v = run-Inv_from (step s op) ops (step-Inv s op v)

-- After any sequence of operations on an empty manager there is one entry for each domain, its
-- pools hold only connections of that domain and port, each at an address of its own below the next
-- free one, and at most 25 of them are WebSocket connections.
pub run-Inv : (ops : List Op) → Inv (run start ops)
unfolding start
run-Inv ops = run-Inv_from start ops (record { unique = tt; serving = tt })
