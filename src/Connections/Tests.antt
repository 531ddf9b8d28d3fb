-- ===== src/Connections/Tests.antt =====
-- Runs of ConnectionManager (internal/tunnel/connection_manager.go) on concrete inputs.
use giraffecloud.Base.{
  ℕ, ◌+◌, ◌<◌, ◌≡◌, refl, true, some, List, [], ◌∷◌, Bytes, codes, ◌==◌, bytes_eq, nat_eq,
  bytes_beq, arith, if◌then◌else◌,
}
use giraffecloud.Base.Map.{lookup, insert, delete}
use giraffecloud.Connections.Pool
use giraffecloud.Connections.Pool.{
  TunnelConnection, TunnelConnectionPool, World, Probe, timeout, got_byte, failed, size, next_index,
  get_connection,
}
use giraffecloud.Connections.Manager
use giraffecloud.Connections.Manager.{
  ConnectionManager, http, websocket, other, get_domain_owner, has_domain, get_all_http_connections,
  get_web_socket_pool_size, get_web_socket_pool_stats, get_http_pool_size,
  max_web_socket_tunnels_per_domain,
}
use giraffecloud.Connections.Steps.{Op, adds, removes_http, takes_ws, gets, run, start}
use giraffecloud.Connections.Census.{held, count}
use giraffecloud.Connections.Census.Steps.{run-census, entered_in, given_up_in}
use giraffecloud.Connections.Invariant.{Inv, run-Inv}
use giraffecloud.Connections.Rotation.{turns, turns-fair}
use giraffecloud.Connections.Removal.{Removed, remove_specific_http_connection-gone, Settled}

abbrev shop : Bytes
shop = codes "shop.example"

abbrev blog : Bytes
blog = codes "blog.example"

abbrev line : ℕ → ℕ → TunnelConnection
line address handle = record {
  address = address;
  conn = some handle;
  domain = shop;
  target_port = 80;
  request_count = 0;
  created_at = 0;
}

abbrev three : TunnelConnectionPool
three = record {
  domain = shop;
  target_port = 80;
  connections = line 0 7 ∷ line 1 8 ∷ line 2 9 ∷ [];
  round_robin = 4;
}

-- From counter 4 the next call takes slot 2, then 0, then 1.
rotation_test :
    ((get_connection three).1 ≡ some (line 2 9))
    × ((get_connection (turns 1 three)).1 ≡ some (line 0 7))
unfolding get_connection Pool.hand_out next_index turns
rotation_test = (refl, refl)

turns-fair_example : (k : ℕ) × (k < 3) × ((get_connection (turns k three)).1 ≡ some (line 1 8))
turns-fair_example =
    turns-fair three 1 (omega arith) ((λ e. cc), ((λ e. cc), ((λ e. cc), tt))) (omega arith)

-- Two HTTP sockets and a WebSocket; one HTTP socket is removed and the WebSocket taken.
abbrev history : List Op
history =
    adds shop 7 80 http 5 1
    ∷ adds shop 8 80 http 6 2
    ∷ adds shop 9 80 websocket 5 1
    ∷ gets shop http
    ∷ removes_http shop (line 0 7)
    ∷ takes_ws shop (line 2 9)
    ∷ []

run_all : Unit {0}
unfolding run start Manager.add_connection Manager.remove_connection
    Manager.remove_specific_http_connection
    Manager.remove_specific_web_socket_connection_without_closing Manager.get_connection
    Pool.add_connection Pool.remove_connection Pool.remove_connection_without_closing
    Pool.remove_closing Pool.remove_keeping Pool.close Pool.close_all Pool.new_pool
    Manager.new_domain Pool.get_connection bytes_beq lookup insert delete size get_domain_owner
    has_domain get_all_http_connections Pool.get_all_connections get_http_pool_size
    get_web_socket_pool_size
run_all = tt

history_test :
    ((run start history).0.closed ≡ 7 ∷ [])
    × (get_all_http_connections (run start history).1 shop ≡ line 1 8 ∷ [])
    × (get_domain_owner (run start history).1 shop ≡ (5, 1, true))
    × (get_web_socket_pool_size (run start history).1 shop ≡ 0)
unfolding run_all
history_test = (refl, refl, refl, refl)

run-census_example :
    held 9 (run start history).1
      + count 9 (run start history).0.closed
      + given_up_in 9 start history
    ≡ entered_in 9 history
run-census_example = run-census 9 history

run-Inv_example : Inv (run start history)
run-Inv_example = run-Inv history

remove_specific_http_connection-gone_example :
    let (w, m) = run start history in
    let m' = (Manager.remove_specific_http_connection w m shop (line 1 8)).1 in
    Removed m shop 1 m' × Settled m shop m'
remove_specific_http_connection-gone_example =
    remove_specific_http_connection-gone (run start history).0 (run start history).1 shop (line 1 8)
      (run-Inv history)

-- The socket with data to read is dropped like the failed one.
abbrev probes : ℕ → Probe
probes h = if h == 7 then got_byte else if h == 8 then timeout else failed

sweep_test :
    (Pool.sweep probes (record { next_address = 3; closed = []; now = 0 }) three.connections).1
    ≡ line 1 8 ∷ []
unfolding Pool.sweep
sweep_test = refl
