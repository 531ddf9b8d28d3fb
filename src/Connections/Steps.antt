-- ===== src/Connections/Steps.antt =====
-- The operations of ConnectionManager (internal/tunnel/connection_manager.go) as steps of one
-- state, in any order. The locks make each operation one step.
use giraffecloud.Base.{ℕ, List, [], ◌∷◌, Bytes}
use giraffecloud.Connections.Pool.{TunnelConnection, World, Probe}
use giraffecloud.Connections.Manager
use giraffecloud.Connections.Manager.{ConnectionManager, ConnectionType}

abbrev pub State : Type 0
State = World × ConnectionManager

pub data Op : Type 0 where
  adds : (domain : Bytes) (conn port : ℕ) (type : ConnectionType) (user tunnel : ℕ) → Op
  removes : Bytes → ConnectionType → Op
  removes_http removes_ws takes_ws : Bytes → TunnelConnection → Op
  gets : Bytes → ConnectionType → Op
  cleans : (ℕ → Probe) → Op
  closes : Op

unfoldable pub step : State → Op → State
step (w, m) (adds domain conn port type user tunnel) =
    let (w', m', _) = Manager.add_connection w m domain conn port type user tunnel in (w', m')
step (w, m) (removes domain type) = Manager.remove_connection w m domain type
step (w, m) (removes_http domain tc) = Manager.remove_specific_http_connection w m domain tc
step (w, m) (removes_ws domain tc) = Manager.remove_specific_web_socket_connection w m domain tc
step (w, m) (takes_ws domain tc) =
    Manager.remove_specific_web_socket_connection_without_closing w m domain tc
step (w, m) (gets domain type) = let (m', _) = Manager.get_connection m domain type in (w, m')
step (w, m) (cleans probe) =
    let (w', m', _) = Manager.cleanup_dead_connections probe w m in (w', m')
step (w, m) closes = Manager.close w m

unfoldable pub run : State → List Op → State
unfolding step
run s [] = s
run s (op ∷ ops) = run (step s op) ops

unfoldable pub start : State
start = (record { next_address = 0; closed = []; now = 0 }, [])
