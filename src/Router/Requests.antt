-- ===== src/Router/Requests.antt =====
-- How HybridTunnelRouter (internal/tunnel/hybrid_router.go) classifies a request by its bytes, and
-- the errors that it recognises by their text. White space is that of ASCII.
use giraffecloud.Base.{
  ℕ, Bool, true, false, ◌&&◌, ◌||◌, List, [], ◌∷◌, ◌*◌, Bytes, codes, ◌==◌, nat_eq, leb, any,
  if◌then◌else◌,
}
use giraffecloud.Text.{contains, has_suffix, before, to_lower, push_first}

pub record HybridRouterConfig : Type 0 where
  pub grpc_address : Bytes
  pub tcp_address : Bytes
  pub force_grpc_paths : List Bytes
  pub force_tcp_paths : List Bytes
  pub large_file_extensions : List Bytes
  pub max_grpc_file_size : ℕ
  pub large_file_paths : List Bytes
  pub enable_metrics : Bool
  pub metrics_interval : ℕ  -- nanoseconds
  pub enable_rate_limit : Bool
  pub max_requests_per_min : ℕ

unfoldable pub default_hybrid_router_config : HybridRouterConfig
default_hybrid_router_config = record {
  grpc_address = codes ":4444";
  tcp_address = codes ":4443";
  force_grpc_paths = codes "/assets/" ∷ codes "/media/" ∷ codes "/static/" ∷ [];
  force_tcp_paths =
      codes "/ws/"
      ∷ codes "/websocket/"
      ∷ codes "/socket.io/"
      ∷ codes "socket.io"
      ∷ codes "transport=websocket"
      ∷ [];
  large_file_extensions =
      codes ".mp4"
      ∷ codes ".avi"
      ∷ codes ".mov"
      ∷ codes ".mkv"
      ∷ codes ".webm"
      ∷ codes ".m4v"
      ∷ codes ".flv"
      ∷ codes ".wmv"
      ∷ codes ".zip"
      ∷ codes ".rar"
      ∷ codes ".7z"
      ∷ codes ".tar"
      ∷ codes ".gz"
      ∷ codes ".bz2"
      ∷ codes ".iso"
      ∷ codes ".img"
      ∷ codes ".dmg"
      ∷ codes ".exe"
      ∷ codes ".msi"
      ∷ codes ".deb"
      ∷ codes ".rpm"
      ∷ [];
  max_grpc_file_size = 50 * 1024 * 1024;
  large_file_paths =
      codes "/video/"
      ∷ codes "/download/"
      ∷ codes "/file/"
      ∷ codes "/original/"
      ∷ codes "/raw/"
      ∷ [];
  enable_metrics = true;
  metrics_interval = 60000000000;
  enable_rate_limit = true;
  max_requests_per_min = 10000;
}

abbrev pub is_space : ℕ → Bool
is_space c = c == 32 || leb 9 c && leb c 13

-- Puts a byte in front of the fields of the text `s`.
unfoldable pub push_field : ℕ → Bytes → List Bytes → List Bytes
unfolding push_first
push_field c [] fields = (c ∷ []) ∷ fields
push_field c (d ∷ s) fields = if is_space d then (c ∷ []) ∷ fields else push_first c fields

-- strings.Fields(s)
unfoldable pub fields : Bytes → List Bytes
unfolding push_field
fields [] = []
fields (c ∷ s) = let rest = fields s in if is_space c then rest else push_field c s rest

-- "\r\n"
abbrev pub crlf : Bytes
crlf = 13 ∷ 10 ∷ []

-- The method and the path of a request line of at least two fields.
abbrev pub method_and_path : List Bytes → Bytes × Bytes
method_and_path (method ∷ path ∷ _) = (method, path)
method_and_path _ = ([], [])

unfoldable pub request_line : Bytes → Bytes × Bytes
unfolding before fields
request_line request_data = method_and_path (fields (before request_data crlf))

unfoldable pub is_web_socket_upgrade : Bytes → Bool
unfolding contains to_lower
is_web_socket_upgrade request_data =
    let request_lower = to_lower request_data in
    contains request_lower (codes "upgrade: websocket")
    || contains request_lower (codes "connection: upgrade")

module _ (config : HybridRouterConfig) where
  unfoldable pub is_large_file : Bytes → Bool
  unfolding to_lower has_suffix contains
  is_large_file path =
      let path_lower = to_lower path in
      any (λ ext. has_suffix path_lower (to_lower ext)) config.large_file_extensions
      || any (λ large_path. contains path_lower (to_lower large_path)) config.large_file_paths

  -- What analyzeRequest makes of the path, and of whether the request asks for an upgrade.
  unfoldable pub diverted : Bytes → Bool → Bool
  unfolding contains
  diverted path is_web_socket =
      if any (contains path) config.force_tcp_paths
      then true
      else if is_large_file path
      then true
      else if any (contains path) config.force_grpc_paths
      then false
      else is_web_socket

  unfoldable pub analyze_request : Bytes → Bool × Bytes × Bytes
  analyze_request request_data =
      let (method, path) = request_line request_data in
      (diverted path (is_web_socket_upgrade request_data), method, path)

-- An error of the tunnel servers: its text, and whether it carries one of the gRPC codes
-- DeadlineExceeded and Unavailable.
pub record ProxyError : Type 0 where
  pub text : Bytes
  pub is_unavailable : Bool

unfoldable pub is_timeout_error : ProxyError → Bool
unfolding contains to_lower
is_timeout_error err =
    any (λ keyword. contains (to_lower err.text) (to_lower keyword))
      (codes "timeout"
        ∷ codes "deadline"
        ∷ codes "context deadline exceeded"
        ∷ codes "connection timed out"
        ∷ codes "i/o timeout"
        ∷ codes "tunnel inactive"
        ∷ [])
    || err.is_unavailable

unfoldable pub is_client_disconnection_error : Bytes → Bool
unfolding contains to_lower
is_client_disconnection_error err = any (contains (to_lower err)) (
    codes "broken pipe"
    ∷ codes "connection reset by peer"
    ∷ codes "write: connection reset"
    ∷ codes "use of closed network connection"
    ∷ codes "connection closed"
    ∷ [])
