-- ===== src/TcpServer/Wires.antt =====
-- What ProxyWebSocketConnection of internal/tunnel/server.go meets outside and leaves behind, the
-- bytes of its upgrade request, its refusals and the traffic it records.
use giraffecloud.Base.{
  ℕ, Bool, not, ◌&&◌, ◌||◌, Option, none, some, List, [], ◌∷◌, ◌++◌, Bytes, codes, ◌==◌, nat_eq,
  bytes_eq, ltb, if◌then◌else◌,
}
use giraffecloud.Text.{contains}
use giraffecloud.Connections.Steps.{State}
use giraffecloud.TcpServer.Clients.{HttpRequest, HttpResponse, server_error, ClientConn, send, crlf}
use giraffecloud.Usage.Quota.{QuotaDecision}

-- What http.ReadResponse gives on a tunnel.
pub data ReadResult : Type 0 where
  got : HttpResponse → ReadResult
  malformed : ReadResult  -- an error with "malformed HTTP response" in its text
  unread : Bytes → ReadResult

-- A call of UsageRecorder.Increment.
pub record Traffic : Type 0 where
  pub user : ℕ
  pub tunnel : ℕ
  pub domain : Bytes
  pub bytes_in : ℕ
  pub bytes_out : ℕ
  pub requests : ℕ

-- The world outside during a call. Sockets are numbers.
pub record Wires : Type 0 where
  -- the decision of the quota checker, if there is one
  pub quota : Option (ℕ → QuotaDecision)
  -- the callback that asks for a tunnel, if there is one, and its error
  pub request_tunnel : Option (Bytes → Option Bytes)
  -- what other goroutines do to the connections during each pause, and while data is forwarded
  pub pause : ℕ → State → State
  pub session : State → State
  -- the error of writing the request to a socket, and what is read from it
  pub write_error : ℕ → Bytes → Option Bytes
  pub read : ℕ → ReadResult
  -- the error of writing and of flushing the response to the visitor
  pub visitor_write_error : Option Bytes
  pub visitor_flush_error : Option Bytes
  -- whether there is a usage recorder, and the bytes copied in the two directions
  pub records_usage : Bool
  pub copied_in : ℕ
  pub copied_out : ℕ

-- The end of a call: the connections, the visitor, what was recorded and the error.
pub record Outcome : Type 0 where
  pub state : State
  pub client : ClientConn
  pub usage : List Traffic
  pub error : Option Bytes

-- The header lines of one name.
unfoldable pub header_lines : Bytes → List Bytes → Bytes
header_lines key [] = []
header_lines key (value ∷ values) = key ++ codes ": " ++ value ++ crlf ++ header_lines key values

-- The loop over the headers.
unfoldable pub headers_but_host : List (Bytes × List Bytes) → Bytes
unfolding header_lines
headers_but_host [] = []
headers_but_host ((key, values) ∷ header) =
    if not (key == codes "Host")
    then header_lines key values ++ headers_but_host header
    else headers_but_host header

-- The bytes of the upgrade request that goes to the tunnel.
unfoldable pub upgrade_request : HttpRequest → Bytes
unfolding headers_but_host
upgrade_request r =
    r.method
    ++ codes " "
    ++ r.request_uri
    ++ codes " HTTP/1.1"
    ++ crlf
    ++ codes "Host: "
    ++ r.host
    ++ crlf
    ++ headers_but_host r.header
    ++ crlf

unfoldable pub error_if : Bool → Bytes → Option Bytes
error_if return_error text = if return_error then some text else none

unfoldable pub failed : State → ClientConn → Option Bytes → Outcome
failed s c error = record { state = s; client = c; usage = []; error = error }

unfoldable pub refused : State → ClientConn → ℕ → Bytes → Option Bytes → Outcome
unfolding failed
refused s c code message error = failed s (send (server_error code message) c) error

-- Whether a failed write is one that the hybrid router is told of.
unfoldable pub is_broken_pipe : Bytes → Bool
unfolding contains
is_broken_pipe err = contains err (codes "broken pipe") || contains err (codes "connection reset")

-- The traffic of both directions, if the domain's owner is known.
unfoldable pub recorded : ℕ × ℕ × Bool → Bytes → ℕ → ℕ → List Traffic
recorded (user, tunnel, ok) domain n_in n_out =
    (if ok && ltb 0 n_in
      then record {
        user = user;
        tunnel = tunnel;
        domain = domain;
        bytes_in = n_in;
        bytes_out = 0;
        requests = 0;
      }
        ∷ []
      else [])
    ++ (if ok && ltb 0 n_out
        then record {
          user = user;
          tunnel = tunnel;
          domain = domain;
          bytes_in = 0;
          bytes_out = n_out;
          requests = 1;
        }
          ∷ []
        else [])
