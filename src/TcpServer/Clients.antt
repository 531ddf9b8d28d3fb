-- ===== src/TcpServer/Clients.antt =====
-- A visitor's connection as the tunnel servers write to it, the requests and responses of net/http
-- that they handle, and writeHTTPError of internal/tunnel/server.go and
-- internal/tunnel/hybrid_router.go.
use giraffecloud.Base.{
  ℕ, Bool, true, List, [], ◌∷◌, ◌++◌, Bytes, codes, ◌==◌, nat_eq, bytes_eq, length, if◌then◌else◌,
}
use giraffecloud.Text.Decimal.{fmt_uint32}

pub record HttpRequest : Type 0 where
  pub method : Bytes
  pub request_uri : Bytes
  pub host : Bytes
  pub header : List (Bytes × List Bytes)

pub record HttpResponse : Type 0 where
  pub status_code : ℕ
  pub payload : Bytes

-- What is written to a visitor: an error of the hybrid router or of the TCP server, the page of a
-- tunnel whose client is offline, or a response of the tunnel.
pub data Reply : Type 0 where
  router_error server_error : ℕ → Bytes → Reply
  not_connected : Bytes → Reply
  response : HttpResponse → Reply

pub record ClientConn : Type 0 where
  pub sent : List Reply
  pub is_closed : Bool

-- A write to a closed connection fails, and the callers ignore that.
unfoldable pub send : Reply → ClientConn → ClientConn
send reply c = if c.is_closed then c else record c { sent = c.sent ++ reply ∷ [] }

unfoldable pub close_client : ClientConn → ClientConn
close_client c = record c { is_closed = true }

-- "\r\n"
abbrev pub crlf : Bytes
crlf = 13 ∷ 10 ∷ []

-- http.StatusText on the codes that the router writes.
unfoldable pub status_text : ℕ → Bytes
status_text code =
    if code == 400
    then codes "Bad Request"
    else if code == 500
    then codes "Internal Server Error"
    else if code == 502
    then codes "Bad Gateway"
    else if code == 503
    then codes "Service Unavailable"
    else []

-- The bytes that HybridTunnelRouter.writeHTTPError writes.
unfoldable pub router_error_text : ℕ → Bytes → Bytes
unfolding status_text fmt_uint32
router_error_text code message =
    codes "HTTP/1.1 "
    ++ fmt_uint32 code
    ++ codes " "
    ++ (if status_text code == [] then codes "Unknown Error" else status_text code)
    ++ crlf
    ++ codes "Content-Type: text/plain"
    ++ crlf
    ++ codes "Content-Length: "
    ++ fmt_uint32 (length message)
    ++ crlf
    ++ codes "Connection: close"
    ++ crlf
    ++ codes "X-Tunnel-Router: hybrid"
    ++ crlf
    ++ crlf
    ++ message

-- The bytes that TunnelServer.writeHTTPError writes.
unfoldable pub server_error_text : ℕ → Bytes → Bytes
unfolding fmt_uint32
server_error_text code message =
    codes "HTTP/1.1 "
    ++ fmt_uint32 code
    ++ codes " "
    ++ (if code == 504 then codes "Gateway Timeout" else codes "Bad Gateway")
    ++ crlf
    ++ codes "Content-Type: text/plain"
    ++ crlf
    ++ codes "Connection: close"
    ++ crlf
    ++ crlf
    ++ message
