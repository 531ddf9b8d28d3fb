-- ===== src/TcpServer/Replies.antt =====
-- What a visitor is sent by the WebSocket proxy of internal/tunnel/server.go.
use giraffecloud.Base.{
  ℕ, ◌≡◌, refl, ◌∙◌, ◌⊎◌, inl, inr, Bool, true, Option, none, some, Bytes, leb, nat_beq, arith,
  Bool-cases,
}
use giraffecloud.Connections.Pool.{TunnelConnection, World}
use giraffecloud.Connections.Manager.{
  ConnectionManager, get_web_socket_connection, get_web_socket_pool_size,
  max_web_socket_tunnels_per_domain,
}
use giraffecloud.Connections.Manager
use giraffecloud.Connections.Steps.{State}
use giraffecloud.TcpServer.Clients.{
  HttpRequest, HttpResponse, Reply, ClientConn, send, close_client,
}
use giraffecloud.TcpServer.Wires.{
  Wires, ReadResult, got, malformed, unread, upgrade_request, failed, refused, is_broken_pipe,
}
use giraffecloud.TcpServer.WebSockets.{
  forwarded, answered, after_read, after_write, handshake, release, with_tunnel, wait_for_tunnel,
  after_wait, after_request, request_new, with_turn, is_blocked, proxied,
  proxy_web_socket_connection_internal,
}

-- The second connection is the first one after at most one reply.
abbrev pub Answered : ClientConn → ClientConn → Type 0
Answered c d = (d ≡ c) ⊎ ((r : Reply) × (d ≡ send r c))

pub send_closed : (r : Reply) (c : ClientConn) → c.is_closed ≡ true → send r c ≡ c
unfolding send
send_closed r c h = rw h refl

-- A closed connection stays as it is.
pub Answered-closed : (c d : ClientConn) → c.is_closed ≡ true → Answered c d → d ≡ c
Answered-closed c d h (inl e) = e
Answered-closed c d h (inr (r, e)) = e ∙ send_closed r c h

module _ (w : Wires) (domain : Bytes) (request : HttpRequest) (return_error : Bool) where
  flushed-Answered :
      (s : State) (c : ClientConn) (r : HttpResponse) (write flush : Option Bytes)
      → w.visitor_write_error ≡ write
      → w.visitor_flush_error ≡ flush
      → Answered c (answered w domain request return_error s c r).client
  unfolding answered failed forwarded
  flushed-Answered s c r (some x) flush e f = rw e (inl refl)
  flushed-Answered s c r none (some x) e f = rw (e, f) (inl refl)
  flushed-Answered s c r none none e f = elim (Bool-cases (nat_beq r.status_code 101)) [
    | inl ok ↦ rw (e, f, ok) (inr (_, refl))
    | inr other ↦ rw (e, f, other) (inr (_, refl))
  ]

  after_read-Answered :
      (s : State) (c : ClientConn) (r : ReadResult)
      → Answered c (after_read w domain request return_error s c r).client
  unfolding after_read forwarded refused failed
  after_read-Answered s c (got r) = flushed-Answered s c r _ _ refl refl
  after_read-Answered s c malformed = inl refl
  after_read-Answered s c (unread e) = inr (_, refl)

  after_write-Answered :
      (s : State) (c : ClientConn) (socket : ℕ) (e : Option Bytes)
      → Answered c (after_write w domain request return_error s c socket e).client
  unfolding after_write refused failed
  after_write-Answered s c socket none = after_read-Answered s c (w.read socket)
  after_write-Answered s c socket (some e) = elim (Bool-cases (is_broken_pipe e)) [
    | inl b ↦ rw b (inl refl)
    | inr b ↦ rw b (inr (_, refl))
  ]

  handshake-Answered :
      (s : State) (c : ClientConn) (socket : Option ℕ)
      → Answered c (handshake w domain request return_error s c socket).client
  unfolding handshake failed
  handshake-Answered s c none = inl refl
  handshake-Answered s c (some socket) =
      after_write-Answered s c socket (w.write_error socket (upgrade_request request))

  with_tunnel-Answered :
      (s : State) (c : ClientConn) (tc : TunnelConnection)
      → Answered c (with_tunnel w domain request return_error s c tc).client
  unfolding with_tunnel release
  with_tunnel-Answered (world, m) c tc =
      handshake-Answered
        (Manager.remove_specific_web_socket_connection_without_closing world m domain tc) c tc.conn

  after_wait-Answered :
      (r : State × Option TunnelConnection) (c : ClientConn)
      → Answered c (after_wait w domain request return_error r c).client
  unfolding after_wait refused failed
  after_wait-Answered (s, some tc) c = with_tunnel-Answered s c tc
  after_wait-Answered (s, none) c = inr (_, refl)

  after_request-Answered :
      (s : State) (c : ClientConn) (e : Option Bytes)
      → Answered c (after_request w domain request return_error s c e).client
  unfolding after_request refused failed
  after_request-Answered s c (some x) = inr (_, refl)
  after_request-Answered s c none =
      after_wait-Answered (wait_for_tunnel w domain request return_error 100 0 s) c

  request_new-Answered :
      (s : State) (c : ClientConn) (o : Option (Bytes → Option Bytes))
      → Answered c (request_new w domain request return_error s c o).client
  unfolding request_new refused failed
  request_new-Answered s c none = inr (_, refl)
  request_new-Answered s c (some ask) = after_request-Answered s c (ask domain)

  with_turn-Answered :
      (world : World) (c : ClientConn) (t : ConnectionManager × Option TunnelConnection)
      → Answered c (with_turn w domain request return_error world c t).client
  unfolding with_turn
  with_turn-Answered world c (m, some tc) = with_tunnel-Answered (world, m) c tc
  with_turn-Answered world c (m, none) = request_new-Answered (world, m) c w.request_tunnel

  pub proxied-Answered :
      (s : State) (c : ClientConn) → Answered c (proxied w domain request return_error s c).client
  unfolding proxied refused failed
  proxied-Answered (world, m) c = elim (Bool-cases (is_blocked w domain request return_error m)) [
    | inl b ↦ rw b (inr (_, refl))
    | inr b ↦
        elim (Bool-cases
          (leb max_web_socket_tunnels_per_domain (get_web_socket_pool_size m domain))) [
            | inl full ↦ rw (b, full) (inr (_, refl))
            | inr room ↦
                rw (b, room) (with_turn-Answered world c (get_web_socket_connection m domain))
          ]
  ]

  -- The proxy closes the visitor's connection, after at most one reply.
  pub proxy_web_socket_connection_internal-Answered :
      (s : State) (c : ClientConn)
      → (d : ClientConn) × Answered c d
        × ((proxy_web_socket_connection_internal w domain request return_error s c).client
            ≡ close_client d)
  unfolding proxy_web_socket_connection_internal
  proxy_web_socket_connection_internal-Answered s c = (_, proxied-Answered s c, refl)

  closed_again : (c d : ClientConn) → c.is_closed ≡ true → d ≡ c → close_client d ≡ c
  unfolding close_client
  closed_again c d h e = ground (arith, h, e)

  -- On a closed connection it writes nothing.
  pub proxy_web_socket_connection_internal-closed :
      (s : State) (c : ClientConn)
      → c.is_closed ≡ true
      → (proxy_web_socket_connection_internal w domain request return_error s c).client ≡ c
  proxy_web_socket_connection_internal-closed s c h =
      let (d, a, e) = proxy_web_socket_connection_internal-Answered s c in
      e ∙ closed_again c d h (Answered-closed c d h a)
