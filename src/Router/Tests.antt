-- ===== src/Router/Tests.antt =====
-- Runs of internal/tunnel/hybrid_router.go on concrete inputs.
use giraffecloud.Base.{
  ◌≡◌, ◌≤◌, refl, true, false, none, some, List, [], ◌∷◌, Bytes, codes, length, arith, bytes_beq,
  bytes_eq,
}
use giraffecloud.Base.Map.{lookup, insert, delete}
use giraffecloud.Text.{contains, has_prefix, before, to_lower, lower_byte, has_suffix, push_first}
use giraffecloud.Connections.Steps.{State}
use giraffecloud.Connections.Steps
use giraffecloud.TcpServer.Clients.{HttpRequest}
use giraffecloud.TcpServer.Wires.{Wires, got}
use giraffecloud.TcpServer.WebSockets.{proxy_web_socket_connection_internal}
use giraffecloud.Router.Requests.{
  default_hybrid_router_config, analyze_request, request_line, fields, push_field, diverted,
  is_large_file, is_web_socket_upgrade,
}
use giraffecloud.Router.Routing.{Visit, Handling, proxied, proxy_connection, proxy_web_socket}
use giraffecloud.Router.Counters.{no_requests, serve, Counted, serve-no_requests}
use giraffecloud.Router.Answers.{proxy_web_socket-client, proxy_connection-one_reply}
use giraffecloud.Router.Waiting
use giraffecloud.Router.Waiting.{
  Handler, Event, clears, waiting, joins, checks, receives, expires, leaves, wakes, find_handler,
  in_progress,
}
use giraffecloud.Router.Waiting.Entries.{entries_at}
use giraffecloud.Router.Waiting.Kept.{Kept, run-Kept}
use giraffecloud.Router.Waiting.Woken.{Returned, woken, run-returns}

abbrev shop : Bytes
shop = codes "shop.example"

abbrev upgrade_data : Bytes
upgrade_data = codes "GET /ws/ HTTP/1.1\r\nUpgrade: websocket\r\n\r\n"

-- An upgrade goes to the TCP tunnel, a download to the chunked route, and an upgrade of an asset to
-- the gRPC tunnel.
analyze_request_test :
    (analyze_request default_hybrid_router_config upgrade_data ≡ (true, codes "GET", codes "/ws/"))
    × ((analyze_request default_hybrid_router_config (codes "GET /a/Film.MP4 HTTP/1.1\r\n\r\n")).0
        ≡ true)
    × ((analyze_request default_hybrid_router_config
          (codes "GET /assets/x HTTP/1.1\r\nUpgrade: websocket\r\n\r\n")).0
        ≡ false)
unfolding analyze_request default_hybrid_router_config request_line diverted is_large_file fields
    push_field push_first contains has_prefix before to_lower lower_byte has_suffix bytes_beq
    is_web_socket_upgrade
analyze_request_test = (refl, refl, refl)

abbrev hello : HttpRequest
hello = record { method = codes "GET"; request_uri = codes "/ws/"; host = shop; header = [] }

abbrev wires : Wires
wires = record {
  quota = none;
  request_tunnel = none;
  pause = λ _ s. s;
  session = λ s. s;
  write_error = λ _ _. some (codes "broken pipe");
  read = λ _. got (record { status_code = 101; payload = [] });
  visitor_write_error = none;
  visitor_flush_error = none;
  records_usage = true;
  copied_in = 5;
  copied_out = 7;
}

abbrev visit : Visit
visit = record {
  is_active = true;
  is_still_active = true;
  parsed = some hello;
  proxy_http_request = λ _. proxied (record { status_code = 200; payload = [] });
  proxy_http_request_with_chunking = λ _. proxied (record { status_code = 200; payload = [] });
  wait = λ s. (s, true);
  wait_again = λ s. (s, true);
  wires = wires;
  wires_again = wires;
}

abbrev handling : Handling
handling = record {
  metrics = no_requests;
  client = record { sent = []; is_closed = false };
  state = Steps.start;
}

serve-no_requests_example :
    Counted 2
      (serve default_hybrid_router_config
        (no_requests, Steps.start)
        (record { visit = visit; domain = shop; request_data = upgrade_data }
          ∷ record { visit = visit; domain = shop; request_data = codes "GET / HTTP/1.1" }
          ∷ [])).0
serve-no_requests_example =
    serve-no_requests default_hybrid_router_config
      (record { visit = visit; domain = shop; request_data = upgrade_data }
        ∷ record { visit = visit; domain = shop; request_data = codes "GET / HTTP/1.1" }
        ∷ [])
      Steps.start (omega arith)

proxy_connection-one_reply_example :
    (length
        (proxy_connection visit shop default_hybrid_router_config upgrade_data handling).client.sent
      ≤ 1)
    × ((proxy_connection visit shop default_hybrid_router_config upgrade_data
          handling).client.is_closed
        ≡ true)
proxy_connection-one_reply_example =
    proxy_connection-one_reply visit shop default_hybrid_router_config upgrade_data handling refl

proxy_web_socket-client_example :
    ((proxy_web_socket visit shop hello handling).client
      ≡ (proxy_web_socket_connection_internal wires shop hello true handling.state
          handling.client).client)
    × ((proxy_web_socket visit shop hello handling).client.is_closed ≡ true)
proxy_web_socket-client_example = proxy_web_socket-client visit shop hello handling

-- Two requests wait for a domain; the second finds the establishment in progress.
abbrev two_wait : List Event
two_wait = joins shop (codes "ws-req-1") ∷ checks 0 ∷ joins shop (codes "ws-req-2") ∷ checks 1 ∷ []

one_request_test : (Waiting.run Waiting.start two_wait).requests ≡ (shop, codes "ws-req-1") ∷ []
unfolding Waiting.run Waiting.start Waiting.step lookup insert bytes_beq find_handler
one_request_test = refl

-- When both are woken and leave, no entry is left.
all_leave_test :
    (Waiting.run
      (Waiting.run Waiting.start two_wait)
      (wakes shop ∷ receives 1 ∷ receives 0 ∷ leaves 1 ∷ leaves 0 ∷ [])).pending_connections
    ≡ []
unfolding Waiting.run Waiting.start Waiting.step lookup insert bytes_beq delete find_handler
all_leave_test = refl

run-Kept_example : Kept (Waiting.run Waiting.start two_wait)
unfolding Waiting.start entries_at Waiting.step bytes_beq find_handler lookup insert
run-Kept_example = run-Kept two_wait (refl, (tt, (refl, (tt, tt))))

abbrev second : Handler
second = record {
  pending = record { domain = shop; request_id = codes "ws-req-2"; done_chan = 1 };
  phase = waiting;
}

abbrev run_two : Waiting.State
run_two = Waiting.run Waiting.start two_wait

-- The other handler receives and leaves first, and a tunnel is cleared before the second one leaves.
abbrev first_goes : List Event
first_goes = receives 0 ∷ leaves 0 ∷ []

run-returns_example :
    (let u =
        Waiting.run
          (Waiting.step (woken second run_two first_goes) (receives 1))
          (clears shop ∷ []) in
      Returned 1 second.pending true u (Waiting.step u (leaves 1)))
    × (in_progress (
          lookup shop
            (Waiting.step (Waiting.run run_two first_goes) (expires 1)).establishment_in_progress)
        ≡ false)
    × (let u =
          Waiting.run
            (Waiting.step (Waiting.run run_two first_goes) (expires 1))
            (clears shop ∷ []) in
        Returned 1 second.pending false u (Waiting.step u (leaves 1)))
unfolding Waiting.run Waiting.start Waiting.step lookup insert bytes_beq find_handler entries_at
run-returns_example =
    run-returns 1 second run_two first_goes (clears shop ∷ [])
      (run-Kept two_wait (refl, (tt, (refl, (tt, tt))))) refl refl
      (omega arith, tt, (omega arith, tt, tt)) (tt, tt, tt) (omega arith, tt, (omega arith, tt, tt))
      (tt, tt, tt)
