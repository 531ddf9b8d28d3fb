-- ===== src/Grpc/RequestTests.antt =====
-- A handshake with the gRPC server and requests through it (internal/tunnel/grpc_service.go) over
-- tables in memory.
use giraffecloud.Base.{
  ℕ, ◌≡◌, refl, Bool, true, false, some, [], ◌∷◌, Bytes, codes, bytes_beq, bytes_eq,
}
use giraffecloud.Base.Map.{lookup}
use giraffecloud.Tunnels.Store.{updated_row}
use giraffecloud.Tunnels.Repository
use giraffecloud.Tunnels.Memory.{in_memory}
use giraffecloud.Tunnels.Service
use giraffecloud.Auth.Memory.{tokens_in_memory}
use giraffecloud.Auth.Tokens.{get_by_token}
use giraffecloud.Auth.Tunnels.{
  find_domain, matched, choose_enabled, choose_tunnel, with_tunnels, with_token,
  authenticate_tunnel_by_token,
}
use giraffecloud.Tunnels.StatusCache.{is_enabled}
use giraffecloud.Usage.Quota.{warn}
use giraffecloud.Grpc.Tunnels.{ActiveStream, TunnelHandshake, GrpcPeer, serving, establish_tunnel}
use giraffecloud.Grpc.Admitted.{Admitted}
use giraffecloud.Grpc.Requests.{RequestWorld, Reply, proxied, proxy_http_request}
use giraffecloud.Grpc.Streams.{http_response, TunnelMessage}
use giraffecloud.Grpc.Chunks.{message}
use giraffecloud.Grpc.Fetches.{Wait, receives, FetchWorld, UsageCall}
use giraffecloud.Text.{has_suffix}
use giraffecloud.Auth.Samples.{hash, laptop_token, shop_tunnel, services}
use giraffecloud.Grpc.Samples.{no_tunnels, shop_stream, shop}

abbrev handshake : TunnelHandshake
handshake = record { token = codes "secret"; domain = codes "shop.example"; target_port = 0 }

abbrev peer : GrpcPeer
peer = record {
  first_message = some (some handshake);
  client_ip = codes "1.2.3.4";
  receives = true;
}

-- The tunnel is served, at its own port.
served_test :
    (establish_tunnel tokens_in_memory in_memory hash services peer 3 no_tunnels
      (laptop_token ∷ [])
      (shop_tunnel ∷ [])
      []).result
    ≡ serving shop_stream
unfolding establish_tunnel bytes_beq authenticate_tunnel_by_token with_token get_by_token
    with_tunnels Repository.get_by_user_id choose_tunnel choose_enabled matched find_domain
    Service.update_client_ip Repository.get_by_id Repository.update_client_ip updated_row
served_test = refl

-- The quota warns; the service answers with the body that it gets, and a byte for the warning; its
-- headers name the domain.
abbrev echoed : Bytes → Wait
echoed body = receives (
    some (record {
      request_id = codes "r";
      message_type = http_response (record {
        status_code = 200;
        headers = (codes "Host", codes "shop.example") ∷ [];
        body = body;
        is_chunked = false;
        chunk_id = [];
      });
    }))

abbrev echo : ActiveStream → Bool → Bytes → Wait
echo stream true body = echoed (1 ∷ body)
echo stream false body = echoed body

abbrev fetching : FetchWorld
fetching = record { wait = echo; later = []; accepts = λ written body. true; prefers_error = false }

abbrev world : RequestWorld
world = record {
  status_cache = some ((codes "shop.example", true) ∷ []);
  quota = some (λ user. warn);
  has_usage = true;
  allows = true;
  request_body = some (7 ∷ 8 ∷ []);
  fetch = fetching;
}

abbrev counted : ℕ → ℕ → ℕ → UsageCall
counted n_in n_out requests = record {
  user_id = 5;
  tunnel_id = 9;
  domain = codes "shop.example";
  bytes_in = n_in;
  bytes_out = n_out;
  requests = requests;
}

-- The bytes of the response are counted twice.
abbrev reply : Reply
reply = (
  record shop { total_requests = 1; total_responses = 1 },
  counted 0 3 0 ∷ counted 2 3 1 ∷ [],
  proxied (1 ∷ 7 ∷ 8 ∷ []),
)

reply_test : proxy_http_request world (codes "shop.example") shop ≡ reply
unfolding proxy_http_request lookup bytes_beq is_enabled
reply_test = refl

-- A response in chunks: the first body is counted once, the second twice.
abbrev chunk : Bytes → Bytes → TunnelMessage
chunk id body = record {
  request_id = codes "r";
  message_type =
      http_response
        (record { status_code = 200; headers = []; body = body; is_chunked = true; chunk_id = id });
}

abbrev chunked_world : RequestWorld
chunked_world = record world {
  fetch = record fetching {
    wait = λ stream warned body. receives (some (chunk (codes "0") (1 ∷ 2 ∷ [])));
    later = message (chunk (codes "1_final") (3 ∷ [])) ∷ [];
  };
}

chunked_test : proxy_http_request chunked_world (codes "shop.example") shop ≡ (
  record shop { total_requests = 1; total_responses = 1 },
  counted 0 1 0 ∷ counted 2 3 1 ∷ [],
  proxied (1 ∷ 2 ∷ 3 ∷ []),
)
unfolding proxy_http_request lookup bytes_beq is_enabled has_suffix
chunked_test = refl
