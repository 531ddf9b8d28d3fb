-- ===== src/Grpc/Samples.antt =====
-- Data that tests share: a gRPC server without tunnels, and one with a tunnel.
use giraffecloud.Base.{true, [], ◌∷◌, codes}
use giraffecloud.Grpc.Tunnels.{ActiveStream, GrpcServer}

abbrev pub no_tunnels : GrpcServer
no_tunnels = record {
  tunnel_streams = [];
  total_requests = 0;
  concurrent_reqs = 0;
  total_responses = 0;
  total_errors = 0;
  timeout_errors = 0;
}

abbrev pub shop_stream : ActiveStream
shop_stream = record {
  domain = codes "shop.example";
  target_port = 80;
  tunnel_id = 9;
  user_id = 5;
  stream = 3;
  is_connected = true;
}

abbrev pub shop : GrpcServer
shop = record no_tunnels { tunnel_streams = (codes "shop.example", shop_stream) ∷ [] }
