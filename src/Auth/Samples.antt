-- ===== src/Auth/Samples.antt =====
-- Data that tests share: a token, a tunnel, and the world of internal/service/tunnel_service.go.
use giraffecloud.Tunnels.Outside
use giraffecloud.Base.{ℕ, true, none, [], ◌∷◌, Bytes, codes}
use giraffecloud.Tunnels.Store.{Tunnel, verified}
use giraffecloud.Auth.Tokens.{Token}

-- A hash for the tests.
abbrev pub hash : Bytes → Bytes
hash s = 0 ∷ s

abbrev pub api_token : ℕ → Bytes → Token
api_token id text = record {
  id = id;
  user_id = 5;
  name = codes "laptop";
  token_hash = hash text;
  created_at = 1;
  last_used_at = 1;
  expires_at = 2;
  revoked_at = none;
}

abbrev pub laptop_token : Token
laptop_token = api_token 1 (codes "secret")

abbrev pub shop_tunnel : Tunnel
shop_tunnel = record {
  id = 9;
  domain = codes "shop.example";
  token = [];
  client_ip = [];
  is_enabled = true;
  dns_propagation_status = verified;
  target_port = 80;
  user_id = 5;
}

abbrev pub services : Outside.World
services = record {
  env = record { subdomain_secret = []; base_domain = []; client_url = [] };
  config = record { base_domain = codes "giraffe.xyz"; server_ip = codes "9.9.9.9" };
  lookup_host = λ d. none;
  hmac = λ key message. [];
  caddy = none;
}
