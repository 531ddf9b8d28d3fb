-- ===== src/Auth/Tests.antt =====
-- AuthenticateTunnelByToken (internal/tunnel/auth_helpers.go) and Revoke
-- (internal/repository/token_repository.go) over tables in memory.
use giraffecloud.Base.{Bool, true, List, [], ◌∷◌, codes, bytes_beq, nat_eq, bytes_eq, ◌≡◌, refl}
use giraffecloud.Tunnels.Memory.{in_memory}
use giraffecloud.Tunnels.Repository
use giraffecloud.Auth.Memory.{tokens_in_memory}
use giraffecloud.Auth.Tokens.{Token, get_by_token, revoke}
use giraffecloud.Auth.Tunnels.{
  find_domain, only_enabled, matched, choose_enabled, choose_tunnel, with_tunnels, with_token,
  authenticate_tunnel_by_token,
}
use giraffecloud.Auth.Tunnels
use giraffecloud.Auth.Granted.{Granted, authenticate_tunnel_by_token-Granted}
use giraffecloud.Auth.Samples.{hash, api_token, shop_tunnel}

-- Names what the tests compute.
unfoldable all_opened : Bool
unfolding bytes_beq get_by_token revoke find_domain only_enabled matched choose_enabled
    choose_tunnel with_tunnels with_token authenticate_tunnel_by_token Repository.get_by_user_id
all_opened = true

abbrev stored : List Token
stored = api_token 1 (codes "first") ∷ api_token 2 (codes "second") ∷ []

granted :
    authenticate_tunnel_by_token tokens_in_memory in_memory hash
      (codes "first")
      []
      stored
      (shop_tunnel ∷ [])
    ≡ Tunnels.ok shop_tunnel
unfolding all_opened
granted = refl

authenticate_tunnel_by_token-Granted_example :
    Granted tokens_in_memory in_memory hash
      (codes "second")
      (codes "shop.example")
      stored
      (shop_tunnel ∷ [])
      shop_tunnel
unfolding all_opened
authenticate_tunnel_by_token-Granted_example =
    authenticate_tunnel_by_token-Granted tokens_in_memory in_memory hash (codes "second")
      (codes "shop.example") stored (shop_tunnel ∷ []) shop_tunnel refl
