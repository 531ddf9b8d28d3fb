-- ===== src/Auth/Tunnels.antt =====
-- AuthenticateTunnelByToken of internal/tunnel/auth_helpers.go.
use giraffecloud.Base.{
  not, ◌&&◌, Option, none, some, List, [], ◌∷◌, Bytes, ◌==◌, bytes_eq, any, map, if◌then◌else◌,
}
use giraffecloud.Tunnels.Store.{Tunnel, Client, DbError, DbResult, select}
use giraffecloud.Tunnels.Repository
use giraffecloud.Auth.Tokens.{Token, TokenClient, get_by_token}

pub data AuthError : Type 0 where
  invalid_token failed_to_get_tunnels : DbError → AuthError
  no_tunnels no_enabled_tunnels domain_disabled no_tunnel_for_domain : AuthError
  multiple_tunnels : List Bytes → AuthError

pub data AuthResult : Type 0 where
  ok : Tunnel → AuthResult
  err : AuthError → AuthResult

-- The loop over the enabled tunnels.
unfoldable pub find_domain : Bytes → List Tunnel → Option Tunnel
find_domain domain [] = none
find_domain domain (t ∷ ts) =
    let rest = find_domain domain ts in if t.domain == domain then some t else rest

-- Without a domain: the enabled tunnel, if there is one only.
unfoldable pub only_enabled : List Tunnel → AuthResult
only_enabled [] = err no_enabled_tunnels
only_enabled (t ∷ []) = ok t
only_enabled (t ∷ u ∷ ts) = err (multiple_tunnels (map (λ v. v.domain) (t ∷ u ∷ ts)))

-- With a domain: the loop's tunnel, or the reason why there is none.
unfoldable pub matched : Bytes → List Tunnel → Option Tunnel → AuthResult
matched domain tunnels (some t) = ok t
matched domain tunnels none =
    if any (λ t. t.domain == domain && not t.is_enabled) tunnels
    then err domain_disabled
    else err no_tunnel_for_domain

-- The choice among the enabled tunnels.
unfoldable pub choose_enabled : Bytes → List Tunnel → List Tunnel → AuthResult
choose_enabled domain tunnels [] = err no_enabled_tunnels
choose_enabled domain tunnels (t ∷ ts) =
    if domain == []
    then only_enabled (t ∷ ts)
    else matched domain tunnels (find_domain domain (t ∷ ts))

unfoldable pub choose_tunnel : Bytes → List Tunnel → AuthResult
choose_tunnel domain [] = err no_tunnels
choose_tunnel domain (t ∷ ts) = choose_enabled domain (t ∷ ts) (select (λ u. u.is_enabled) (t ∷ ts))

module _ {S T : Type 0} (tokens : TokenClient S) (tunnels : Client T) (hash : Bytes → Bytes) where
  unfoldable pub with_tunnels : Bytes → DbResult (List Tunnel) → AuthResult
  with_tunnels domain (DbResult.ok ts) = choose_tunnel domain ts
  with_tunnels domain (DbResult.err e) = err (failed_to_get_tunnels e)

  unfoldable pub with_token : Bytes → T → DbResult Token → AuthResult
  with_token domain store (DbResult.ok api) =
      with_tunnels domain (Repository.get_by_user_id tunnels api.user_id store)
  with_token domain store (DbResult.err e) = err (invalid_token e)

  unfoldable pub authenticate_tunnel_by_token : Bytes → Bytes → S → T → AuthResult
  authenticate_tunnel_by_token token domain s store =
      with_token domain store (get_by_token tokens hash token s)
