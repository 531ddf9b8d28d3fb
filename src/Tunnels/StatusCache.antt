-- ===== src/Tunnels/StatusCache.antt =====
-- The cache of the tunnels' status: internal/tunnel/tunnel_status_cache.go, over the repository.
pub mod Enabled
use giraffecloud.Base.{ℕ, Bool, true, false, Option, none, some, List, [], ◌∷◌, Bytes, bytes_eq}
use giraffecloud.Base.Map.{lookup, insert, delete}
use giraffecloud.Tunnels.Store.{Tunnel, Client, DbResult, ok, err}
use giraffecloud.Tunnels.Repository

abbrev pub StatusCache : Type 0
StatusCache = List (Bytes × Bool)

abbrev pub status_of : Option Bool → Bool
status_of none = false
status_of (some enabled) = enabled

unfoldable pub is_enabled : StatusCache → Bytes → Bool
is_enabled cache domain = status_of (lookup domain cache)

-- The loop of refreshAll over the active tunnels.
unfoldable pub put_all : List Tunnel → StatusCache → StatusCache
put_all [] cache = cache
put_all (t ∷ ts) cache = put_all ts (insert t.domain t.is_enabled cache)

-- The cache after refreshAll: the old one if the query failed.
unfoldable pub refreshed : StatusCache → DbResult (List Tunnel) → StatusCache
refreshed cache (ok tunnels) = put_all tunnels []
refreshed cache (err e) = cache

-- The cache after refreshSingle.
unfoldable pub refreshed_single : StatusCache → Bytes → DbResult Tunnel → StatusCache
refreshed_single cache domain (ok tunnel) = insert domain tunnel.is_enabled cache
refreshed_single cache domain (err e) = delete domain cache

module _ {S : Type 0} (client : Client S) where
  unfoldable pub refresh_all : S → StatusCache → StatusCache
  refresh_all s cache = refreshed cache (Repository.get_active client s)

  unfoldable pub refresh_single : Bytes → S → StatusCache → StatusCache
  refresh_single domain s cache =
      refreshed_single cache domain (Repository.get_by_domain client domain s)
