-- ===== src/Tunnels/Service/Histories.antt =====
-- Sequences of the operations of internal/service/tunnel_service.go that change the table.
use giraffecloud.Base.{ℕ, Option, some, List, Bytes, ◌≡◌, All}
use giraffecloud.Tunnels.Store.{Tunnel, Client}
use giraffecloud.Tunnels.Repository.{TunnelUpdate}
use giraffecloud.Tunnels.Outside.{ok, World, RouteCall}
use giraffecloud.Tunnels.Service.{create_tunnel, update_tunnel, delete_tunnel}
use giraffecloud.Tunnels.Service.Ports.{IsDistinct}
use giraffecloud.Tunnels.Service.Lifetimes.{create_tunnel-IsDistinct, delete_tunnel-IsDistinct}
use giraffecloud.Tunnels.Service.Updates.{update_tunnel-IsDistinct}

module _ {S : Type 0} (client : Client S) (w : World) where
  -- A creation that succeeds, an update that succeeds on one of the caller's own tunnels, or a
  -- deletion of any outcome.
  pub data Change : S → S → Type 0 where
    created :
        (user : ℕ) (domain : Bytes) (port : ℕ) (token : Option Bytes) (s s' : S) (t : Tunnel)
        → create_tunnel client w user domain port token s ≡ (s', ok t)
        → Change s s'
    updated :
        (user id : ℕ) (u : TunnelUpdate) (s : S) (log : List RouteCall) (s' : S)
        (log' : List RouteCall) (t : Tunnel)
        → All (λ r. r.id ≡ id → r.user_id ≡ user) (client.rows s)
        → update_tunnel client w user id (some u) s log ≡ (s', log', ok t)
        → Change s s'
    deleted :
        (user id : ℕ) (s : S) (log : List RouteCall)
        → Change s (delete_tunnel client w user id s log).0

  pub data History (s : S) : S → Type 0 where
    here : History s s
    next : {t u : S} → History s t → Change t u → History s u

  Change-IsDistinct :
      {s t : S} → Change s t → IsDistinct (client.rows s) → IsDistinct (client.rows t)
  Change-IsDistinct (created user domain port token s s' t e) d =
      create_tunnel-IsDistinct client w user domain port token s s' t d e
  Change-IsDistinct (updated user id u s log s' log' t own e) d =
      update_tunnel-IsDistinct client w user id u s log s' log' t d own e
  Change-IsDistinct (deleted user id s log) d = delete_tunnel-IsDistinct client w user id s log d

  -- Along every sequence of creations that succeed, of updates that succeed on tunnels of the caller,
  -- and of deletions, the ids of the table and the ports of each user stay distinct.
  pub History-IsDistinct :
      {s t : S} → History s t → IsDistinct (client.rows s) → IsDistinct (client.rows t)
  History-IsDistinct here d = d
  History-IsDistinct (next h c) d = Change-IsDistinct c (History-IsDistinct h d)
