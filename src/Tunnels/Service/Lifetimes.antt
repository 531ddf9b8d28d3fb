-- ===== src/Tunnels/Service/Lifetimes.antt =====
-- CreateTunnel and DeleteTunnel of internal/service/tunnel_service.go and the ports of a user.
use giraffecloud.Base.{
  ℕ, not, ◌&&◌, Option, List, [], Bytes, ◌==◌, nat_eq, ◌≡◌, refl, sym, subst, ◌∙◌, All-both,
  if◌then◌else◌, bytes_eq,
}
use giraffecloud.Tunnels.Store.{Tunnel, Client, DbResult}
use giraffecloud.Tunnels.Repository.{TunnelUpdate, update_builder}
use giraffecloud.Tunnels.Repository
use giraffecloud.Tunnels.Outside.{
  Result, ok, err, World, RouteCall, or_not_found, call_caddy, removes,
}
use giraffecloud.Tunnels.Service.{create_tunnel, delete_tunnel, after_delete}
use giraffecloud.Tunnels.Service.Create.{create_tunnel-Created}
use giraffecloud.Tunnels.Service.Ports.{IsDistinct, append-IsDistinct, select-IsDistinct}

module _ {S : Type 0} (client : Client S) (w : World) where
  -- A tunnel that is created leaves the ids of the table and the ports of each user distinct.
  pub create_tunnel-IsDistinct :
      (user : ℕ) (domain : Bytes) (port : ℕ) (token : Option Bytes) (s s' : S) (t : Tunnel)
      → IsDistinct (client.rows s)
      → create_tunnel client w user domain port token s ≡ (s', ok t)
      → IsDistinct (client.rows s')
  create_tunnel-IsDistinct user domain port token s s' t d h =
      let c = create_tunnel-Created client w user domain port token s s' t h in
      subst IsDistinct (sym c.stored) (
        append-IsDistinct (client.rows s) t d (
          All-both (client.rows s)
            (λ r fresh free. (fresh, λ owner at. free (owner ∙ c.user_id) (at ∙ c.target_port)))
            c.fresh c.free_port))

  delete_one-IsDistinct :
      (id : ℕ) (s : S) (r : DbResult (Unit {0}))
      → (client.delete_one id s).1 ≡ r
      → IsDistinct (client.rows s)
      → IsDistinct (client.rows (client.delete_one id s).0)
  delete_one-IsDistinct id s (DbResult.ok tt) e d =
      subst IsDistinct (sym (client.delete_row id s e))
        (select-IsDistinct (λ r. not (r.id == id)) (client.rows s) d)
  delete_one-IsDistinct id s (DbResult.err x) e d =
      subst IsDistinct (sym (client.delete_failed id s x e)) d

  -- A deletion, whatever its outcome, leaves the ids of the table and the ports of each user
  -- distinct.
  pub delete_tunnel-IsDistinct :
      (user id : ℕ) (s : S) (log : List RouteCall)
      → IsDistinct (client.rows s)
      → IsDistinct (client.rows (delete_tunnel client w user id s log).0)
  unfolding delete_tunnel Repository.get_by_id Repository.delete
  delete_tunnel-IsDistinct user id s log d = go (or_not_found (client.only (λ t. t.id == id) s))
    where
      go :
          (r : Result Tunnel)
          → IsDistinct (
              client.rows
                (elim r as (λ _. S × List RouteCall × Result (Unit {0})) [
                  | err e ↦ (s, log, err e)
                  | ok t ↦
                      after_delete client w
                        (if t.is_enabled && not (t.client_ip == [])
                          then (call_caddy w (removes t.domain) log).0
                          else log)
                        (client.delete_one id s)
                ]).0)
      go (err e) = d
      go (ok t) = delete_one-IsDistinct id s (client.delete_one id s).1 refl d
