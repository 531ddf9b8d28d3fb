-- ===== src/Tunnels/Service.antt =====
-- The operations of internal/service/tunnel_service.go. The store is behind the ent client; the
-- random source is a parameter.
pub mod Create
pub mod Ports
pub mod Updates
pub mod Lifetimes
pub mod Histories
use giraffecloud.Base.{
  ℕ, Bool, true, false, not, ◌&&◌, ◌||◌, Option, none, some, List, [], ◌∷◌, ◌++◌, Bytes, codes,
  ◌==◌, nat_eq, bytes_eq, bytes_beq, any, if◌then◌else◌,
}
use giraffecloud.Tunnels.Store.{
  DnsPropagationStatus, verified, pending_dns, Tunnel, Client, DbError, failed, DbResult, get_or,
}
use giraffecloud.Tunnels.Store
use giraffecloud.Tunnels.Repository.{TunnelUpdate}
use giraffecloud.Tunnels.Repository
use giraffecloud.Tunnels.Domains.{
  Env, get_base_domain, is_auto_generated_domain, generate_subdomain_for_user,
}
use giraffecloud.Tunnels.Outside.{
  ServiceError, validation, conflict, not_found, internal, repository, Result, ok, err, ◌>>=◌, ◌>>◌,
  refuse_if, or_internal, or_not_found, or_repository, Config, RouteCall, configures, removes,
  World, is_reserved_domain, dns_verified, custom_state, call_caddy,
}

module _ {S : Type 0} (client : Client S) (w : World) where
  -- A user has at most one generated domain, the one that is generated for them.
  unfoldable pub check_auto : ℕ → Bytes → List Tunnel → Result (Bool × DnsPropagationStatus)
  unfolding bytes_beq
  check_auto user domain tunnels = do
    refuse_if (any (λ t. is_auto_generated_domain w.env t.domain) tunnels) conflict
    refuse_if (not (domain == generate_subdomain_for_user w.hmac w.env user)) validation
    ok (true, verified)

  -- The checks of CreateTunnel, in their order, and the state that the tunnel starts in.
  unfoldable pub check_create : ℕ → Bytes → ℕ → S → Result (Bool × DnsPropagationStatus)
  unfolding is_reserved_domain custom_state check_auto
  check_create user domain port s = do
    refuse_if (is_reserved_domain w domain) validation
    tunnels ← or_internal (Repository.get_by_user_id client user s)
    refuse_if (any (λ t. t.target_port == port) tunnels) conflict
    if is_auto_generated_domain w.env domain
        then check_auto user domain tunnels
        else ok (custom_state w domain)

  -- The tunnel that CreateTunnel hands to the repository; the id is the database's to choose.
  unfoldable pub new_tunnel : ℕ → Bytes → ℕ → Bytes → Bool × DnsPropagationStatus → Tunnel
  new_tunnel user domain port token (enabled, status) = record {
    id = 0;
    domain = domain;
    token = token;
    client_ip = [];
    is_enabled = enabled;
    dns_propagation_status = status;
    target_port = port;
    user_id = user;
  }

  abbrev insert_tunnel : S × DbResult Tunnel → S × Result Tunnel
  insert_tunnel (s, r) = (s, or_internal r)

  -- The end of CreateTunnel: the random token, and the row.
  unfoldable pub save_tunnel : Option Bytes → (Bytes → Tunnel) → S → S × Result Tunnel
  save_tunnel none make s = (s, err internal)
  save_tunnel (some token) make s = insert_tunnel (Repository.create client (make token) s)

  -- `token` is what the random source gives, `none` where it fails.
  unfoldable pub create_tunnel : ℕ → Bytes → ℕ → Option Bytes → S → S × Result Tunnel
  unfolding check_create save_tunnel new_tunnel
  create_tunnel user domain port token s = elim (check_create user domain port s) [
    | ok state ↦ save_tunnel token (λ t. new_tunnel user domain port t state) s
    | err e ↦ (s, err e)
  ]

  unfoldable pub list_tunnels : ℕ → S → DbResult (List Tunnel)
  list_tunnels user s = Repository.get_by_user_id client user s

  -- The user is not looked at.
  unfoldable pub get_tunnel : ℕ → ℕ → S → DbResult Tunnel
  get_tunnel user id s = Repository.get_by_id client id s

  -- The first of the user's tunnels with a generated domain.
  unfoldable pub find_auto : List Tunnel → Option Bytes
  find_auto [] = none
  find_auto (t ∷ ts) =
      if is_auto_generated_domain w.env t.domain then some t.domain else find_auto ts

  unfoldable pub get_free_subdomain : ℕ → S → Result (Bytes × Bool)
  unfolding find_auto
  get_free_subdomain user s = do
    tunnels ← or_internal (Repository.get_by_user_id client user s)
    elim (find_auto tunnels) [
      | none ↦ ok (generate_subdomain_for_user w.hmac w.env user, true)
      | some domain ↦ ok (domain, false)
    ]

  abbrev after_delete :
      List RouteCall → S × DbResult (Unit {0}) → S × List RouteCall × Result (Unit {0})
  after_delete log (s, r) = (s, log, or_repository r)

  unfoldable pub delete_tunnel : ℕ → ℕ → S → List RouteCall → S × List RouteCall × Result (Unit {0})
  unfolding bytes_beq
  delete_tunnel user id s log = elim (or_not_found (Repository.get_by_id client id s)) [
    | err e ↦ (s, log, err e)
    | ok t ↦
        after_delete
          (if t.is_enabled && not (t.client_ip == [])
            then (call_caddy w (removes t.domain) log).0
            else log)
          (Repository.delete client id s)
  ]

  -- Whether an update moves the tunnel to another port.
  abbrev pub new_port : Tunnel → TunnelUpdate → Option ℕ
  new_port current u = elim u.target_port [
    | none ↦ none
    | some port ↦ if port == current.target_port then none else some port
  ]

  -- A port that changes must be free among the caller's other tunnels.
  unfoldable pub check_port : ℕ → ℕ → Option ℕ → S → Result (Unit {0})
  check_port user id none s = ok tt
  check_port user id (some port) s = do
    tunnels ← or_internal (Repository.get_by_user_id client user s)
    refuse_if (any (λ t. not (t.id == id) && t.target_port == port) tunnels) conflict

  -- Enabling a custom domain wants it to point to the server, and marks it verified.
  unfoldable pub check_enable : Tunnel → TunnelUpdate → Result TunnelUpdate
  unfolding bytes_beq
  check_enable current u =
      if get_or u.is_enabled false
        && not current.is_enabled
        && (not (is_auto_generated_domain w.env current.domain) && not (w.config.server_ip == []))
      then (if dns_verified w current.domain
          then ok (record u { dns_propagation_status = some verified })
          else err validation)
      else ok u

  unfoldable pub check_update :
      ℕ → ℕ → Tunnel → Option TunnelUpdate → S → Result (Option TunnelUpdate)
  unfolding check_port check_enable
  check_update user id current none s = ok none
  check_update user id current (some u) s = do
    check_port user id (new_port current u) s
    u' ← check_enable current u
    ok (some u')

  -- The route follows the tunnel while a client is connected.
  unfoldable pub sync_route : Tunnel → Tunnel → List RouteCall → List RouteCall
  unfolding bytes_beq
  sync_route current t log =
      if t.client_ip == []
      then log
      else (if t.is_enabled
          then (call_caddy w (configures t.domain t.client_ip t.target_port) log).0
          else (if current.is_enabled then (call_caddy w (removes t.domain) log).0 else log))

  unfoldable pub after_update :
      Tunnel → List RouteCall → S × DbResult Tunnel → S × List RouteCall × Result Tunnel
  unfolding sync_route
  after_update current log (s, DbResult.ok t) = (s, sync_route current t log, ok t)
  after_update current log (s, DbResult.err e) = (s, log, err internal)

  -- The current tunnel and the update that passed the checks.
  unfoldable pub prepare_update :
      ℕ → ℕ → Option TunnelUpdate → S → Result (Tunnel × Option TunnelUpdate)
  unfolding check_update
  prepare_update user id updates s = do
    current ← or_not_found (Repository.get_by_id client id s)
    u ← check_update user id current updates s
    ok (current, u)

  unfoldable pub update_tunnel :
      ℕ → ℕ → Option TunnelUpdate → S → List RouteCall → S × List RouteCall × Result Tunnel
  unfolding prepare_update after_update
  update_tunnel user id updates s log = elim (prepare_update user id updates s) [
    | err e ↦ (s, log, err e)
    | ok (current, u) ↦ after_update current log (Repository.update client id u s)
  ]

  -- The route of a tunnel whose client connected or left; a failed call of Caddy is an error.
  unfoldable pub route_client : Tunnel → Bytes → List RouteCall → List RouteCall × Bool
  unfolding bytes_beq
  route_client t ip log =
      if t.is_enabled
      then call_caddy w
          (configures t.domain (if ip == [] then codes "127.0.0.1" else ip) t.target_port) log
      else call_caddy w (removes t.domain) log

  unfoldable pub after_client_ip :
      Tunnel → Bytes → List RouteCall → S × DbResult Tunnel → S × List RouteCall × Result (Unit {0})
  unfolding route_client
  after_client_ip t ip log (s, DbResult.err e) = (s, log, err internal)
  after_client_ip t ip log (s, DbResult.ok _) =
      let (log', done) = route_client t ip log in (s, log', if done then ok tt else err internal)

  unfoldable pub update_client_ip :
      ℕ → Bytes → S → List RouteCall → S × List RouteCall × Result (Unit {0})
  unfolding after_client_ip
  update_client_ip id ip s log = elim (or_internal (Repository.get_by_id client id s)) [
    | err e ↦ (s, log, err e)
    | ok t ↦ after_client_ip t ip log (Repository.update_client_ip client id ip s)
  ]
