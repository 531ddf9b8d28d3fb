-- ===== src/Tunnels/DnsMonitor.antt =====
-- internal/tasks/dns_monitor.go: one run of the check of tunnels that wait for their DNS records.
pub mod Enabling
use giraffecloud.Base.{
  Bool, true, false, not, ◌&&◌, none, some, List, [], ◌∷◌, ◌==◌, bytes_eq, bytes_beq, if◌then◌else◌,
}
use giraffecloud.Tunnels.Store.{
  DnsPropagationStatus, verified, pending_dns, Tunnel, Client, DbResult, ok, err, TunnelUpdateOne,
}
use giraffecloud.Tunnels.Outside.{World, RouteCall, configures, call_caddy, dns_verified}

abbrev pub is_pending : DnsPropagationStatus → Bool
is_pending pending_dns = true
is_pending verified = false

-- The query of verifyTunnels.
unfoldable pub awaits_dns : Tunnel → Bool
awaits_dns t = is_pending t.dns_propagation_status && not t.is_enabled

-- The setters of the update.
unfoldable pub enable_builder : TunnelUpdateOne
enable_builder = record {
  client_ip = none;
  is_enabled = some true;
  dns_propagation_status = some verified;
  target_port = none;
}

module _ {S : Type 0} (client : Client S) (w : World) where
  unfoldable pub after_enable : Tunnel → List RouteCall → S × DbResult Tunnel → S × List RouteCall
  unfolding bytes_beq
  after_enable t log (s, err e) = (s, log)
  after_enable t log (s, ok _) = (
    s,
    if t.client_ip == []
        then log
        else (call_caddy w (configures t.domain t.client_ip t.target_port) log).0,
  )

  -- One turn of the loop.
  unfoldable pub verify_one : Tunnel → S → List RouteCall → S × List RouteCall
  unfolding after_enable enable_builder dns_verified
  verify_one t s log =
      if dns_verified w t.domain
      then after_enable t log (client.update_one t.id enable_builder s)
      else (s, log)

  -- The loop over the tunnels that wait.
  unfoldable pub verify_each : List Tunnel → S → List RouteCall → S × List RouteCall
  unfolding verify_one
  verify_each [] s log = (s, log)
  verify_each (t ∷ ts) s log = let (s', log') = verify_one t s log in verify_each ts s' log'

  unfoldable pub verify_tunnels : S → List RouteCall → S × List RouteCall × DbResult (Unit {0})
  unfolding awaits_dns verify_each
  verify_tunnels s log = elim (client.all awaits_dns s) [
    | err e ↦ (s, log, err e)
    | ok ts ↦ let (s', log') = verify_each ts s log in (s', log', ok tt)
  ]
