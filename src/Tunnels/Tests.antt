-- ===== src/Tunnels/Tests.antt =====
-- The tunnel service (internal/service/tunnel_service.go) over a table in memory.
use giraffecloud.Tunnels.Outside
use giraffecloud.Base.{
  ℕ, Bool, true, false, none, some, List, [], ◌∷◌, ◌++◌, Bytes, codes, ◌≡◌, refl, nat_eq, bytes_eq,
  All, arith, any, select, bytes_beq, if◌then◌else◌, ◌==◌,
}
use giraffecloud.Tunnels.Store.{verified, Tunnel, created_row, pending_dns, updated_row}
use giraffecloud.Tunnels.Memory.{in_memory}
use giraffecloud.Tunnels.Repository
use giraffecloud.Tunnels.Domains.{
  Env, get_base_domain, is_auto_generated_domain, extract_subdomain, extract_subdomain-label,
  generate_subdomain_for_user, subdomain,
}
use giraffecloud.Tunnels.DnsMonitor.{
  awaits_dns, verify_tunnels, verify_each, verify_one, after_enable, enable_builder,
}
use giraffecloud.Tunnels.DnsMonitor.Enabling.{Shown, verify_tunnels-Shown}
use giraffecloud.Tunnels.Outside.{dns_verified, World, Config, Result, validation, conflict}
use giraffecloud.Tunnels.StatusCache.{is_enabled, refresh_all}
use giraffecloud.Tunnels.StatusCache.Enabled.{serves, refresh_all-enabled}
use giraffecloud.Tunnels.Repository.{TunnelUpdate}
use giraffecloud.Tunnels.Service.Ports.{IsDistinct}
use giraffecloud.Tunnels.Service.Histories.{created, updated, here, next, History-IsDistinct}
use giraffecloud.Tunnels.Service.{
  update_tunnel, delete_tunnel, prepare_update, check_update, check_port, check_enable,
  after_update, sync_route, create_tunnel,
}
use giraffecloud.Tunnels.Service
use giraffecloud.Tunnels.Service.Create.{Created, create_tunnel-Created, create_tunnel-awaits_dns}

abbrev env : Env
env = record {
  subdomain_secret = codes "secret";
  base_domain = codes "giraffe.xyz";
  client_url = [];
}

abbrev digest : Bytes
digest =
    1 ∷ 2 ∷ 3 ∷ 4 ∷ 5 ∷ 6 ∷ 7 ∷ 8 ∷ 9 ∷ 10 ∷ 11 ∷ 12 ∷ 13 ∷ 14 ∷ 15 ∷ 16 ∷ 17 ∷ 18 ∷ 19 ∷ 20 ∷ 21
    ∷ 22 ∷ 23 ∷ 24 ∷ 25 ∷ 26 ∷ 27 ∷ 28 ∷ 29 ∷ 30 ∷ 31 ∷ 32 ∷ []

-- The server's address is known, and no domain points to it.
abbrev world : World
world = record {
  env = env;
  config = record { base_domain = codes "giraffe.xyz"; server_ip = codes "9.9.9.9" };
  lookup_host = λ d. some (codes "1.2.3.4" ∷ []);
  hmac = λ key message. digest;
  caddy = none;
}

abbrev custom : Bytes
custom = codes "shop.example"

abbrev row : ℕ → ℕ → ℕ → Bytes → Bool → Tunnel
row id user port domain enabled = record {
  id = id;
  domain = domain;
  token = codes "t";
  client_ip = [];
  is_enabled = enabled;
  dns_propagation_status = verified;
  target_port = port;
  user_id = user;
}

abbrev table : List Tunnel
table = row 1 5 80 (codes "one.example") true ∷ []

create_all : Unit {0}
unfolding create_tunnel Service.check_create Repository.get_by_user_id Repository.create created_row
    get_base_domain is_auto_generated_domain Outside.dns_verified
create_all = tt

subdomain_test :
    generate_subdomain_for_user (λ k m. digest) env 7 ≡ codes "super-granite-3itskzfg.giraffe.xyz"
unfolding generate_subdomain_for_user subdomain
subdomain_test = refl

create_test :
    (create_tunnel in_memory world 5 custom 81 (some (codes "t")) table
      ≡ (table ++ row 2 5 81 custom false ∷ [], Result.ok (row 2 5 81 custom false)))
    × (create_tunnel in_memory world 5 custom 80 (some (codes "t")) table
        ≡ (table, Result.err conflict))
    × (create_tunnel in_memory world 5 (codes "api.giraffe.xyz") 81 (some (codes "t")) table
        ≡ (table, Result.err validation))
unfolding create_all
create_test = (refl, refl, refl)

create_tunnel-Created_example :
    Created in_memory world 5 custom 81 table
      (table ++ row 2 5 81 custom false ∷ [])
      (row 2 5 81 custom false)
create_tunnel-Created_example =
    create_tunnel-Created in_memory world 5 custom 81 (some (codes "t")) table
      (table ++ row 2 5 81 custom false ∷ []) (row 2 5 81 custom false) create_test.0

create_tunnel-awaits_dns_example :
    ((row 2 5 81 custom false).dns_propagation_status ≡ verified)
    × (awaits_dns (row 2 5 81 custom false) ≡ false)
create_tunnel-awaits_dns_example =
    create_tunnel-awaits_dns in_memory world 5 custom 81 (some (codes "t")) table
      (table ++ row 2 5 81 custom false ∷ []) (row 2 5 81 custom false) create_test.0

extract_subdomain-label_example :
    (is_auto_generated_domain env (codes "a" ++ b'.' ∷ get_base_domain env) ≡ true)
    × (extract_subdomain env (codes "a" ++ b'.' ∷ get_base_domain env) ≡ codes "a")
    × ((user : ℕ)
        → extract_subdomain env (generate_subdomain_for_user (λ k m. digest) env user)
          ≡ subdomain (λ k m. digest) env user)
    × (is_auto_generated_domain env custom ≡ true
        → extract_subdomain env custom ++ b'.' ∷ get_base_domain env ≡ custom)
extract_subdomain-label_example = extract_subdomain-label (λ k m. digest) env (codes "a") custom

-- A table with an enabled and a disabled tunnel.
abbrev statuses : List Tunnel
statuses = row 1 5 80 custom true ∷ row 2 5 81 (codes "blog.example") false ∷ []

refresh_all-enabled_example :
    is_enabled (refresh_all in_memory statuses []) (codes "blog.example")
    ≡ any (serves (codes "blog.example")) statuses
unfolding Repository.get_active
refresh_all-enabled_example =
    refresh_all-enabled in_memory statuses [] (codes "blog.example")
      (select (λ t. t.is_enabled) statuses) refl

abbrev to_port : ℕ → TunnelUpdate
to_port port = record { is_enabled = none; target_port = some port; dns_propagation_status = none }

update_test :
    (update_tunnel in_memory world 5 1 (some (to_port 82)) table [] ≡ (
      row 1 5 82 (codes "one.example") true ∷ [],
      [],
      Result.ok (row 1 5 82 (codes "one.example") true),
    ))
unfolding update_tunnel prepare_update check_update check_port check_enable after_update sync_route
    Repository.update Repository.update_builder Repository.get_by_id Repository.get_by_user_id
    updated_row bytes_beq
update_test = refl

-- A tunnel is created, and then the first one is moved to another port.
abbrev two_rows : List Tunnel
two_rows = table ++ row 2 5 81 custom false ∷ []

moved_test :
    (update_tunnel in_memory world 5 1 (some (to_port 82)) two_rows [] ≡ (
      row 1 5 82 (codes "one.example") true ∷ row 2 5 81 custom false ∷ [],
      [],
      Result.ok (row 1 5 82 (codes "one.example") true),
    ))
unfolding update_tunnel prepare_update check_update check_port check_enable after_update sync_route
    Repository.update Repository.update_builder Repository.get_by_id Repository.get_by_user_id
    updated_row bytes_beq
moved_test = refl

History-IsDistinct_example :
    IsDistinct (row 1 5 82 (codes "one.example") true ∷ row 2 5 81 custom false ∷ [])
History-IsDistinct_example =
    History-IsDistinct in_memory world {s = table}
      (next
        (next here (
          created 5 custom 81 (some (codes "t")) table two_rows (row 2 5 81 custom false)
            create_test.0))
        (updated 5 1 (to_port 82) two_rows []
          (row 1 5 82 (codes "one.example") true ∷ row 2 5 81 custom false ∷ []) []
          (row 1 5 82 (codes "one.example") true) (λ _. refl, (λ _. refl, tt)) moved_test))
      (tt, tt)

-- A tunnel whose custom domain points to the server by now, and one whose domain does not.
abbrev waiting : List Tunnel
waiting =
    record (row 1 5 80 custom false) { dns_propagation_status = pending_dns }
    ∷ record (row 2 5 81 (codes "blog.example") false) { dns_propagation_status = pending_dns }
    ∷ []

abbrev resolving : World
resolving = record world {
  lookup_host = λ d. if d == custom then some (codes "9.9.9.9" ∷ []) else none;
}

verify_test :
    (verify_tunnels in_memory resolving waiting []).0
    ≡ row 1 5 80 custom true
      ∷ record (row 2 5 81 (codes "blog.example") false) { dns_propagation_status = pending_dns }
      ∷ []
unfolding verify_tunnels verify_each verify_one after_enable enable_builder awaits_dns dns_verified
    updated_row bytes_beq
verify_test = refl

verify_tunnels-Shown_example :
    All
      (Shown (λ d. dns_verified resolving d ≡ true))
      (verify_tunnels in_memory resolving waiting []).0
verify_tunnels-Shown_example =
    verify_tunnels-Shown (λ d. dns_verified resolving d ≡ true) in_memory resolving waiting []
      (((λ e. omega (arith, e)), tt), (tt, tt)) (λ d h. h) (λ e. cc, (λ e. cc, tt))
