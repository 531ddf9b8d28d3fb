-- ===== src/Tunnels/Repository.antt =====
-- internal/repository/tunnel_repository.go over the ent client.
use giraffecloud.Base.{ℕ, Bool, Option, none, some, List, Bytes, ◌==◌, nat_eq, bytes_eq}
use giraffecloud.Tunnels.Store.{
  DnsPropagationStatus, Tunnel, Client, DbResult, TunnelCreate, TunnelUpdateOne, failed, err,
}

-- The domain of a tunnel cannot be updated.
pub record TunnelUpdate : Type 0 where
  pub is_enabled : Option Bool
  pub target_port : Option ℕ
  pub dns_propagation_status : Option DnsPropagationStatus

-- The setters that Create calls.
unfoldable pub create_builder : Tunnel → TunnelCreate
create_builder t = record {
  domain = t.domain;
  token = t.token;
  client_ip = none;
  is_enabled = some t.is_enabled;
  dns_propagation_status = none;
  target_port = t.target_port;
  user_id = t.user_id;
}

unfoldable pub update_builder : TunnelUpdate → TunnelUpdateOne
update_builder u = record {
  client_ip = none;
  is_enabled = u.is_enabled;
  dns_propagation_status = u.dns_propagation_status;
  target_port = u.target_port;
}

unfoldable pub client_ip_builder : Bytes → TunnelUpdateOne
client_ip_builder ip = record {
  client_ip = some ip;
  is_enabled = none;
  dns_propagation_status = none;
  target_port = none;
}

module _ {S : Type 0} (client : Client S) where
  unfoldable pub create : Tunnel → S → S × DbResult Tunnel
  unfolding create_builder
  create t s = client.create (create_builder t) s

  unfoldable pub get_by_id : ℕ → S → DbResult Tunnel
  get_by_id id s = client.only (λ t. t.id == id) s

  unfoldable pub get_by_user_id : ℕ → S → DbResult (List Tunnel)
  get_by_user_id user s = client.all (λ t. t.user_id == user) s

  unfoldable pub get_by_token : Bytes → S → DbResult Tunnel
  get_by_token token s = client.only (λ t. t.token == token) s

  unfoldable pub get_by_domain : Bytes → S → DbResult Tunnel
  get_by_domain domain s = client.only (λ t. t.domain == domain) s

  -- `none` stands for updates of another type than *TunnelUpdate.
  unfoldable pub update : ℕ → Option TunnelUpdate → S → S × DbResult Tunnel
  unfolding update_builder
  update id none s = (s, err failed)
  update id (some u) s = client.update_one id (update_builder u) s

  unfoldable pub delete : ℕ → S → S × DbResult (Unit {0})
  delete id s = client.delete_one id s

  unfoldable pub update_client_ip : ℕ → Bytes → S → S × DbResult Tunnel
  unfolding client_ip_builder
  update_client_ip id ip s = client.update_one id (client_ip_builder ip) s

  unfoldable pub get_active : S → DbResult (List Tunnel)
  get_active s = client.all (λ t. t.is_enabled) s
