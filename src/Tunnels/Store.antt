-- ===== src/Tunnels/Store.antt =====
-- The tunnels table as the program sees it through the client that ent generates: the schema of
-- internal/db/ent/schema/tunnel.go, and the calls of the client with what their documentation says.
pub use giraffecloud.Base.{select}
use giraffecloud.Base.{
  ℕ, Bool, true, Option, none, some, List, [], ◌∷◌, ◌++◌, Bytes, ◌==◌, nat_eq, not, ◌≡◌, ◌≢◌, All,
  if◌then◌else◌,
}

pub data DnsPropagationStatus : Type 0 where
  verified pending_dns : DnsPropagationStatus

pub record Tunnel : Type 0 where
  pub id : ℕ
  pub domain : Bytes
  pub token : Bytes
  pub client_ip : Bytes
  pub is_enabled : Bool
  pub dns_propagation_status : DnsPropagationStatus
  pub target_port : ℕ
  pub user_id : ℕ

-- The builder that Tunnel.Create gives; a field that no setter was called for is `none`.
pub record TunnelCreate : Type 0 where
  pub domain : Bytes
  pub token : Bytes
  pub client_ip : Option Bytes
  pub is_enabled : Option Bool
  pub dns_propagation_status : Option DnsPropagationStatus
  pub target_port : ℕ
  pub user_id : ℕ

-- The builder that Tunnel.UpdateOneID gives.
pub record TunnelUpdateOne : Type 0 where
  pub client_ip : Option Bytes
  pub is_enabled : Option Bool
  pub dns_propagation_status : Option DnsPropagationStatus
  pub target_port : Option ℕ

abbrev pub get_or {ℓ} : {A : Type ℓ} → Option A → A → A
get_or none d = d
get_or (some a) d = a

-- The row that a builder saves, with the defaults of the schema.
unfoldable pub created_row : ℕ → TunnelCreate → Tunnel
created_row id c = record {
  id = id;
  domain = c.domain;
  token = c.token;
  client_ip = get_or c.client_ip [];
  is_enabled = get_or c.is_enabled true;
  dns_propagation_status = get_or c.dns_propagation_status verified;
  target_port = c.target_port;
  user_id = c.user_id;
}

unfoldable pub updated_row : TunnelUpdateOne → Tunnel → Tunnel
updated_row u t = record t {
  client_ip = get_or u.client_ip t.client_ip;
  is_enabled = get_or u.is_enabled t.is_enabled;
  dns_propagation_status = get_or u.dns_propagation_status t.dns_propagation_status;
  target_port = get_or u.target_port t.target_port;
}

pub data DbError : Type 0 where
  not_found failed : DbError

pub data DbResult {ℓ} (A : Type ℓ) : Type ℓ where
  ok : A → DbResult A
  err : DbError → DbResult A

abbrev pub update_where : ℕ → (Tunnel → Tunnel) → List Tunnel → List Tunnel
update_where id f [] = []
update_where id f (t ∷ ts) = (if t.id == id then f t else t) ∷ update_where id f ts

-- The client over a store `S`. `rows` is the content of the table; the laws are those of the
-- documented calls, each of which may fail and then changes nothing.
pub record Client (S : Type 0) : Type 0 where
  pub rows : S → List Tunnel
  pub all : (Tunnel → Bool) → S → DbResult (List Tunnel)
  pub only : (Tunnel → Bool) → S → DbResult Tunnel
  pub create : TunnelCreate → S → S × DbResult Tunnel
  pub update_one : ℕ → TunnelUpdateOne → S → S × DbResult Tunnel
  pub delete_one : ℕ → S → S × DbResult (Unit {0})
  pub all_rows :
      (p : Tunnel → Bool) (s : S) (ts : List Tunnel) → all p s ≡ ok ts → ts ≡ select p (rows s)
  pub only_row :
      (p : Tunnel → Bool) (s : S) (t : Tunnel) → only p s ≡ ok t → select p (rows s) ≡ t ∷ []
  pub create_row :
      (c : TunnelCreate) (s : S) (t : Tunnel)
      → (create c s).1 ≡ ok t
      → (t ≡ created_row t.id c)
        × (rows (create c s).0 ≡ rows s ++ t ∷ [])
        × All (λ r. r.id ≢ t.id) (rows s)
  pub create_failed :
      (c : TunnelCreate) (s : S) (e : DbError)
      → (create c s).1 ≡ err e
      → rows (create c s).0 ≡ rows s
  pub update_row :
      (id : ℕ) (u : TunnelUpdateOne) (s : S) (t : Tunnel)
      → (update_one id u s).1 ≡ ok t
      → (rows (update_one id u s).0 ≡ update_where id (updated_row u) (rows s))
        × (select (λ r. r.id == id) (rows (update_one id u s).0) ≡ t ∷ [])
  pub update_failed :
      (id : ℕ) (u : TunnelUpdateOne) (s : S) (e : DbError)
      → (update_one id u s).1 ≡ err e
      → rows (update_one id u s).0 ≡ rows s
  pub delete_row :
      (id : ℕ) (s : S)
      → (delete_one id s).1 ≡ ok tt
      → rows (delete_one id s).0 ≡ select (λ r. not (r.id == id)) (rows s)
  pub delete_failed :
      (id : ℕ) (s : S) (e : DbError)
      → (delete_one id s).1 ≡ err e
      → rows (delete_one id s).0 ≡ rows s
