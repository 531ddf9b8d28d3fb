-- ===== src/Tunnels/Outside.antt =====
-- What internal/service/tunnel_service.go calls and fails with: its errors, Caddy, DNS, and the tests
-- of a domain that depend on them. The log of calls to Caddy has the newest first.
use giraffecloud.Base.{
  ℕ, Bool, true, false, ◌||◌, Option, none, some, List, [], ◌∷◌, ◌++◌, Bytes, codes, ◌==◌, nat_eq,
  bytes_eq, bytes_beq, any, if◌then◌else◌,
}
use giraffecloud.Tunnels.Store.{
  DnsPropagationStatus, verified, pending_dns, DbError, failed, DbResult,
}
use giraffecloud.Tunnels.Domains.{Env, get_base_domain}

-- The errors of the service: its three sentinels, an error of the repository that is passed on as
-- it is, and any other.
pub data ServiceError : Type 0 where
  validation conflict not_found internal : ServiceError
  repository : DbError → ServiceError

pub data Result {ℓ} (A : Type ℓ) : Type ℓ where
  ok : A → Result A
  err : ServiceError → Result A

infixl 5 ◌>>=◌ ◌>>◌
abbrev pub ◌>>=◌ {ℓ κ} : {A : Type ℓ} {B : Type κ} → Result A → (A → Result B) → Result B
err failure >>= next = err failure
ok found >>= next = next found

abbrev pub ◌>>◌ {ℓ} : {B : Type ℓ} → Result (Unit {0}) → Result B → Result B
check >> next = check >>= λ _. next

-- Fails with the error if the test holds.
abbrev pub refuse_if : Bool → ServiceError → Result (Unit {0})
refuse_if true e = err e
refuse_if false e = ok tt

-- A database error that is wrapped, and one that is told apart when nothing was found.
abbrev pub or_internal {ℓ} : {A : Type ℓ} → DbResult A → Result A
or_internal (DbResult.ok a) = ok a
or_internal (DbResult.err e) = err internal

abbrev pub or_not_found {ℓ} : {A : Type ℓ} → DbResult A → Result A
or_not_found (DbResult.ok a) = ok a
or_not_found (DbResult.err DbError.not_found) = err not_found
or_not_found (DbResult.err failed) = err internal

abbrev pub or_repository {ℓ} : {A : Type ℓ} → DbResult A → Result A
or_repository (DbResult.ok a) = ok a
or_repository (DbResult.err e) = err (repository e)

pub record Config : Type 0 where
  pub base_domain : Bytes
  pub server_ip : Bytes

pub data RouteCall : Type 0 where
  configures : (domain ip : Bytes) (port : ℕ) → RouteCall
  removes : (domain : Bytes) → RouteCall

-- What the service calls: the environment, the resolver (`none` is a failed lookup), HMAC-SHA256,
-- and Caddy, which may be nil and answers each call with success or failure.
pub record World : Type 0 where
  pub env : Env
  pub config : Config
  pub lookup_host : Bytes → Option (List Bytes)
  pub hmac : Bytes → Bytes → Bytes
  pub caddy : Option (RouteCall → Bool)

unfoldable pub is_reserved_domain : World → Bytes → Bool
unfolding bytes_beq
is_reserved_domain w domain =
    let base = if w.config.base_domain == [] then get_base_domain w.env else w.config.base_domain in
    if base == [] || base == codes "localhost"
    then false
    else any (λ reserved. domain == reserved)
        (base ∷ (codes "www." ++ base) ∷ (codes "api." ++ base) ∷ (codes "tunnel." ++ base) ∷ [])

-- Whether one of the addresses of the domain is the server's.
unfoldable pub dns_verified : World → Bytes → Bool
unfolding bytes_beq
dns_verified w domain = elim (w.lookup_host domain) [
  | none ↦ false
  | some ips ↦ any (λ ip. ip == w.config.server_ip) ips
]

-- What a custom domain starts as: enabled and verified, unless the server's address is known and
-- the domain does not point to it.
unfoldable pub custom_state : World → Bytes → Bool × DnsPropagationStatus
unfolding bytes_beq
custom_state w domain =
    if w.config.server_ip == [] || dns_verified w domain
    then (true, verified)
    else (false, pending_dns)

-- The tail of a call: a result and the log of calls to Caddy.
abbrev pub call_caddy : World → RouteCall → List RouteCall → List RouteCall × Bool
call_caddy w call log = elim w.caddy [
  | none ↦ (log, true)
  | some answers ↦ (call ∷ log, answers call)
]
