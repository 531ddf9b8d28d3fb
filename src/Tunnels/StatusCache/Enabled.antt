-- ===== src/Tunnels/StatusCache/Enabled.antt =====
-- What TunnelStatusCache (internal/tunnel/tunnel_status_cache.go) says of a domain.
use giraffecloud.Base.{
  Bool, true, false, ◌&&◌, ◌||◌, Option, none, some, List, [], ◌∷◌, Bytes, ◌==◌, bytes_eq, ◌≡◌,
  refl, sym, ap, ◌∙◌, any, select, All, All-select, All-mono, All-intro, if◌then◌else◌, arith,
  Bool-cases, inl, inr, subst, beq_refl,
}
use giraffecloud.Base.Map.{lookup, insert, lookup-insert, lookup-delete, delete}
use giraffecloud.Tunnels.Store.{Tunnel, Client, DbResult, ok, err}
use giraffecloud.Tunnels.Repository
use giraffecloud.Tunnels.StatusCache.{
  StatusCache, status_of, is_enabled, put_all, refreshed, refreshed_single, refresh_all,
  refresh_single,
}

abbrev pub serves : Bytes → Tunnel → Bool
serves domain t = t.is_enabled && t.domain == domain

status_of-if :
    (c b : Bool) (o : Option Bool)
    → status_of (if c then some b else o) ≡ (if c then b else status_of o)
status_of-if true b o = refl
status_of-if false b o = refl

is_enabled-insert :
    (d e : Bytes) (b : Bool) (cache : StatusCache)
    → is_enabled (insert d b cache) e ≡ (if d == e then b else is_enabled cache e)
unfolding is_enabled
is_enabled-insert d e b cache =
    ap status_of (lookup-insert d e b cache) ∙ status_of-if (d == e) b (lookup e cache)

put_all-enabled :
    (d : Bytes) (ts : List Tunnel) (cache : StatusCache)
    → All (λ t. t.is_enabled ≡ true) ts
    → is_enabled (put_all ts cache) d ≡ (any (serves d) ts || is_enabled cache d)
unfolding put_all
put_all-enabled d [] cache h = refl
put_all-enabled d (t ∷ ts) cache (on, h) = ground (
  arith,
  put_all-enabled d ts (insert t.domain t.is_enabled cache) h,
  is_enabled-insert t.domain d t.is_enabled cache,
  on,
)

any-select-serves :
    (d : Bytes) (ts : List Tunnel)
    → any (serves d) (select (λ t. t.is_enabled) ts) ≡ any (serves d) ts
any-select-serves d [] = refl
any-select-serves d (t ∷ ts) = ground (arith, any-select-serves d ts)

any_of_one :
    (d : Bytes) (ts us : List Tunnel) (t : Tunnel)
    → select (λ u. u.domain == d) ts ≡ t ∷ us
    → t.is_enabled ≡ true
    → any (serves d) ts ≡ true
any_of_one d [] us t e on = cc
any_of_one d (u ∷ ts) us t e on = elim (Bool-cases (u.domain == d)) [
  | inl same ↦
      let first : u ≡ t = ap_head (rw same at e) in
      ground (arith, same, ap (λ v. v.is_enabled) first, on)
  | inr other ↦ ground (arith, any_of_one d ts us t (rw other at e) on)
]
  where
    ap_head : {xs ys : List Tunnel} {x y : Tunnel} → x ∷ xs ≡ y ∷ ys → x ≡ y
    ap_head h = cc

is_enabled-delete :
    (domain : Bytes) (cache : StatusCache) → is_enabled (delete domain cache) domain ≡ false
unfolding is_enabled
is_enabled-delete domain cache = ap status_of (
    lookup-delete domain domain cache
    ∙ ap (λ b. if b then none else lookup domain cache) (beq_refl domain))

nothing : (domain : Bytes) → is_enabled [] domain ≡ false
unfolding is_enabled lookup
nothing domain = refl

module _ {S : Type 0} (client : Client S) where
  -- After a refresh of the whole cache whose query succeeds, a domain counts as enabled exactly
  -- when the table has an enabled tunnel with it, whatever the cache said before.
  pub refresh_all-enabled :
      (s : S) (cache : StatusCache) (domain : Bytes) (ts : List Tunnel)
      → Repository.get_active client s ≡ ok ts
      → is_enabled (refresh_all client s cache) domain ≡ any (serves domain) (client.rows s)
  unfolding refresh_all refreshed Repository.get_active
  refresh_all-enabled s cache domain ts e =
      let rows = client.all_rows (λ t. t.is_enabled) s ts e in
      let on : All (λ t. t.is_enabled ≡ true) ts =
        subst (All (λ t. t.is_enabled ≡ true)) (sym rows) (
          All-mono (select (λ t. t.is_enabled) (client.rows s)) (λ t p. p.0)
            (All-select (λ _. Unit {0}) (λ t. t.is_enabled) (client.rows s)
              (All-intro (λ _. Unit {0}) (client.rows s) (λ _ _ _. tt)))) in
      ap (λ r. is_enabled (refreshed cache r) domain) e
      ∙ put_all-enabled domain ts [] on
      ∙ ground (
        arith,
        ap (any (serves domain)) rows,
        any-select-serves domain (client.rows s),
        nothing domain,
      )

  -- After a refresh of one domain, the domain counts as enabled only if the table has an enabled
  -- tunnel with it.
  pub refresh_single-enabled :
      (s : S) (cache : StatusCache) (domain : Bytes)
      → is_enabled (refresh_single client domain s cache) domain ≡ true
      → any (serves domain) (client.rows s) ≡ true
  unfolding refresh_single Repository.get_by_domain refreshed_single
  refresh_single-enabled s cache domain = go (client.only (λ t. t.domain == domain) s) refl
    where
      go :
          (r : DbResult Tunnel)
          → client.only (λ t. t.domain == domain) s ≡ r
          → is_enabled (refreshed_single cache domain r) domain ≡ true
          → any (serves domain) (client.rows s) ≡ true
      go (err x) e h = cc (h, is_enabled-delete domain cache)
      go (ok t) e h =
          any_of_one domain (client.rows s) [] t (client.only_row (λ u. u.domain == domain) s t e)
            (ground (arith, h, is_enabled-insert domain domain t.is_enabled cache, beq_refl domain))
