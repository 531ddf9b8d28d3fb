-- ===== src/Auth/Granted.antt =====
-- What a success of AuthenticateTunnelByToken (internal/tunnel/auth_helpers.go) means.
use mathlib.Core.Option.{some-injective}
use giraffecloud.Base.{
  ℕ, Bool, true, not, ◌&&◌, Option, none, some, List, [], ◌∷◌, Bytes, ◌==◌, nat_eq, bytes_eq,
  bytes_beq_iff, any, ◌≡◌, ◌≢◌, ◌⊎◌, inl, inr, refl, sym, subst, ap, ◌∙◌, All, All-select, select,
  get_elem?, All-intro, All-get_elem?, arith, Bool-cases, nat_beq_iff,
}
use giraffecloud.Tunnels.Store.{Tunnel, Client, DbResult}
use giraffecloud.Tunnels.Repository
use giraffecloud.Auth.Tokens.{Token, TokenClient, is_nil, get_by_token}
use giraffecloud.Auth.Tunnels.{
  ok, find_domain, only_enabled, matched, choose_enabled, choose_tunnel, with_tunnels, with_token,
  authenticate_tunnel_by_token,
}

abbrev At : List Tunnel → Tunnel → Type 0
At ts t = (i : ℕ) × (get_elem? ts i ≡ some t)

-- The tunnel is one of the list, enabled, and the one asked for: that of the domain, or the only
-- enabled one if no domain was given.
pub record Chosen (domain : Bytes) (tunnels : List Tunnel) (t : Tunnel) : Type 0 where
  pub enabled : t.is_enabled ≡ true
  pub member : At tunnels t
  pub asked :
      ((domain ≢ []) × (t.domain ≡ domain))
      ⊎ ((domain ≡ []) × (select (λ u. u.is_enabled) tunnels ≡ t ∷ []))

find_domain_lem :
    (P : Tunnel → Type 0) (domain : Bytes) (ts : List Tunnel) (t : Tunnel)
    → All P ts
    → find_domain domain ts ≡ some t
    → P t × (t.domain ≡ domain)
unfolding find_domain
find_domain_lem P domain [] t h e = cc
find_domain_lem P domain (u ∷ ts) t (p, h) e = elim (Bool-cases (u.domain == domain)) [
  | inl same ↦
      let first : u ≡ t = some-injective _ _ (rw same at e) in
      (subst P first p, ap (λ v. v.domain) (sym first) ∙ (bytes_beq_iff u.domain domain).0 same)
  | inr other ↦ find_domain_lem P domain ts t h (rw other at e)
]

only_enabled_lem : (ts : List Tunnel) (t : Tunnel) → only_enabled ts ≡ ok t → ts ≡ t ∷ []
unfolding only_enabled
only_enabled_lem [] t h = cc
only_enabled_lem (u ∷ []) t h = cc
only_enabled_lem (u ∷ v ∷ ts) t h = cc

matched_lem :
    (domain : Bytes) (tunnels : List Tunnel) (o : Option Tunnel) (t : Tunnel)
    → matched domain tunnels o ≡ ok t
    → o ≡ some t
unfolding matched
matched_lem domain tunnels (some u) t h = cc
matched_lem domain tunnels none t h =
    elim (Bool-cases (any (λ v. v.domain == domain && not v.is_enabled) tunnels)) [
      | inl e ↦ let k = rw e at h in cc
      | inr e ↦ let k = rw e at h in cc
    ]

choose_enabled-Chosen :
    (domain : Bytes) (tunnels en : List Tunnel) (t : Tunnel)
    → en ≡ select (λ u. u.is_enabled) tunnels
    → choose_enabled domain tunnels en ≡ ok t
    → Chosen domain tunnels t
unfolding choose_enabled
choose_enabled-Chosen domain tunnels [] t same h = cc
choose_enabled-Chosen domain tunnels (u ∷ ts) t same h =
    let all : All (λ v. (v.is_enabled ≡ true) × At tunnels v) (u ∷ ts) =
      subst (All (λ v. (v.is_enabled ≡ true) × At tunnels v)) (sym same) (
        All-select (At tunnels) (λ v. v.is_enabled) tunnels
          (All-intro (At tunnels) tunnels (λ i x e. (i, e)))) in
    elim (Bool-cases (domain == [])) [
      | inl e ↦
          let one = only_enabled_lem (u ∷ ts) t (rw e at h) in
          let (on, at) = (subst (All (λ v. (v.is_enabled ≡ true) × At tunnels v)) one all).0 in
          record {
            enabled = on;
            member = at;
            asked = inr ((bytes_beq_iff domain []).0 e, sym same ∙ one);
          }
      | inr e ↦
          let found = matched_lem domain tunnels (find_domain domain (u ∷ ts)) t (rw e at h) in
          let ((on, at), name) =
            find_domain_lem (λ v. (v.is_enabled ≡ true) × At tunnels v) domain (u ∷ ts) t all
              found in
          record {
            enabled = on;
            member = at;
            asked = inl (λ empty. ground (arith, e, (bytes_beq_iff domain []).1 empty), name);
          }
    ]

choose_tunnel-Chosen :
    (domain : Bytes) (tunnels : List Tunnel) (t : Tunnel)
    → choose_tunnel domain tunnels ≡ ok t
    → Chosen domain tunnels t
unfolding choose_tunnel
choose_tunnel-Chosen domain [] t h = cc
choose_tunnel-Chosen domain (u ∷ ts) t h =
    choose_enabled-Chosen domain (u ∷ ts) (select (λ v. v.is_enabled) (u ∷ ts)) t refl h

-- The one selected element satisfies the test.
selected_one {ℓ} :
    {A : Type ℓ} (p : A → Bool) (xs ys : List A) (x : A) (i : ℕ)
    → select p xs ≡ ys
    → get_elem? ys i ≡ some x
    → p x ≡ true
selected_one {A = A} p xs ys x i e at =
    (All-get_elem? (λ y. (p y ≡ true) × Unit {0}) ys i
      (subst (All (λ y. (p y ≡ true) × Unit {0})) e
        (All-select (λ _. Unit {0}) p xs (All-intro (λ _. Unit {0}) xs (λ _ _ _. tt))))
      at).0

module _ {S T : Type 0} (tokens : TokenClient S) (tunnels : Client T) (hash : Bytes → Bytes) where
  -- The token is a row that is not revoked and has the hash; the tunnel is the owner's.
  pub record Granted (token domain : Bytes) (s : S) (store : T) (t : Tunnel) : Type 0 where
    pub api : Token
    pub stored_hash : api.token_hash ≡ hash token
    pub live : is_nil api.revoked_at ≡ true
    pub row :
        select (λ u. u.token_hash == hash token && is_nil u.revoked_at) (tokens.rows s) ≡ api ∷ []
    pub owner : t.user_id ≡ api.user_id
    pub chosen : Chosen domain (select (λ u. u.user_id == api.user_id) (tunnels.rows store)) t

  with_token-Granted :
      (token domain : Bytes) (s : S) (store : T) (t : Tunnel) (found : DbResult Token)
      → get_by_token tokens hash token s ≡ found
      → with_token tokens tunnels hash domain store found ≡ ok t
      → Granted token domain s store t
  unfolding with_token with_tunnels get_by_token Repository.get_by_user_id
  with_token-Granted token domain s store t (DbResult.err e) found h = cc
  with_token-Granted token domain s store t (DbResult.ok api) found h =
      listed (tunnels.all mine store) refl h
    where
      mine : Tunnel → Bool
      mine = λ u. u.user_id == api.user_id

      known : Token → Bool
      known = λ u. u.token_hash == hash token && is_nil u.revoked_at

      listed :
          (r : DbResult (List Tunnel))
          → tunnels.all mine store ≡ r
          → with_tunnels tokens tunnels hash domain r ≡ ok t
          → Granted token domain s store t
      listed (DbResult.err e) all k = cc
      listed (DbResult.ok ts) all k =
          let rows = tunnels.all_rows mine store ts all in
          let row = tokens.only_row known s api found in
          let accepted = selected_one known (tokens.rows s) (api ∷ []) api 0 row refl in
          let c = choose_tunnel-Chosen domain ts t k in
          let mine_too =
            selected_one mine (tunnels.rows store) ts t c.member.0 (sym rows) c.member.1 in
          record {
            api = api;
            stored_hash = (bytes_beq_iff api.token_hash (hash token)).0 (ground (arith, accepted));
            live = ground (arith, accepted);
            row = row;
            owner = (nat_beq_iff t.user_id api.user_id).0 mine_too;
            chosen = subst (λ us. Chosen domain us t) rows c;
          }

  -- A tunnel that is opened by a token belongs to the user of a stored token that has the hash of
  -- the given one and is not revoked; it is one of that user's tunnels, enabled, and the one asked
  -- for: that of the given domain, or the user's only enabled one if no domain was given.
  pub authenticate_tunnel_by_token-Granted :
      (token domain : Bytes) (s : S) (store : T) (t : Tunnel)
      → authenticate_tunnel_by_token tokens tunnels hash token domain s store ≡ ok t
      → Granted token domain s store t
  unfolding authenticate_tunnel_by_token
  authenticate_tunnel_by_token-Granted token domain s store t h =
      with_token-Granted token domain s store t (get_by_token tokens hash token s) refl h
