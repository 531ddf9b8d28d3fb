-- ===== src/Tunnels/Service/Create.antt =====
-- CreateTunnel of internal/service/tunnel_service.go: what a success means.
use giraffecloud.Base.{
  ℕ, Bool, true, false, Option, none, some, List, [], ◌∷◌, ◌++◌, Bytes, ◌≡◌, refl, ◌≢◌, ◌⊎◌, inl,
  inr, ap, subst, ◌∙◌, ◌==◌, nat_eq, bytes_eq, bytes_beq_iff, any, All, All-mono, arith,
  nat_beq_iff,
}
use giraffecloud.Tunnels.Store.{
  DnsPropagationStatus, verified, pending_dns, Tunnel, Client, DbError, DbResult, select,
  created_row,
}
use giraffecloud.Tunnels.Store
use giraffecloud.Tunnels.Repository
use giraffecloud.Tunnels.DnsMonitor.{awaits_dns}
use giraffecloud.Tunnels.Domains.{is_auto_generated_domain, generate_subdomain_for_user}
use giraffecloud.Tunnels.Outside.{
  ServiceError, Result, ok, err, World, is_reserved_domain, custom_state,
}
use giraffecloud.Tunnels.Service.{
  check_create, create_tunnel, save_tunnel, new_tunnel, insert_tunnel,
}

-- What no selected row satisfies, no row satisfies that would be selected.
pub any-select :
    (p q : Tunnel → Bool) (ts : List Tunnel)
    → any p (select q ts) ≡ false
    → All (λ t. q t ≡ true → p t ≡ false) ts
any-select p q [] h = tt
any-select p q (t ∷ ts) h = (λ e. ground arith, any-select p q ts (ground arith))

module _ {S : Type 0} (client : Client S) (w : World) where
  -- What the checks of CreateTunnel have seen, with the user's tunnels and the initial state.
  record Checked (user : ℕ) (domain : Bytes) (port : ℕ) (s : S)
      (state : Bool × DnsPropagationStatus) : Type 0 where
    tunnels : List Tunnel
    open_name : is_reserved_domain w domain ≡ false
    listed : Repository.get_by_user_id client user s ≡ DbResult.ok tunnels
    free_port : any (λ t. t.target_port == port) tunnels ≡ false
    kind :
        ((is_auto_generated_domain w.env domain ≡ true)
          × (any (λ t. is_auto_generated_domain w.env t.domain) tunnels ≡ false)
          × (domain ≡ generate_subdomain_for_user w.hmac w.env user)
          × (state ≡ (true, verified)))
        ⊎ ((is_auto_generated_domain w.env domain ≡ false) × (state ≡ custom_state w domain))

  check_create-Checked :
      (user : ℕ) (domain : Bytes) (port : ℕ) (s : S) (state : Bool × DnsPropagationStatus)
      → check_create client w user domain port s ≡ ok state
      → Checked user domain port s state
  unfolding check_create
  check_create-Checked user domain port s state h =
      go (Repository.get_by_user_id client user s) refl
    where
      go :
          (r : DbResult (List Tunnel))
          → Repository.get_by_user_id client user s ≡ r
          → Checked user domain port s state
      go (DbResult.ok ts) e = record {
        tunnels = ts;
        open_name = ground arith;
        listed = e;
        free_port = ground arith;
        kind = ground (arith, bytes_beq_iff domain (generate_subdomain_for_user w.hmac w.env user));
      }
      go (DbResult.err x) e = absurd (ground arith)

  -- A success went through the checks, and its row is the one that the client created.
  record Saved (user : ℕ) (domain : Bytes) (port : ℕ) (s s' : S) (t : Tunnel) : Type 0 where
    state : Bool × DnsPropagationStatus
    token : Bytes
    checked : Checked user domain port s state
    created :
        Repository.create client (new_tunnel client w user domain port token state) s
        ≡ (s', DbResult.ok t)

  create_tunnel-Saved :
      (user : ℕ) (domain : Bytes) (port : ℕ) (token : Option Bytes) (s s' : S) (t : Tunnel)
      → create_tunnel client w user domain port token s ≡ (s', ok t)
      → Saved user domain port s s' t
  unfolding create_tunnel save_tunnel
  create_tunnel-Saved user domain port none s s' t h = absurd (ground arith)
  create_tunnel-Saved user domain port (some token) s s' t h =
      go (check_create client w user domain port s) refl
    where
      go :
          (r : Result (Bool × DnsPropagationStatus))
          → check_create client w user domain port s ≡ r
          → Saved user domain port s s' t
      go (ok state) e = record {
        state = state;
        token = token;
        checked = check_create-Checked user domain port s state e;
        created = ground arith;
      }
      go (err x) e = absurd (ground arith)

  -- What a created tunnel is.
  pub record Created (user : ℕ) (domain : Bytes) (port : ℕ) (s s' : S) (t : Tunnel) : Type 0 where
    pub open_name : is_reserved_domain w domain ≡ false
    pub stored : client.rows s' ≡ client.rows s ++ t ∷ []
    pub fresh : All (λ r. r.id ≢ t.id) (client.rows s)
    pub user_id : t.user_id ≡ user
    pub domain_kept : t.domain ≡ domain
    pub target_port : t.target_port ≡ port
    pub free_port : All (λ r. r.user_id ≡ user → r.target_port ≢ port) (client.rows s)
    pub kind :
        ((is_auto_generated_domain w.env domain ≡ true)
          × (domain ≡ generate_subdomain_for_user w.hmac w.env user)
          × All
              (λ r. r.user_id ≡ user → is_auto_generated_domain w.env r.domain ≡ false)
              (client.rows s)
          × (t.is_enabled ≡ true))
        ⊎ ((is_auto_generated_domain w.env domain ≡ false)
            × (t.is_enabled ≡ (custom_state w domain).0))

  abbrev of_user : ℕ → Tunnel → Bool
  of_user user t = t.user_id == user

  -- A tunnel is created only under a name that is not reserved, on a port that none of the user's
  -- tunnels has, and with a generated domain only if it is the user's own and their first one. Its
  -- row is appended to the table with a new id and that user, domain and port; it is enabled, unless
  -- its custom domain does not point to the known address of the server.
  pub create_tunnel-Created :
      (user : ℕ) (domain : Bytes) (port : ℕ) (token : Option Bytes) (s s' : S) (t : Tunnel)
      → create_tunnel client w user domain port token s ≡ (s', ok t)
      → Created user domain port s s' t
  unfolding new_tunnel created_row Repository.create_builder Repository.create
      Repository.get_by_user_id
  create_tunnel-Created user domain port token s s' t h =
      let v = create_tunnel-Saved user domain port token s s' t h in
      let made = Repository.create_builder (new_tunnel client w user domain port v.token v.state) in
      let (row, stored, fresh) =
        client.create_row made s t (ap (λ (r : S × DbResult Tunnel). r.1) v.created) in
      let listed = client.all_rows (of_user user) s v.checked.tunnels v.checked.listed in
      record {
        open_name = v.checked.open_name;
        stored =
            subst (λ x. client.rows x ≡ client.rows s ++ t ∷ [])
              (ap (λ (r : S × DbResult Tunnel). r.0) v.created) stored;
        fresh = fresh;
        user_id = ap (λ (x : Tunnel). x.user_id) row;
        domain_kept = ap (λ (x : Tunnel). x.domain) row;
        target_port = ap (λ (x : Tunnel). x.target_port) row;
        free_port =
            All-mono (client.rows s)
              (λ r f e q.
                let taken = (nat_beq_iff r.target_port port).1 q in
                let free = f ((nat_beq_iff r.user_id user).1 e) in cc)
              (any-select (λ r. r.target_port == port) (of_user user) (client.rows s)
                (subst (λ ts. any (λ r. r.target_port == port) ts ≡ false) listed
                  v.checked.free_port));
        kind = elim v.checked.kind [
          | inl (auto, first, own, e) ↦ inl (
            auto,
            own,
            All-mono (client.rows s) (λ r f e. f ((nat_beq_iff r.user_id user).1 e))
                (any-select (λ r. is_auto_generated_domain w.env r.domain) (of_user user)
                  (client.rows s)
                  (subst (λ ts. any (λ r. is_auto_generated_domain w.env r.domain) ts ≡ false)
                    listed first)),
            ap (λ (x : Tunnel). x.is_enabled) row ∙ ap (λ (x : Bool × DnsPropagationStatus). x.0) e,
          )
          | inr (custom, e) ↦ inr (
            custom,
            ap (λ (x : Tunnel). x.is_enabled) row ∙ ap (λ (x : Bool × DnsPropagationStatus). x.0) e,
          )
        ];
      }

  -- The row of every created tunnel has the status verified, and the monitor, which asks for pending
  -- ones, does not pick it up, whatever the state of its DNS records.
  pub create_tunnel-awaits_dns :
      (user : ℕ) (domain : Bytes) (port : ℕ) (token : Option Bytes) (s s' : S) (t : Tunnel)
      → create_tunnel client w user domain port token s ≡ (s', ok t)
      → (t.dns_propagation_status ≡ verified) × (awaits_dns t ≡ false)
  unfolding created_row Repository.create_builder Repository.create awaits_dns
  create_tunnel-awaits_dns user domain port token s s' t h =
      let v = create_tunnel-Saved user domain port token s s' t h in
      let made = Repository.create_builder (new_tunnel client w user domain port v.token v.state) in
      let (row, _, _) =
        client.create_row made s t (ap (λ (r : S × DbResult Tunnel). r.1) v.created) in
      let status = ap (λ (x : Tunnel). x.dns_propagation_status) row in
      (status, ground (arith, status))

  insert_failed :
      (r : S × DbResult Tunnel) (s' : S) (e : ServiceError)
      → insert_tunnel client w r ≡ (s', err e)
      → (x : DbError) × (r.1 ≡ DbResult.err x) × (r.0 ≡ s')
  insert_failed (s, DbResult.ok t) s' e h = absurd (ground arith)
  insert_failed (s, DbResult.err x) s' e h = (x, refl, ground arith)

  -- A refused creation leaves the table as it was.
  pub create_tunnel-refused :
      (user : ℕ) (domain : Bytes) (port : ℕ) (token : Option Bytes) (s s' : S) (e : ServiceError)
      → create_tunnel client w user domain port token s ≡ (s', err e)
      → client.rows s' ≡ client.rows s
  unfolding create_tunnel save_tunnel Repository.create
  create_tunnel-refused user domain port none s s' e h = ground arith
  create_tunnel-refused user domain port (some token) s s' e h =
      go (check_create client w user domain port s) refl
    where
      made : Bool × DnsPropagationStatus → Store.TunnelCreate
      made state = Repository.create_builder (new_tunnel client w user domain port token state)

      go :
          (r : Result (Bool × DnsPropagationStatus))
          → check_create client w user domain port s ≡ r
          → client.rows s' ≡ client.rows s
      go (ok state) q =
          let (x, failed, same) =
            insert_failed (client.create (made state) s) s' e (ground arith) in
          subst (λ y. client.rows y ≡ client.rows s) same
            (client.create_failed (made state) s x failed)
      go (err x) q = ground arith
