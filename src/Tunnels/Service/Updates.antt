-- ===== src/Tunnels/Service/Updates.antt =====
-- UpdateTunnel of internal/service/tunnel_service.go and the ports of a user.
use giraffecloud.Base.{
  ℕ, Bool, true, false, not, ◌&&◌, Option, none, some, List, ◌==◌, nat_eq, nat_beq_iff, ◌≡◌, ◌≢◌,
  refl, sym, ap, subst, ◌∙◌, any, All, All-mono, arith, Bool-cases, inl, inr, if◌then◌else◌,
  bytes_eq,
}
use giraffecloud.Tunnels.Store.{verified, Tunnel, Client, DbError, DbResult, get_or, updated_row}
use giraffecloud.Tunnels.Repository.{TunnelUpdate, update_builder}
use giraffecloud.Tunnels.Repository
use giraffecloud.Tunnels.Outside.{
  ServiceError, Result, ok, err, World, RouteCall, ◌>>=◌, dns_verified, or_not_found, or_internal,
  refuse_if, conflict, validation,
}
use giraffecloud.Tunnels.Service.{
  update_tunnel, prepare_update, check_update, check_port, check_enable, after_update, new_port,
}
use giraffecloud.Tunnels.Service.Create.{any-select}
use giraffecloud.Tunnels.Service.Ports.{
  IsDistinct, Free, only-row, others-Free, selected-All, update_where-IsDistinct,
}

module _ {S : Type 0} (client : Client S) (w : World) where
  bind-ok :
      {A B : Type 0} (r : Result A) (f : A → Result B) (b : B)
      → (r >>= f) ≡ ok b
      → (a : A) × (r ≡ ok a) × (f a ≡ ok b)
  bind-ok (ok a) f b h = (a, refl, h)
  bind-ok (err e) f b h = cc

  found : {A : Type 0} (r : DbResult A) (a : A) → or_not_found r ≡ ok a → r ≡ DbResult.ok a
  found (DbResult.ok b) a h = cc
  found (DbResult.err DbError.not_found) a h = cc
  found (DbResult.err DbError.failed) a h = cc

  passed : (b : Bool) (e : ServiceError) → refuse_if b e ≡ ok tt → b ≡ false
  passed true e h = cc
  passed false e h = refl

  listed : {A : Type 0} (r : DbResult A) (a : A) → or_internal r ≡ ok a → r ≡ DbResult.ok a
  listed (DbResult.ok b) a h = cc
  listed (DbResult.err x) a h = cc

  -- The port of the updated row is free among the user's other tunnels.
  check_port-Free :
      (user id port : ℕ) (s : S)
      → check_port client w user id (some port) s ≡ ok tt
      → All (λ r. r.id ≢ id → r.user_id ≡ user → r.target_port ≢ port) (client.rows s)
  unfolding check_port Repository.get_by_user_id
  check_port-Free user id port s h =
      let (ts, e, k) =
        bind-ok (or_internal (client.all (λ t. t.user_id == user) s))
          (λ ts. refuse_if (any (λ t. not (t.id == id) && t.target_port == port) ts) conflict) tt
          h in
      let rows = client.all_rows (λ t. t.user_id == user) s ts (listed _ ts e) in
      All-mono (client.rows s)
        (λ r f ne owner at.
          let free = f ((nat_beq_iff r.user_id user).1 owner) in ground (arith, free, ne, at))
        (any-select (λ t. not (t.id == id) && t.target_port == port) (λ t. t.user_id == user)
          (client.rows s)
          (subst (λ us. any (λ t. not (t.id == id) && t.target_port == port) us ≡ false) rows
            (passed _ conflict k)))

  enabled-port :
      (c b : Bool) (u u' : TunnelUpdate)
      → (if c
          then (if b
              then ok (record u { dns_propagation_status = some verified })
              else err validation)
          else ok u)
        ≡ ok u'
      → u'.target_port ≡ u.target_port
  enabled-port true true u u' h =
      let e : record u { dns_propagation_status = some verified } ≡ u' = cc in
      sym (ap (λ (x : TunnelUpdate). x.target_port) e)
  enabled-port true false u u' h = cc
  enabled-port false b u u' h =
      let e : u ≡ u' = cc in sym (ap (λ (x : TunnelUpdate). x.target_port) e)

  check_enable-port :
      (current : Tunnel) (u u' : TunnelUpdate)
      → check_enable client w current u ≡ ok u'
      → u'.target_port ≡ u.target_port
  unfolding check_enable
  check_enable-port current u u' h = enabled-port _ (dns_verified w current.domain) u u' h

  updated_ok :
      (current : Tunnel) (log : List RouteCall) (s' : S) (log' : List RouteCall) (t : Tunnel)
      (r : S × DbResult Tunnel)
      → after_update client w current log r ≡ (s', log', ok t)
      → (r.1 ≡ DbResult.ok t) × (r.0 ≡ s')
  unfolding after_update
  updated_ok current log s' log' t (x, DbResult.ok v) h = (cc, cc)
  updated_ok current log s' log' t (x, DbResult.err y) h = cc

  -- The port after the update is free among the user's other tunnels.
  module _ (user id : ℕ) (current : Tunnel) (s : S) (d : IsDistinct (client.rows s))
      (owner : current.user_id ≡ user)
      (e : client.only (λ t. t.id == id) s ≡ DbResult.ok current) where
    kept-Free : All (Free id user current.target_port (λ t. t)) (client.rows s)
    kept-Free =
        subst (λ n. All (Free id n current.target_port (λ t. t)) (client.rows s)) owner
          (others-Free id (client.rows s) current d (client.only_row (λ t. t.id == id) s current e))

    new_port-Free :
        (o : Option ℕ)
        → check_port client w user id
            (elim o [
              | none ↦ none
              | some port ↦ if port == current.target_port then none else some port
            ])
            s
          ≡ ok tt
        → All (Free id user (get_or o current.target_port) (λ t. t)) (client.rows s)
    new_port-Free none h = kept-Free
    new_port-Free (some port) h = elim (Bool-cases (port == current.target_port)) [
      | inl same ↦
          subst (λ n. All (Free id user n (λ t. t)) (client.rows s))
            (sym ((nat_beq_iff port current.target_port).0 same)) kept-Free
      | inr other ↦ check_port-Free user id port s (rw other at h)
    ]

    check_update-Free :
        (u : TunnelUpdate) (o : Option TunnelUpdate)
        → check_update client w user id current (some u) s ≡ ok o
        → (u' : TunnelUpdate) × (o ≡ some u')
          × All (Free id user (get_or u'.target_port current.target_port) (λ t. t)) (client.rows s)
    unfolding check_update
    check_update-Free u o h =
        let (_, port, k) =
          bind-ok (check_port client w user id (new_port client w current u) s)
            (λ _. check_enable client w current u >>= λ u'. ok (some u')) o h in
        let (u', enabled, same) =
          bind-ok (check_enable client w current u) (λ u'. ok (some u')) o k in
        let kept = check_enable-port current u u' enabled in
        (
          u',
          cc (same),
          subst (λ n. All (Free id user (get_or n current.target_port) (λ t. t)) (client.rows s))
              (sym kept) (new_port-Free u.target_port port),
        )

    updated-IsDistinct :
        (u' : TunnelUpdate) (log : List RouteCall) (s' : S) (log' : List RouteCall) (t : Tunnel)
        → All (Free id user (get_or u'.target_port current.target_port) (λ t. t)) (client.rows s)
        → after_update client w current log (client.update_one id (update_builder u') s)
          ≡ (s', log', ok t)
        → IsDistinct (client.rows s')
    unfolding after_update update_builder updated_row
    updated-IsDistinct u' log s' log' t free h =
        let built = update_builder u' in
        let (done, same) = updated_ok current log s' log' t (client.update_one id built s) h in
        let (stored, _) = client.update_row id built s t done in
        subst (λ x. IsDistinct (client.rows x)) same
          (subst IsDistinct (sym stored) (
            update_where-IsDistinct id user (get_or u'.target_port current.target_port)
              (updated_row built) (client.rows s) d free
              (All-mono (client.rows s)
                (λ r only k. (
                  k,
                  ap (λ (x : Tunnel). x.user_id) (only k) ∙ owner,
                  ap (λ (x : Tunnel). get_or u'.target_port x.target_port) (only k),
                ))
                (only-row id (client.rows s) current
                  (client.only_row (λ x. x.id == id) s current e)))))

  same_check :
      (user id : ℕ) (u : TunnelUpdate) (s : S) (c current : Tunnel) (v o : Option TunnelUpdate)
      → c ≡ current
      → v ≡ o
      → check_update client w user id c (some u) s ≡ ok v
      → check_update client w user id current (some u) s ≡ ok o
  same_check user id u s c current v o first second h = cc (first, second, h)

  -- An update of one of the caller's own tunnels that succeeds leaves the ids of the table and the
  -- ports of each user distinct.
  pub update_tunnel-IsDistinct :
      (user id : ℕ) (u : TunnelUpdate) (s : S) (log : List RouteCall) (s' : S)
      (log' : List RouteCall) (t : Tunnel)
      → IsDistinct (client.rows s)
      → All (λ r. r.id ≡ id → r.user_id ≡ user) (client.rows s)
      → update_tunnel client w user id (some u) s log ≡ (s', log', ok t)
      → IsDistinct (client.rows s')
  unfolding update_tunnel prepare_update Repository.get_by_id Repository.update
  update_tunnel-IsDistinct user id u s log s' log' t d own h =
      go (prepare_update client w user id (some u) s) refl h
    where
      go :
          (r : Result (Tunnel × Option TunnelUpdate))
          → prepare_update client w user id (some u) s ≡ r
          → elim r as (λ _. S × List RouteCall × Result Tunnel) [
            | err e ↦ (s, log, err e)
            | ok (current, o) ↦ after_update client w current log (Repository.update client id o s)
          ]
            ≡ (s', log', ok t)
          → IsDistinct (client.rows s')
      go (err x) e k = cc
      go (ok (current, o)) e k =
          let (c, found_it, rest) =
            bind-ok (or_not_found (client.only (λ x. x.id == id) s))
              (λ c. check_update client w user id c (some u) s >>= λ v. ok (c, v)) (current, o) e in
          let (v, checked, pair) =
            bind-ok (check_update client w user id c (some u) s) (λ v. ok (c, v)) (current, o)
              rest in
          let first : c ≡ current = cc in
          let second : v ≡ o = cc in
          let known =
            subst (λ x. client.only (λ y. y.id == id) s ≡ DbResult.ok x) first
              (found (client.only (λ y. y.id == id) s) c found_it) in
          let passed_it = same_check user id u s c current v o first second checked in
          let (same, mine) =
            selected-All (λ r. r.id ≡ id → r.user_id ≡ user) id (client.rows s) current
              (client.only_row (λ y. y.id == id) s current known) own in
          let (u', some_u, free) =
            check_update-Free user id current s d (mine same) known u o passed_it in
          updated-IsDistinct user id current s d (mine same) known u' log s' log' t free (
            subst
              (λ x.
                after_update client w current log (Repository.update client id x s)
                ≡ (s', log', ok t))
              some_u k)
