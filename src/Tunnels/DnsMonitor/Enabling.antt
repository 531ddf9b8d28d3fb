-- ===== src/Tunnels/DnsMonitor/Enabling.antt =====
-- Which tunnels a run of internal/tasks/dns_monitor.go enables.
use giraffecloud.Base.{
  ℕ, true, List, [], ◌∷◌, Bytes, ◌==◌, nat_eq, nat_beq_iff, ◌≡◌, ◌≢◌, ◌⊎◌, inl, inr, refl, sym,
  subst, All, All-mono, All-both, Bool-cases,
}
use giraffecloud.Tunnels.Store.{Tunnel, Client, DbResult, ok, err, updated_row, update_where}
use giraffecloud.Tunnels.Outside.{World, RouteCall, dns_verified}
use giraffecloud.Tunnels.Service.Ports.{select-All}
use giraffecloud.Tunnels.DnsMonitor.{
  awaits_dns, enable_builder, after_enable, verify_one, verify_each, verify_tunnels,
}

abbrev Same : Tunnel → Tunnel → Type 0
Same t r = r.id ≡ t.id → r.domain ≡ t.domain

-- Ids are distinct, as the primary keys of the table are.
abbrev pub HasDistinctIds : List Tunnel → Type 0
HasDistinctIds [] = Unit {0}
HasDistinctIds (t ∷ ts) = All (λ (r : Tunnel). r.id ≢ t.id) ts × HasDistinctIds ts

distinct-Same : (ts : List Tunnel) → HasDistinctIds ts → All (λ t. All (Same t) ts) ts
distinct-Same [] d = tt
distinct-Same (t ∷ ts) (far, d) = (
  (λ _. refl, All-mono ts (λ r apart e. absurd (apart e)) far),
  All-both ts (λ u apart same. (λ e. absurd (apart (sym e)), same)) far (distinct-Same ts d),
)

enabled_row : Tunnel → Tunnel
enabled_row = updated_row enable_builder

update_where-Same :
    (t : Tunnel) (id : ℕ) (ts : List Tunnel)
    → All (Same t) ts
    → All (Same t) (update_where id enabled_row ts)
unfolding enabled_row updated_row
update_where-Same t id [] h = tt
update_where-Same t id (r ∷ ts) (p, h) = elim (Bool-cases (r.id == id)) [
  | inl e ↦ rw e (p, update_where-Same t id ts h)
  | inr e ↦ rw e (p, update_where-Same t id ts h)
]

module _ (P : Bytes → Type 0) where
  abbrev pub Shown : Tunnel → Type 0
  Shown t = t.is_enabled ≡ true → P t.domain

  update_where-Shown :
      (t : Tunnel) (ts : List Tunnel)
      → P t.domain
      → All (Same t) ts
      → All Shown ts
      → All Shown (update_where t.id enabled_row ts)
  unfolding enabled_row updated_row
  update_where-Shown t [] good same h = tt
  update_where-Shown t (r ∷ ts) good (s, same) (p, h) = elim (Bool-cases (r.id == t.id)) [
    | inl e ↦ rw e (
      (λ _. subst P (sym (s ((nat_beq_iff r.id t.id).0 e))) good),
      update_where-Shown t ts good same h,
    )
    | inr e ↦ rw e (p, update_where-Shown t ts good same h)
  ]

  module _ {S : Type 0} (client : Client S) (w : World) where
    after_enable-state :
        (t : Tunnel) (log : List RouteCall) (r : S × DbResult Tunnel)
        → (after_enable client w t log r).0 ≡ r.0
    unfolding after_enable
    after_enable-state t log (s, ok u) = refl
    after_enable-state t log (s, err e) = refl

    update_one-rows :
        (id : ℕ) (s : S) (r : DbResult Tunnel)
        → (client.update_one id enable_builder s).1 ≡ r
        → (client.rows (client.update_one id enable_builder s).0 ≡ client.rows s)
          ⊎ (client.rows (client.update_one id enable_builder s).0
              ≡ update_where id enabled_row (client.rows s))
    unfolding enabled_row
    update_one-rows id s (ok u) e = inr (client.update_row id enable_builder s u e).0
    update_one-rows id s (err x) e = inl (client.update_failed id enable_builder s x e)

    -- What holds before a turn for every enabled tunnel, and of every domain that points to the
    -- server, holds after it; domains stay.
    verify_one-Shown :
        (t : Tunnel) (ts : List Tunnel) (s : S) (log : List RouteCall)
        → ((d : Bytes) → dns_verified w d ≡ true → P d)
        → All (λ u. All (Same u) (client.rows s)) (t ∷ ts)
        → All Shown (client.rows s)
        → All Shown (client.rows (verify_one client w t s log).0)
          × All (λ u. All (Same u) (client.rows (verify_one client w t s log).0)) ts
    unfolding verify_one
    verify_one-Shown t ts s log good (same, others) h =
        elim (Bool-cases (dns_verified w t.domain)) [
          | inr e ↦ rw e (h, others)
          | inl e ↦
              let r = client.update_one t.id enable_builder s in
              let state = after_enable-state t log r in
              rw e (
                subst (λ x. All Shown (client.rows x) × All (λ u. All (Same u) (client.rows x)) ts)
                  (sym state)
                  (elim (update_one-rows t.id s r.1 refl) [
                    | inl kept ↦
                        subst (λ rows. All Shown rows × All (λ u. All (Same u) rows) ts) (sym kept)
                          (h, others)
                    | inr moved ↦
                        subst (λ rows. All Shown rows × All (λ u. All (Same u) rows) ts) (sym moved)
                          (
                            update_where-Shown t (client.rows s) (good t.domain e) same h,
                            All-mono ts (λ u k. update_where-Same u t.id (client.rows s) k) others,
                          )
                  ]))
        ]

    verify_each-Shown :
        (ts : List Tunnel) (s : S) (log : List RouteCall)
        → ((d : Bytes) → dns_verified w d ≡ true → P d)
        → All (λ u. All (Same u) (client.rows s)) ts
        → All Shown (client.rows s)
        → All Shown (client.rows (verify_each client w ts s log).0)
    unfolding verify_each
    verify_each-Shown [] s log good same h = h
    verify_each-Shown (t ∷ ts) s log good same h =
        let (shown, rest) = verify_one-Shown t ts s log good same h in
        let next = verify_one client w t s log in verify_each-Shown ts next.0 next.1 good rest shown

    -- Where ids are distinct: what every domain that points to the server satisfies, and every
    -- enabled tunnel's domain before a run of the monitor, every enabled tunnel's domain satisfies
    -- after it. So a run enables no tunnel whose domain does not point to the server.
    pub verify_tunnels-Shown :
        (s : S) (log : List RouteCall)
        → HasDistinctIds (client.rows s)
        → ((d : Bytes) → dns_verified w d ≡ true → P d)
        → All Shown (client.rows s)
        → All Shown (client.rows (verify_tunnels client w s log).0)
    unfolding verify_tunnels
    verify_tunnels-Shown s log d good h = go (client.all awaits_dns s) refl
      where
        go :
            (r : DbResult (List Tunnel))
            → client.all awaits_dns s ≡ r
            → All Shown (
                client.rows
                  (elim r as (λ _. S × List RouteCall × DbResult (Unit {0})) [
                    | err e ↦ (s, log, err e)
                    | ok ts ↦ let (s', log') = verify_each client w ts s log in (s', log', ok tt)
                  ]).0)
        go (err e) q = h
        go (ok ts) q =
            verify_each-Shown ts s log good
              (subst (All (λ u. All (Same u) (client.rows s)))
                (sym (client.all_rows awaits_dns s ts q))
                (select-All (λ u. All (Same u) (client.rows s)) awaits_dns (client.rows s)
                  (distinct-Same (client.rows s) d)))
              h
