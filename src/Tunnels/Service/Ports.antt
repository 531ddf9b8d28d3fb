-- ===== src/Tunnels/Service/Ports.antt =====
-- Ports of a user's tunnels under CreateTunnel, UpdateTunnel and DeleteTunnel of
-- internal/service/tunnel_service.go.
use giraffecloud.Base.{
  ℕ, Bool, true, false, List, [], ◌∷◌, ◌++◌, ◌==◌, nat_eq, nat_beq_iff, ◌≡◌, ◌≢◌, sym, subst, ◌∙◌,
  All, All-mono, All-select, All-append, select, arith, Bool-cases, inl, inr,
}
use giraffecloud.Tunnels.Store.{Tunnel, update_where}

-- Two tunnels that are not the same row and, of one user, not on the same port.
abbrev pub Apart : Tunnel → Tunnel → Type 0
Apart t u = (t.id ≢ u.id) × (t.user_id ≡ u.user_id → t.target_port ≢ u.target_port)

-- The ids of a table differ, and so do the ports of each user.
abbrev pub IsDistinct : List Tunnel → Type 0
IsDistinct [] = Unit
IsDistinct (t ∷ ts) = All (Apart t) ts × IsDistinct ts

pub append-IsDistinct :
    (ts : List Tunnel) (t : Tunnel)
    → IsDistinct ts
    → All (λ r. Apart r t) ts
    → IsDistinct (ts ++ t ∷ [])
append-IsDistinct [] t d h = (tt, tt)
append-IsDistinct (u ∷ ts) t (far, d) (p, h) =
    (All-append (Apart u) ts (t ∷ []) far (p, tt), append-IsDistinct ts t d h)

pub select-All :
    (P : Tunnel → Type 0) (p : Tunnel → Bool) (ts : List Tunnel) → All P ts → All P (select p ts)
select-All P p ts h = All-mono (select p ts) (λ x k. k.1) (All-select P p ts h)

pub select-IsDistinct :
    (p : Tunnel → Bool) (ts : List Tunnel) → IsDistinct ts → IsDistinct (select p ts)
select-IsDistinct p [] d = tt
select-IsDistinct p (t ∷ ts) (far, d) = elim (Bool-cases (p t)) [
  | inl e ↦ rw e (select-All (Apart t) p ts far, select-IsDistinct p ts d)
  | inr e ↦ rw e (select-IsDistinct p ts d)
]

-- A change of the row of an id, after which it has the user and the port that are given.
module _ (id user port : ℕ) (f : Tunnel → Tunnel) where
  abbrev pub Free : Tunnel → Type 0
  Free r = r.id ≢ id → r.user_id ≡ user → r.target_port ≢ port

  abbrev pub Moved : Tunnel → Type 0
  Moved r = r.id ≡ id → ((f r).id ≡ id) × ((f r).user_id ≡ user) × ((f r).target_port ≡ port)

  update_where-Apart :
      (t : Tunnel) (ts : List Tunnel)
      → t.id ≢ id
      → Free t
      → All (Apart t) ts
      → All Moved ts
      → All (Apart t) (update_where id f ts)
  update_where-Apart t [] ne free far moved = tt
  update_where-Apart t (u ∷ ts) ne free (p, far) (m, moved) = elim (Bool-cases (u.id == id)) [
    | inl e ↦
        let (same_id, owner, at) = m ((nat_beq_iff u.id id).0 e) in
        rw e (
          (rw same_id ne, λ same. rw at (free ne (same ∙ owner))),
          update_where-Apart t ts ne free far moved,
        )
    | inr e ↦ rw e (p, update_where-Apart t ts ne free far moved)
  ]

  updated-Apart :
      (t x : Tunnel) (ts : List Tunnel)
      → t.id ≡ id
      → (x.id ≡ id) × (x.user_id ≡ user) × (x.target_port ≡ port)
      → All (Apart t) ts
      → All Free ts
      → All (Apart x) (update_where id f ts)
  updated-Apart t x [] same at far free = tt
  updated-Apart t x (u ∷ ts) same at ((ne, p), far) (g, free) =
      let other : u.id ≢ id = λ e. ne (same ∙ sym e) in
      let kept : (u.id == id) ≡ false = ground (arith, other) in
      rw kept (
        (λ e. other (sym e ∙ at.0), λ owner e. g other (sym owner ∙ at.1) (sym e ∙ at.2)),
        updated-Apart t x ts same at far free,
      )

  pub update_where-IsDistinct :
      (ts : List Tunnel)
      → IsDistinct ts
      → All Free ts
      → All Moved ts
      → IsDistinct (update_where id f ts)
  update_where-IsDistinct [] d free moved = tt
  update_where-IsDistinct (t ∷ ts) (far, d) (g, free) (m, moved) = elim (Bool-cases (t.id == id)) [
    | inl e ↦
        let same = (nat_beq_iff t.id id).0 e in
        rw e
          (updated-Apart t (f t) ts same (m same) far free, update_where-IsDistinct ts d free moved)
    | inr e ↦ rw e (
      update_where-Apart t ts (ground (arith, e)) g far moved,
      update_where-IsDistinct ts d free moved,
    )
  ]

cons-injective : (t u : Tunnel) (ts us : List Tunnel) → t ∷ ts ≡ u ∷ us → (t ≡ u) × (ts ≡ us)
cons-injective t u ts us e = (cc, cc)

no-row : (id : ℕ) (ts : List Tunnel) → select (λ u. u.id == id) ts ≡ [] → All (λ u. u.id ≢ id) ts
no-row id [] e = tt
no-row id (u ∷ ts) e = elim (Bool-cases (u.id == id)) [
  | inl same ↦ let k = rw same at e in cc
  | inr other ↦ (ground (arith, other), no-row id ts (rw other at e))
]

-- The row of an id is the selected one, and the others are apart from it.
pub only-row :
    (id : ℕ) (ts : List Tunnel) (t : Tunnel)
    → select (λ u. u.id == id) ts ≡ t ∷ []
    → All (λ u. u.id ≡ id → u ≡ t) ts
only-row id [] t e = tt
only-row id (u ∷ ts) t e = elim (Bool-cases (u.id == id)) [
  | inl same ↦
      let (first, rest) = cons-injective u t (select (λ v. v.id == id) ts) [] (rw same at e) in
      (λ _. first, All-mono ts (λ v ne k. absurd (ne k)) (no-row id ts rest))
  | inr other ↦ (λ k. absurd (ground (arith, other, k)), only-row id ts t (rw other at e))
]

pub others-Free :
    (id : ℕ) (ts : List Tunnel) (t : Tunnel)
    → IsDistinct ts
    → select (λ u. u.id == id) ts ≡ t ∷ []
    → All (Free id t.user_id t.target_port (λ u. u)) ts
others-Free id [] t d e = tt
others-Free id (u ∷ ts) t (far, d) e = elim (Bool-cases (u.id == id)) [
  | inl same ↦
      let (first, _) = cons-injective u t (select (λ v. v.id == id) ts) [] (rw same at e) in
      (
        λ ne. absurd (ne ((nat_beq_iff u.id id).0 same)),
        All-mono ts (λ r p _ owner at. p.1 (sym owner) (sym at))
            (subst (λ x. All (Apart x) ts) first far),
      )
  | inr other ↦
      let apart =
        subst (All (Apart u)) (rw other at e) (select-All (Apart u) (λ v. v.id == id) ts far) in
      (λ _ owner at. apart.0.1 owner at, others-Free id ts t d (rw other at e))
]

pub selected-All :
    (P : Tunnel → Type 0) (id : ℕ) (ts : List Tunnel) (t : Tunnel)
    → select (λ u. u.id == id) ts ≡ t ∷ []
    → All P ts
    → (t.id ≡ id) × P t
selected-All P id ts t e h =
    let (same, p) =
      (subst (All (λ x. ((x.id == id) ≡ true) × P x)) e (All-select P (λ u. u.id == id) ts h)).0 in
    ((nat_beq_iff t.id id).0 same, p)
