-- ===== src/Tunnels/Memory.antt =====
-- The tunnels table in memory: a client for the runs of the code.
use Prim.Native.Nat.{max, ◌≤◌}
use giraffecloud.Base.{
  ℕ, suc, Bool, not, List, [], ◌∷◌, ◌++◌, ◌≡◌, refl, subst, ◌≢◌, ◌==◌, nat_eq, All, select, arith,
}
use giraffecloud.Tunnels.Store.{
  Tunnel, Client, DbError, failed, not_found, DbResult, ok, err, update_where, created_row,
  updated_row, TunnelCreate, TunnelUpdateOne,
}

-- The client over a table in memory.
abbrev pub first_of_rows : List Tunnel → DbResult Tunnel
first_of_rows [] = err not_found
first_of_rows (t ∷ []) = ok t
first_of_rows (t ∷ u ∷ ts) = err failed

pub first_of_rows-ok : (ts : List Tunnel) (t : Tunnel) → first_of_rows ts ≡ ok t → ts ≡ t ∷ []
first_of_rows-ok [] t h = cc
first_of_rows-ok (x ∷ []) t h = ground arith
first_of_rows-ok (x ∷ y ∷ ts) t h = cc

-- An id above all others.
abbrev pub fresh_id : List Tunnel → ℕ
fresh_id [] = 1
fresh_id (t ∷ ts) = max (suc t.id) (fresh_id ts)

fresh_id-All : (n : ℕ) (ts : List Tunnel) → fresh_id ts ≤ n → All (λ r. r.id ≢ n) ts
fresh_id-All n [] h = tt
fresh_id-All n (t ∷ ts) h = (omega arith, fresh_id-All n ts (omega arith))

abbrev pub finish_update :
    List Tunnel → List Tunnel → DbResult Tunnel → List Tunnel × DbResult Tunnel
finish_update old new (ok t) = (new, ok t)
finish_update old new (err e) = (old, err e)

finish_update-ok :
    (old new : List Tunnel) (r : DbResult Tunnel) (t : Tunnel)
    → (finish_update old new r).1 ≡ ok t
    → ((finish_update old new r).0 ≡ new) × (r ≡ ok t)
finish_update-ok old new (ok x) t h = (refl, h)
finish_update-ok old new (err e) t h = cc

pub finish_update-err :
    (old new : List Tunnel) (r : DbResult Tunnel) (e : DbError)
    → (finish_update old new r).1 ≡ err e
    → (finish_update old new r).0 ≡ old
finish_update-err old new (ok x) e h = cc
finish_update-err old new (err x) e h = refl

abbrev pub ids : ℕ → Tunnel → Bool
ids id t = t.id == id

abbrev pub patched : ℕ → TunnelUpdateOne → List Tunnel → List Tunnel
patched id u ts = update_where id (updated_row u) ts

abbrev pub update_list : ℕ → TunnelUpdateOne → List Tunnel → List Tunnel × DbResult Tunnel
update_list id u ts =
    finish_update ts (patched id u ts) (first_of_rows (select (ids id) (patched id u ts)))

pub update_list-ok :
    (id : ℕ) (u : TunnelUpdateOne) (ts : List Tunnel) (t : Tunnel)
    → (update_list id u ts).1 ≡ ok t
    → ((update_list id u ts).0 ≡ patched id u ts)
      × (select (ids id) (update_list id u ts).0 ≡ t ∷ [])
update_list-ok id u ts t h =
    let r = first_of_rows (select (ids id) (patched id u ts)) in
    let (same, found) = finish_update-ok ts (patched id u ts) r t h in
    (same, rw same (first_of_rows-ok (select (ids id) (patched id u ts)) t found))

Appended : TunnelCreate → List Tunnel → Tunnel → Type 0
Appended c s t =
    (t ≡ created_row t.id c)
    × (s ++ created_row (fresh_id s) c ∷ [] ≡ s ++ t ∷ [])
    × All (λ r. r.id ≢ t.id) s

append_row :
    (c : TunnelCreate) (s : List Tunnel) (t : Tunnel)
    → ok (created_row (fresh_id s) c) ≡ ok t
    → Appended c s t
unfolding Appended created_row
append_row c s t h =
    let e : created_row (fresh_id s) c ≡ t = cc in
    subst (Appended c s) e (refl, refl, fresh_id-All (fresh_id s) s (omega arith))

pub append_table :
    (c : TunnelCreate) (s : List Tunnel) (t : Tunnel)
    → ok (created_row (fresh_id s) c) ≡ ok t
    → (t ≡ created_row t.id c)
      × (s ++ created_row (fresh_id s) c ∷ [] ≡ s ++ t ∷ [])
      × All (λ r. r.id ≢ t.id) s
unfolding Appended
append_table c s t h = append_row c s t h

pub answer_all :
    (p : Tunnel → Bool) (s ts : List Tunnel) → ok (select p s) ≡ ok ts → ts ≡ select p s
answer_all p s ts h = ground arith

pub no_failure {ℓ} : {A : Type ℓ} {P : Type 0} (a : A) (e : DbError) → ok a ≡ err e → P
no_failure a e h = cc

abbrev pub in_memory : Client (List Tunnel)
in_memory = record {
  rows = λ ts. ts;
  all = λ p ts. ok (select p ts);
  only = λ p ts. first_of_rows (select p ts);
  create = λ c ts. (ts ++ created_row (fresh_id ts) c ∷ [], ok (created_row (fresh_id ts) c));
  update_one = update_list;
  delete_one = λ id ts. (select (λ t. not (t.id == id)) ts, ok tt);
  all_rows = answer_all;
  only_row = λ p s t h. first_of_rows-ok (select p s) t h;
  create_row = append_table;
  create_failed = λ c s e h. no_failure _ e h;
  update_row = update_list-ok;
  update_failed = λ id u s e h. finish_update-err s _ _ e h;
  delete_row = λ id s h. refl;
  delete_failed = λ id s e h. no_failure tt e h;
}
