-- ===== src/Router/Waiting/Maps.antt =====
-- The map of the waiting connections of internal/tunnel/hybrid_router.go, after an entry came or went.
use giraffecloud.Base.{
  ◌≡◌, refl, sym, ap, ◌∙◌, ◌⊎◌, inl, inr, Bool, true, false, Option, some, List, [], ◌∷◌, ◌++◌,
  Bytes, ◌==◌, nat_eq, bytes_eq, bytes_beq_iff, any, if◌then◌else◌, arith, Bool-cases,
}
use giraffecloud.Base.Map.{lookup, insert, lookup-insert, lookup-delete}
use giraffecloud.Router.Waiting.{
  Pending, pending_of, remove_first, has_id, drop_empty, remove_pending_connection,
}

abbrev pub stale : Option (List Pending) → Bool
stale (some []) = true
stale _ = false

pub pending_of-insert :
    (d e : Bytes) (ps : List Pending) (m : List (Bytes × List Pending))
    → pending_of e (insert d ps m) ≡ (if d == e then ps else pending_of e m)
unfolding pending_of
pending_of-insert d e ps m = ground (arith, lookup-insert d e ps m)

pending_of-drop_empty :
    (d e : Bytes) (m : List (Bytes × List Pending)) → pending_of e (drop_empty d m) ≡ pending_of e m
unfolding pending_of drop_empty
pending_of-drop_empty d e m = ground (arith, lookup-delete d e m, bytes_beq_iff d e)

remove_first_absent :
    (i : Bytes) (ps : List Pending) → any (has_id i) ps ≡ false → remove_first i ps ≡ ps
unfolding remove_first
remove_first_absent i [] h = refl
remove_first_absent i (p ∷ ps) h = ground (arith, remove_first_absent i ps, h)

pub pending_of-remove :
    (d i e : Bytes) (m : List (Bytes × List Pending))
    → pending_of e (remove_pending_connection d i m)
      ≡ (if d == e then remove_first i (pending_of d m) else pending_of e m)
unfolding remove_pending_connection
pending_of-remove d i e m = elim (Bool-cases (any (has_id i) (pending_of d m))) [
  | inl found ↦
      rw found
        (pending_of-drop_empty d e _ ∙ pending_of-insert d e (remove_first i (pending_of d m)) m)
  | inr absent ↦ rw absent (
      pending_of-drop_empty d e m ∙ elim (Bool-cases (d == e)) [
        | inl same ↦ rw same (
            ap (λ x. pending_of x m) (sym ((bytes_beq_iff d e).0 same))
            ∙ sym (remove_first_absent i (pending_of d m) absent))
        | inr other ↦ rw other refl
      ])
]

tidy-drop_empty :
    (d e : Bytes) (m : List (Bytes × List Pending))
    → (stale (lookup e m) ≡ false) ⊎ (d ≡ e)
    → stale (lookup e (drop_empty d m)) ≡ false
unfolding pending_of drop_empty
tidy-drop_empty d e m h = ground (arith, lookup-delete d e m, bytes_beq_iff d e, h)

pub tidy-append :
    (d e : Bytes) (ps : List Pending) (p : Pending) (m : List (Bytes × List Pending))
    → stale (lookup e m) ≡ false
    → stale (lookup e (insert d (ps ++ p ∷ []) m)) ≡ false
tidy-append d e [] p m h = ground (arith, lookup-insert d e (p ∷ []) m, h)
tidy-append d e (q ∷ ps) p m h = ground (arith, lookup-insert d e (q ∷ (ps ++ p ∷ [])) m, h)

tidy-insert :
    (d e : Bytes) (ps : List Pending) (m : List (Bytes × List Pending))
    → stale (lookup e m) ≡ false
    → (stale (lookup e (insert d ps m)) ≡ false) ⊎ (d ≡ e)
tidy-insert d e ps m h = ground (arith, lookup-insert d e ps m, bytes_beq_iff d e, h)

pub tidy-remove :
    (d i e : Bytes) (m : List (Bytes × List Pending))
    → stale (lookup e m) ≡ false
    → stale (lookup e (remove_pending_connection d i m)) ≡ false
unfolding remove_pending_connection
tidy-remove d i e m h = elim (Bool-cases (any (has_id i) (pending_of d m))) [
  | inl found ↦ rw found (tidy-drop_empty d e _ (tidy-insert d e _ m h))
  | inr absent ↦ rw absent (tidy-drop_empty d e m (inl h))
]
