-- ===== src/Router/Waiting/Entries.antt =====
-- The entries of the handlers that wait (internal/tunnel/hybrid_router.go), as lists.
use giraffecloud.Base.{
  ℕ, suc, ◌≤◌, ◌<◌, ◌≡◌, refl, ap, inl, inr, Bool, true, false, ◌||◌, Option, none, some, List, [],
  ◌∷◌, ◌++◌, map, Bytes, ◌==◌, nat_eq, bytes_eq, bytes_beq_iff, nat_beq_iff, any, if◌then◌else◌,
  arith, Bool-cases, beq_refl,
}
use mathlib.Core.Option.{some-injective}
use giraffecloud.Router.Waiting.{
  Pending, Phase, Handler, remove_first, has_id, set_phase, find_handler, remove_handler,
}

abbrev pub pendings : List Handler → List Pending
pendings hs = map (λ (h : Handler). h.pending) hs

-- The entries of a domain.
unfoldable pub entries_at : Bytes → List Pending → List Pending
entries_at d [] = []
entries_at d (p ∷ ps) = if p.domain == d then p ∷ entries_at d ps else entries_at d ps

-- The channels rise from `lo` on, below `next`.
abbrev pub Rising : ℕ → ℕ → List Pending → Type 0
Rising lo next [] = lo ≤ next
Rising lo next (p ∷ ps) =
    (lo ≤ p.done_chan) × (p.done_chan < next) × Rising (suc p.done_chan) next ps

-- No two entries of a domain have the same id.
abbrev pub Distinct : List Pending → Type 0
Distinct [] = Unit
Distinct (p ∷ ps) = (any (has_id p.request_id) (entries_at p.domain ps) ≡ false) × Distinct ps

unfoldable pub find_pending : ℕ → List Pending → Option Pending
find_pending c [] = none
find_pending c (p ∷ ps) = if p.done_chan == c then some p else find_pending c ps

unfoldable pub without : ℕ → List Pending → List Pending
without c [] = []
without c (p ∷ ps) = if p.done_chan == c then ps else p ∷ without c ps

pub pendings-remove_handler :
    (c : ℕ) (hs : List Handler) → pendings (remove_handler c hs) ≡ without c (pendings hs)
unfolding remove_handler without
pendings-remove_handler c [] = refl
pendings-remove_handler c (h ∷ hs) = ground (arith, pendings-remove_handler c hs)

pub pendings-set_phase :
    (c : ℕ) (phase : Phase) (hs : List Handler) → pendings (set_phase c phase hs) ≡ pendings hs
unfolding set_phase
pendings-set_phase c phase [] = refl
pendings-set_phase c phase (h ∷ hs) = ground (arith, pendings-set_phase c phase hs)

pub find_pending-find_handler :
    (c : ℕ) (hs : List Handler) (h : Handler)
    → find_handler c hs ≡ some h
    → find_pending c (pendings hs) ≡ some h.pending
unfolding find_handler find_pending
find_pending-find_handler c [] h e = cc
find_pending-find_handler c (g ∷ hs) h e = ground (arith, find_pending-find_handler c hs h, e)

pub find_handler-chan :
    (c : ℕ) (hs : List Handler) (h : Handler) → find_handler c hs ≡ some h → h.pending.done_chan ≡ c
unfolding find_handler
find_handler-chan c [] h e = cc
find_handler-chan c (g ∷ hs) h e =
    ground (arith, find_handler-chan c hs h, nat_beq_iff g.pending.done_chan c, e)

pub pendings-append :
    (hs : List Handler) (h : Handler) → pendings (hs ++ h ∷ []) ≡ pendings hs ++ h.pending ∷ []
pendings-append [] h = refl
pendings-append (g ∷ hs) h = ap (◌∷◌ g.pending) (pendings-append hs h)

any-append_one :
    (f : Pending → Bool) (ps : List Pending) (q : Pending)
    → any f (ps ++ q ∷ []) ≡ (any f ps || f q)
any-append_one f [] q = ground arith
any-append_one f (p ∷ ps) q = ground (arith, any-append_one f ps q)

pub entries_at-append :
    (d : Bytes) (ps : List Pending) (q : Pending)
    → entries_at d (ps ++ q ∷ [])
      ≡ (if q.domain == d then entries_at d ps ++ q ∷ [] else entries_at d ps)
unfolding entries_at
entries_at-append d [] q = ground arith
entries_at-append d (p ∷ ps) q = ground (arith, entries_at-append d ps q)

pub found-any :
    (c : ℕ) (ps : List Pending) (p : Pending)
    → find_pending c ps ≡ some p
    → any (has_id p.request_id) (entries_at p.domain ps) ≡ true
unfolding find_pending entries_at
found-any c [] p e = cc
found-any c (q ∷ ps) p e =
    ground (arith, found-any c ps p, e, beq_refl p.request_id, beq_refl p.domain)

-- Taking out the entry with a channel takes out the first entry of its domain with its id.
pub entries_at-without :
    (d : Bytes) (c : ℕ) (ps : List Pending) (p : Pending)
    → Distinct ps
    → find_pending c ps ≡ some p
    → entries_at d (without c ps)
      ≡ (if p.domain == d then remove_first p.request_id (entries_at d ps) else entries_at d ps)
unfolding find_pending entries_at without remove_first
entries_at-without d c [] p u e = cc
entries_at-without d c (q ∷ ps) p (fresh, u) e = ground (
  arith,
  entries_at-without d c ps p u,
  found-any c ps p,
  bytes_beq_iff q.domain d,
  bytes_beq_iff p.domain d,
  bytes_beq_iff q.request_id p.request_id,
  beq_refl p.request_id,
  fresh,
  e,
)

any-without :
    (i d : Bytes) (c : ℕ) (ps : List Pending)
    → any (has_id i) (entries_at d ps) ≡ false
    → any (has_id i) (entries_at d (without c ps)) ≡ false
unfolding entries_at without
any-without i d c [] h = h
any-without i d c (p ∷ ps) h = ground (arith, any-without i d c ps, h)

pub without-Distinct : (c : ℕ) (ps : List Pending) → Distinct ps → Distinct (without c ps)
unfolding without
without-Distinct c [] u = u
without-Distinct c (p ∷ ps) (fresh, u) = elim (Bool-cases (p.done_chan == c)) [
  | inl e ↦ rw e u
  | inr e ↦ rw e (any-without p.request_id p.domain c ps fresh, without-Distinct c ps u)
]

pub append-Distinct :
    (ps : List Pending) (q : Pending)
    → Distinct ps
    → any (has_id q.request_id) (entries_at q.domain ps) ≡ false
    → Distinct (ps ++ q ∷ [])
unfolding entries_at
append-Distinct [] q u h = (refl, tt)
append-Distinct (p ∷ ps) q (fresh, u) h = (
  ground (
    arith,
    entries_at-append p.domain ps q,
    any-append_one (has_id p.request_id) (entries_at p.domain ps) q,
    bytes_beq_iff p.domain q.domain,
    bytes_beq_iff q.domain p.domain,
    bytes_beq_iff p.request_id q.request_id,
    bytes_beq_iff q.request_id p.request_id,
    fresh,
    h,
  ),
  append-Distinct ps q u (ground (arith, h)),
)

lower-Rising :
    (lo lo' next : ℕ) (ps : List Pending) → lo' ≤ lo → Rising lo next ps → Rising lo' next ps
lower-Rising lo lo' next [] h r = omega arith
lower-Rising lo lo' next (p ∷ ps) h (a, b, r) = (omega arith, b, r)

pub without-Rising :
    (c lo next : ℕ) (ps : List Pending) → Rising lo next ps → Rising lo next (without c ps)
unfolding without
without-Rising c lo next [] r = r
without-Rising c lo next (p ∷ ps) (a, b, r) = elim (Bool-cases (p.done_chan == c)) [
  | inl e ↦ rw e (lower-Rising (suc p.done_chan) lo next ps (omega arith) r)
  | inr e ↦ rw e (a, b, without-Rising c (suc p.done_chan) next ps r)
]

pub append-Rising :
    (lo next : ℕ) (ps : List Pending) (q : Pending)
    → q.done_chan ≡ next
    → Rising lo next ps
    → Rising lo (suc next) (ps ++ q ∷ [])
append-Rising lo next [] q e r = (omega arith, omega arith, omega arith)
append-Rising lo next (p ∷ ps) q e (a, b, r) =
    (a, omega arith, append-Rising (suc p.done_chan) next ps q e r)

pub find_handler_absent :
    (c : ℕ) (hs : List Handler) → find_pending c (pendings hs) ≡ none → find_handler c hs ≡ none
unfolding find_handler find_pending
find_handler_absent c [] e = refl
find_handler_absent c (h ∷ hs) e = ground (arith, find_handler_absent c hs, e)

pub find_handler-set_phase :
    (c : ℕ) (phase : Phase) (hs : List Handler) (h : Handler)
    → find_handler c hs ≡ some h
    → find_handler c (set_phase c phase hs) ≡ some (record h { phase = phase })
unfolding find_handler set_phase
find_handler-set_phase c phase [] h e = cc
find_handler-set_phase c phase (g ∷ hs) h e = elim (Bool-cases (g.pending.done_chan == c)) [
  | inl same ↦
      rw (same, same)
        (ap (λ (x : Handler). some (record x { phase = phase }))
          (some-injective _ _ (rw same at e)))
  | inr other ↦ rw (other, other) (find_handler-set_phase c phase hs h (rw other at e))
]

find_below :
    (c lo next : ℕ) (ps : List Pending) → c < lo → Rising lo next ps → find_pending c ps ≡ none
unfolding find_pending
find_below c lo next [] h r = refl
find_below c lo next (p ∷ ps) h (a, b, r) =
    ground (arith, find_below c (suc p.done_chan) next ps, nat_beq_iff p.done_chan c)

pub find_pending-without :
    (c lo next : ℕ) (ps : List Pending) → Rising lo next ps → find_pending c (without c ps) ≡ none
unfolding find_pending without
find_pending-without c lo next [] r = refl
find_pending-without c lo next (p ∷ ps) (a, b, r) = ground (
  arith,
  find_pending-without c (suc p.done_chan) next ps r,
  find_below c (suc p.done_chan) next ps,
  nat_beq_iff p.done_chan c,
)

pub find_pending-entries_at :
    (c : ℕ) (ps : List Pending) (p : Pending)
    → find_pending c ps ≡ some p
    → find_pending c (entries_at p.domain ps) ≡ some p
unfolding find_pending entries_at
find_pending-entries_at c [] p e = cc
find_pending-entries_at c (q ∷ ps) p e =
    ground (arith, find_pending-entries_at c ps p, e, beq_refl p.domain)
