-- ===== src/Router/Waiting/Woken.antt =====
-- How a wait in waitForTCPTunnelEstablishment (internal/tunnel/hybrid_router.go) ends.
use giraffecloud.Base.{
  ℕ, ◌≡◌, refl, ap, ◌∙◌, inl, inr, Bool, true, false, none, some, List, [], ◌∷◌, ◌==◌, nat_eq,
  bytes_eq, nat_beq_iff, any, arith, Bool-cases, beq_refl,
}
use giraffecloud.Base.Map.{lookup, lookup-delete}
use giraffecloud.Router.Waiting.Entries.{
  pendings, find_pending, without, pendings-remove_handler, find_pending-find_handler,
  find_handler-chan, find_handler_absent, find_handler-set_phase, find_pending-without,
  find_pending-entries_at,
}
use giraffecloud.Router.Waiting.Kept.{Kept, step-Kept}
use giraffecloud.Router.Waiting.Others.{Elsewhere, Stays, is_full, run-Stays, notify_all-kept}
use giraffecloud.Router.Waiting.{
  Event, Pending, waiting, done, Handler, State, pending_of, notify, notify_all, received, move,
  find_handler, leave, receive, clear_flag, in_progress, receives, expires, leaves, wakes, act,
  acting, step, run,
}

notify-full : (c : ℕ) (full : List ℕ) → any (λ d. d == c) (notify c full) ≡ true
unfolding notify
notify-full c full = ground (arith, beq_refl c)

notify_all-full :
    (c : ℕ) (ps : List Pending) (full : List ℕ) (p : Pending)
    → find_pending c ps ≡ some p
    → any (λ d. d == c) (notify_all ps full) ≡ true
unfolding notify_all find_pending
notify_all-full c [] full p e = cc
notify_all-full c (q ∷ ps) full p e = elim (Bool-cases (q.done_chan == c)) [
  | inl same ↦
      notify_all-kept c ps (notify q.done_chan full)
        (ground (arith, notify-full q.done_chan full, nat_beq_iff q.done_chan c, same))
  | inr other ↦ notify_all-full c ps (notify q.done_chan full) p (rw other at e)
]

module _ (c : ℕ) (h : Handler) (s : State) (found : find_handler c s.handlers ≡ some h) where
  step-receives :
      h.phase ≡ waiting
      → any (λ d. d == c) s.full ≡ true
      → step s (receives c) ≡ record (move c (done true) s) { full = received c s.full }
  unfolding step acting act receive
  step-receives w full =
      ap (λ o. acting (receives c) o s) found
      ∙ ap (λ phase. act (receives c) phase h.pending s) w
      ∙ rw full refl

  step-expires :
      h.phase ≡ waiting → step s (expires c) ≡ move c (done false) (clear_flag h.pending.domain s)
  unfolding step acting act
  step-expires w =
      ap (λ o. acting (expires c) o s) found ∙ ap (λ phase. act (expires c) phase h.pending s) w

  step-leaves : (b : Bool) → h.phase ≡ done b → step s (leaves c) ≡ leave h.pending b s
  unfolding step acting act
  step-leaves b w =
      ap (λ o. acting (leaves c) o s) found ∙ ap (λ phase. act (leaves c) phase h.pending s) w

-- The handler has returned with the result.
abbrev pub Returned : ℕ → Pending → Bool → State → State → Type 0
Returned c p b s t =
    (t.results ≡ record { domain = p.domain; request_id = p.request_id; success = b } ∷ s.results)
    × (find_handler c t.handlers ≡ none)

leave-Returned :
    (c : ℕ) (p : Pending) (b : Bool) (s : State)
    → p.done_chan ≡ c
    → Kept s
    → Returned c p b s (leave p b s)
unfolding leave
leave-Returned c p b s e k = (
  refl,
  find_handler_absent c _ (
      ap (find_pending c) (pendings-remove_handler p.done_chan s.handlers)
      ∙ ap (λ a. find_pending c (without a (pendings s.handlers))) e
      ∙ find_pending-without c 0 s.next_chan (pendings s.handlers) k.rising),
)

-- A handler whose phase is over leaves with its result.
leaves-Returned :
    (c : ℕ) (h : Handler) (b : Bool) (s : State)
    → Kept s
    → find_handler c s.handlers ≡ some (record h { phase = done b })
    → Returned c h.pending b s (step s (leaves c))
leaves-Returned c h b s k found = rw (step-leaves c (record h { phase = done b }) s found b refl) (
    leave-Returned c h.pending b s
      (find_handler-chan c s.handlers (record h { phase = done b }) found) k)

-- A handler whose phase has come to an end, and others that take steps before it leaves.
moved-Returned :
    (c : ℕ) (h : Handler) (b : Bool) (s : State) (es : List Event)
    → Kept s
    → find_handler c s.handlers ≡ some (record h { phase = done b })
    → Elsewhere c s es
    → Returned c h.pending b (run s es) (step (run s es) (leaves c))
moved-Returned c h b s es k found others =
    let (stays, kept) = run-Stays c s es others k in
    leaves-Returned c h b (run s es) kept (stays.0 (record h { phase = done b }) found)

-- The state after a tunnel was established for the handler's domain and others took steps, and after
-- the handler's receive then.
abbrev pub woken : Handler → State → List Event → State
woken h s es = run (step s (wakes h.pending.domain)) es

run-woken :
    (c : ℕ) (h : Handler) (s : State) (es es' : List Event)
    → Kept s
    → find_handler c s.handlers ≡ some h
    → h.phase ≡ waiting
    → Elsewhere c (step s (wakes h.pending.domain)) es
    → Elsewhere c (step (woken h s es) (receives c)) es'
    → let u = run (step (woken h s es) (receives c)) es' in
      Returned c h.pending true u (step u (leaves c))
run-woken c h s es es' k found w others others' =
    moved-Returned c h true (step t (receives c)) es' (step-Kept t (receives c) tt waits.1) moved
      others'
  where
    awake : State
    awake = step s (wakes h.pending.domain)

    t : State
    t = woken h s es

    waits : Stays c awake t × Kept t
    waits = run-Stays c awake es others (step-Kept s (wakes h.pending.domain) tt k)

    still : find_handler c t.handlers ≡ some h
    still = waits.0.0 h (unfold step in found)

    full : is_full c t.full ≡ true
    full = waits.0.1 (
        unfold step in
        notify_all-full c (pending_of h.pending.domain s.pending_connections) s.full h.pending (
          ap (find_pending c) (k.same h.pending.domain)
          ∙ find_pending-entries_at c (pendings s.handlers) h.pending
              (find_pending-find_handler c s.handlers h found)))

    moved : find_handler c (step t (receives c)).handlers ≡ some (record h { phase = done true })
    moved =
        ap (λ (v : State). find_handler c v.handlers) (step-receives c h t still w full)
        ∙ unfold move in find_handler-set_phase c (done true) t.handlers h still

run-timed_out :
    (c : ℕ) (h : Handler) (s : State) (es es' : List Event)
    → Kept s
    → find_handler c s.handlers ≡ some h
    → h.phase ≡ waiting
    → Elsewhere c s es
    → Elsewhere c (step (run s es) (expires c)) es'
    → (in_progress (lookup h.pending.domain (step (run s es) (expires c)).establishment_in_progress)
        ≡ false)
      × (let u = run (step (run s es) (expires c)) es' in
          Returned c h.pending false u (step u (leaves c)))
run-timed_out c h s es es' k found w others others' = (
  gone,
  moved-Returned c h false (step t (expires c)) es' (step-Kept t (expires c) tt waits.1) moved
      others',
)
  where
    t : State
    t = run s es

    waits : Stays c s t × Kept t
    waits = run-Stays c s es others k

    still : find_handler c t.handlers ≡ some h
    still = waits.0.0 h found

    took : step t (expires c) ≡ move c (done false) (clear_flag h.pending.domain t)
    took = step-expires c h t still w

    moved : find_handler c (step t (expires c)).handlers ≡ some (record h { phase = done false })
    moved =
        ap (λ (v : State). find_handler c v.handlers) took
        ∙ unfold move clear_flag in find_handler-set_phase c (done false) t.handlers h still

    gone :
        in_progress (lookup h.pending.domain (step t (expires c)).establishment_in_progress) ≡ false
    gone =
        ap (λ (v : State). in_progress (lookup h.pending.domain v.establishment_in_progress)) took
        ∙ unfold move clear_flag in
          ground (
            arith,
            lookup-delete h.pending.domain h.pending.domain t.establishment_in_progress,
            beq_refl h.pending.domain,
          )

-- In a state in which the map has the entries of the handlers, and for a handler that waits there:
-- when a tunnel for its domain is established, then whatever steps the others take, it can receive,
-- and whatever they do after that, it returns with success when it leaves. When its timer runs out
-- instead, after whatever steps of others, no establishment is in progress for the domain then, and
-- whatever they do after that, it returns without success when it leaves. In both cases its leaving
-- adds the one result and the handler is gone. No other request brings an id that waits already.
pub run-returns :
    (c : ℕ) (h : Handler) (s : State) (es es' : List Event)
    → Kept s
    → find_handler c s.handlers ≡ some h
    → h.phase ≡ waiting
    → Elsewhere c (step s (wakes h.pending.domain)) es
    → Elsewhere c (step (woken h s es) (receives c)) es'
    → Elsewhere c s es
    → Elsewhere c (step (run s es) (expires c)) es'
    → (let u = run (step (woken h s es) (receives c)) es' in
        Returned c h.pending true u (step u (leaves c)))
      × (in_progress
            (lookup h.pending.domain (step (run s es) (expires c)).establishment_in_progress)
          ≡ false)
      × (let u = run (step (run s es) (expires c)) es' in
          Returned c h.pending false u (step u (leaves c)))
run-returns c h s es es' k found w after_wake after_receive before_timer after_timer =
    let late = run-timed_out c h s es es' k found w before_timer after_timer in
    (run-woken c h s es es' k found w after_wake after_receive, late.0, late.1)
