-- ===== src/Router/Waiting/Kept.antt =====
-- The waiting connections of internal/tunnel/hybrid_router.go are those of the handlers that wait.
use giraffecloud.Base.{
  ℕ, ◌≡◌, refl, sym, ◌∙◌, subst, inl, inr, Bool, true, false, Option, none, some, List, [], ◌∷◌,
  Bytes, ◌==◌, nat_eq, bytes_eq, bytes_beq_iff, any, arith, Bool-cases,
}
use giraffecloud.Base.Map.{lookup}
use giraffecloud.Router.Waiting.Entries.{
  pendings, entries_at, Rising, Distinct, find_pending, pendings-remove_handler, pendings-set_phase,
  find_pending-find_handler, find_handler-chan, pendings-append, entries_at-append,
  entries_at-without, without-Distinct, append-Distinct, without-Rising, append-Rising,
}
use giraffecloud.Router.Waiting.{
  Pending, Phase, added, waiting, done, Handler, State, pending_of, add_pending, has_id,
  in_progress, check, move, find_handler, leave, receive, clear_flag, join, Event, joins, checks,
  receives, expires, leaves, clears, wakes, fails, act, acting, step, run, start,
}
use giraffecloud.Router.Waiting.Maps.{
  stale, pending_of-insert, pending_of-remove, tidy-append, tidy-remove,
}

-- The map has, for each domain, the entries of the handlers in the order in which they came, and no
-- domain without entries.
pub record Kept (s : State) : Type 0 where
  pub same : (d : Bytes) → pending_of d s.pending_connections ≡ entries_at d (pendings s.handlers)
  pub tidy : (d : Bytes) → stale (lookup d s.pending_connections) ≡ false
  pub rising : Rising 0 s.next_chan (pendings s.handlers)
  pub distinct : Distinct (pendings s.handlers)

-- A request that comes in has an id that no waiting request of its domain has.
abbrev pub Fresh : State → Event → Type 0
Fresh s (joins d request_id) = any (has_id request_id) (entries_at d (pendings s.handlers)) ≡ false
Fresh s _ = Unit

abbrev pub AreFresh : State → List Event → Type 0
AreFresh s [] = Unit
AreFresh s (e ∷ es) = Fresh s e × AreFresh (step s e) es

-- A step that leaves the map, the handlers' entries and the next channel.
Kept-same :
    (s t : State)
    → t.pending_connections ≡ s.pending_connections
    → pendings t.handlers ≡ pendings s.handlers
    → t.next_chan ≡ s.next_chan
    → Kept s
    → Kept t
Kept-same s t pc hs nc k = record {
  same = λ d. rw (pc, hs) (k.same d);
  tidy = λ d. rw pc (k.tidy d);
  rising = rw (hs, nc) k.rising;
  distinct = rw hs k.distinct;
}

join-Kept :
    (d i : Bytes) (s : State)
    → any (has_id i) (entries_at d (pendings s.handlers)) ≡ false
    → Kept s
    → Kept (join d i s)
unfolding join add_pending
join-Kept d i s fresh k = record {
  same = λ e. rw pendings-append (
      pending_of-insert d e _ s.pending_connections
      ∙ ground (
        arith,
        entries_at-append e (pendings s.handlers) new,
        k.same d,
        k.same e,
        bytes_beq_iff d e,
      ));
  tidy = λ e.
      tidy-append d e (pending_of d s.pending_connections) new s.pending_connections (k.tidy e);
  rising = rw pendings-append (append-Rising 0 s.next_chan (pendings s.handlers) new refl k.rising);
  distinct = rw pendings-append (append-Distinct (pendings s.handlers) new k.distinct fresh);
}
  where
    new : Pending
    new = record { domain = d; request_id = i; done_chan = s.next_chan }

leave-Kept :
    (p : Pending) (b : Bool) (s : State)
    → find_pending p.done_chan (pendings s.handlers) ≡ some p
    → Kept s
    → Kept (leave p b s)
unfolding leave
leave-Kept p b s found k = record {
  same = λ e. rw pendings-remove_handler (
      pending_of-remove p.domain p.request_id e s.pending_connections
      ∙ ground (
        arith,
        entries_at-without e p.done_chan (pendings s.handlers) p k.distinct found,
        k.same p.domain,
        k.same e,
        bytes_beq_iff p.domain e,
      ));
  tidy = λ e. tidy-remove p.domain p.request_id e s.pending_connections (k.tidy e);
  rising =
      rw pendings-remove_handler
        (without-Rising p.done_chan 0 s.next_chan (pendings s.handlers) k.rising);
  distinct =
      rw pendings-remove_handler (without-Distinct p.done_chan (pendings s.handlers) k.distinct);
}

receive-Kept : (c : ℕ) (s : State) → Kept s → Kept (receive c s)
unfolding receive move
receive-Kept c s k = elim (Bool-cases (any (λ d. d == c) s.full)) [
  | inl full ↦ rw full (Kept-same s _ refl (pendings-set_phase c (done true) s.handlers) refl k)
  | inr empty ↦ rw empty k
]

check-Kept : (p : Pending) (s : State) → Kept s → Kept (check p s)
unfolding check
check-Kept p s k = elim (Bool-cases (in_progress (lookup p.domain s.establishment_in_progress))) [
  | inl yes_so ↦ rw yes_so k
  | inr not_yet ↦ rw not_yet (Kept-same s _ refl refl refl k)
]

move-Kept : (c : ℕ) (phase : Phase) (s : State) → Kept s → Kept (move c phase s)
unfolding move
move-Kept c phase s k = Kept-same s _ refl (pendings-set_phase c phase s.handlers) refl k

clear_flag-Kept : (d : Bytes) (s : State) → Kept s → Kept (clear_flag d s)
unfolding clear_flag
clear_flag-Kept d s k = Kept-same s _ refl refl refl k

act-Kept :
    (e : Event) (phase : Phase) (p : Pending) (s : State)
    → find_pending p.done_chan (pendings s.handlers) ≡ some p
    → Kept s
    → Kept (act e phase p s)
unfolding act
act-Kept (checks c) added p s found k = move-Kept c waiting (check p s) (check-Kept p s k)
act-Kept (receives c) waiting p s found k = receive-Kept c s k
act-Kept (expires c) waiting p s found k =
    move-Kept c (done false) (clear_flag p.domain s) (clear_flag-Kept p.domain s k)
act-Kept (leaves c) (done success) p s found k = leave-Kept p success s found k
act-Kept (checks c) waiting p s found k = k
act-Kept (checks c) (done b) p s found k = k
act-Kept (receives c) added p s found k = k
act-Kept (receives c) (done b) p s found k = k
act-Kept (expires c) added p s found k = k
act-Kept (expires c) (done b) p s found k = k
act-Kept (leaves c) added p s found k = k
act-Kept (leaves c) waiting p s found k = k
act-Kept (joins d i) phase p s found k = k
act-Kept (clears d) phase p s found k = k
act-Kept (wakes d) phase p s found k = k
act-Kept (fails d) phase p s found k = k

acting-Kept :
    (e : Event) (c : ℕ) (o : Option Handler) (s : State)
    → find_handler c s.handlers ≡ o
    → Kept s
    → Kept (acting e o s)
unfolding acting
acting-Kept e c none s found k = k
acting-Kept e c (some h) s found k =
    act-Kept e h.phase h.pending s
      (subst (λ a. find_pending a (pendings s.handlers) ≡ some h.pending)
        (sym (find_handler-chan c s.handlers h found))
        (find_pending-find_handler c s.handlers h found))
      k

pub step-Kept : (s : State) (e : Event) → Fresh s e → Kept s → Kept (step s e)
unfolding step
step-Kept s (joins d i) fresh k = join-Kept d i s fresh k
step-Kept s (clears d) fresh k = clear_flag-Kept d s k
step-Kept s (wakes d) fresh k = Kept-same s _ refl refl refl k
step-Kept s (fails d) fresh k = clear_flag-Kept d s k
step-Kept s (checks c) fresh k = acting-Kept (checks c) c _ s refl k
step-Kept s (receives c) fresh k = acting-Kept (receives c) c _ s refl k
step-Kept s (expires c) fresh k = acting-Kept (expires c) c _ s refl k
step-Kept s (leaves c) fresh k = acting-Kept (leaves c) c _ s refl k

run-Kept_from : (s : State) (es : List Event) → AreFresh s es → Kept s → Kept (run s es)
unfolding run
run-Kept_from s [] fresh k = k
run-Kept_from s (e ∷ es) (f, fs) k = run-Kept_from (step s e) es fs (step-Kept s e f k)

-- In any order of steps in which a new request never has the id of one that waits for the same
-- domain, the map has, for each domain, exactly the entries of the handlers that have not returned,
-- in the order in which they came; it has no domain without entries; and every handler has a channel
-- of its own.
pub run-Kept : (es : List Event) → AreFresh start es → Kept (run start es)
unfolding start
run-Kept es fresh = run-Kept_from start es fresh begin
  where
    begin : Kept start
    begin = record {
      same = λ d. unfold pending_of lookup entries_at in refl;
      tidy = λ d. unfold lookup in refl;
      rising = omega arith;
      distinct = tt;
    }
