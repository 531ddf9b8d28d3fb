-- ===== src/Router/Waiting/Others.antt =====
-- What the other goroutines leave of a handler of internal/tunnel/hybrid_router.go: its phase, and the
-- value in its channel.
use giraffecloud.Base.{
  ℕ, ◌≡◌, ◌≢◌, refl, sym, subst, inl, inr, Bool, true, false, Option, none, some, List, [], ◌∷◌,
  ◌++◌, ◌==◌, nat_eq, bytes_eq, any, arith, Bool-cases,
}
use giraffecloud.Router.Waiting.Entries.{find_handler-chan}
use giraffecloud.Router.Waiting.Kept.{Kept, Fresh, step-Kept}
use giraffecloud.Router.Waiting.{
  Pending, Phase, added, waiting, done, Handler, State, check, notify, notify_all, received,
  set_phase, move, find_handler, remove_handler, leave, receive, clear_flag, join, pending_of,
  Event, joins, checks, receives, expires, leaves, clears, wakes, fails, act, acting, step, run,
}

-- A step that is not one of the handler with the channel.
abbrev pub IsOther : ℕ → Event → Type 0
IsOther c (checks b) = b ≢ c
IsOther c (receives b) = b ≢ c
IsOther c (expires b) = b ≢ c
IsOther c (leaves b) = b ≢ c
IsOther c (joins domain request_id) = Unit {0}
IsOther c (clears domain) = Unit {0}
IsOther c (wakes domain) = Unit {0}
IsOther c (fails domain) = Unit {0}

-- Steps of others, none of which brings an id that waits already.
abbrev pub Elsewhere : ℕ → State → List Event → Type 0
Elsewhere c s [] = Unit {0}
Elsewhere c s (e ∷ es) = IsOther c e × Fresh s e × Elsewhere c (step s e) es

abbrev pub is_full : ℕ → List ℕ → Bool
is_full c full = any (λ d. d == c) full

-- The handler is as it was, and so is a value in its channel.
abbrev pub Stays : ℕ → State → State → Type 0
Stays c s t =
    ((h : Handler) → find_handler c s.handlers ≡ some h → find_handler c t.handlers ≡ some h)
    × (is_full c s.full ≡ true → is_full c t.full ≡ true)

notify-kept : (c b : ℕ) (full : List ℕ) → is_full c full ≡ true → is_full c (notify b full) ≡ true
unfolding notify
notify-kept c b full h = ground (arith, h)

pub notify_all-kept :
    (c : ℕ) (ps : List Pending) (full : List ℕ)
    → is_full c full ≡ true
    → is_full c (notify_all ps full) ≡ true
unfolding notify_all
notify_all-kept c [] full h = h
notify_all-kept c (p ∷ ps) full h =
    notify_all-kept c ps (notify p.done_chan full) (notify-kept c p.done_chan full h)

received-kept :
    (c b : ℕ) (full : List ℕ) → b ≢ c → is_full c full ≡ true → is_full c (received b full) ≡ true
unfolding received
received-kept c b [] apart h = h
received-kept c b (d ∷ full) apart h = ground (arith, h, apart, received-kept c b full apart)

find_handler-append :
    (c : ℕ) (hs more : List Handler) (h : Handler)
    → find_handler c hs ≡ some h
    → find_handler c (hs ++ more) ≡ some h
unfolding find_handler
find_handler-append c [] more h e = cc
find_handler-append c (k ∷ hs) more h e = ground (arith, e, find_handler-append c hs more h)

find_handler-set_phase_other :
    (c b : ℕ) (phase : Phase) (hs : List Handler)
    → b ≢ c
    → find_handler c (set_phase b phase hs) ≡ find_handler c hs
unfolding find_handler set_phase
find_handler-set_phase_other c b phase [] apart = refl
find_handler-set_phase_other c b phase (k ∷ hs) apart =
    ground (arith, apart, find_handler-set_phase_other c b phase hs apart)

find_handler-remove_other :
    (c b : ℕ) (hs : List Handler) → b ≢ c → find_handler c (remove_handler b hs) ≡ find_handler c hs
unfolding find_handler remove_handler
find_handler-remove_other c b [] apart = refl
find_handler-remove_other c b (k ∷ hs) apart =
    ground (arith, apart, find_handler-remove_other c b hs apart)

move-Stays :
    (c b : ℕ) (phase : Phase) (s t : State)
    → b ≢ c
    → t.handlers ≡ s.handlers
    → t.full ≡ s.full
    → Stays c s (move b phase t)
unfolding move
move-Stays c b phase s t apart hs full =
    (λ h e. rw (find_handler-set_phase_other c b phase t.handlers apart, hs) e, λ e. rw full e)

receive-Stays : (c b : ℕ) (s : State) → b ≢ c → Stays c s (receive b s)
unfolding receive move
receive-Stays c b s apart = elim (Bool-cases (is_full b s.full)) [
  | inl yes_so ↦ rw yes_so (
    λ h e. rw (find_handler-set_phase_other c b (done true) s.handlers apart) e,
    received-kept c b s.full apart,
  )
  | inr not_so ↦ rw not_so (λ h e. e, λ e. e)
]

leave-Stays :
    (c : ℕ) (p : Pending) (success : Bool) (s : State)
    → p.done_chan ≢ c
    → Stays c s (leave p success s)
unfolding leave
leave-Stays c p success s apart =
    (λ h e. rw (find_handler-remove_other c p.done_chan s.handlers apart) e, λ e. e)

check-handlers : (p : Pending) (s : State) → (check p s).handlers ≡ s.handlers
unfolding check
check-handlers p s = ground arith

check-full : (p : Pending) (s : State) → (check p s).full ≡ s.full
unfolding check
check-full p s = ground arith

act-Stays :
    (c : ℕ) (e : Event) (phase : Phase) (p : Pending) (s : State)
    → IsOther c e
    → p.done_chan ≢ c
    → Stays c s (act e phase p s)
unfolding act clear_flag
act-Stays c (checks b) added p s apart mine =
    move-Stays c b waiting s (check p s) apart (check-handlers p s) (check-full p s)
act-Stays c (receives b) waiting p s apart mine = receive-Stays c b s apart
act-Stays c (expires b) waiting p s apart mine =
    move-Stays c b (done false) s (clear_flag p.domain s) apart refl refl
act-Stays c (leaves b) (done success) p s apart mine = leave-Stays c p success s mine
act-Stays c (checks b) waiting p s apart mine = (λ h e. e, λ e. e)
act-Stays c (checks b) (done x) p s apart mine = (λ h e. e, λ e. e)
act-Stays c (receives b) added p s apart mine = (λ h e. e, λ e. e)
act-Stays c (receives b) (done x) p s apart mine = (λ h e. e, λ e. e)
act-Stays c (expires b) added p s apart mine = (λ h e. e, λ e. e)
act-Stays c (expires b) (done x) p s apart mine = (λ h e. e, λ e. e)
act-Stays c (leaves b) added p s apart mine = (λ h e. e, λ e. e)
act-Stays c (leaves b) waiting p s apart mine = (λ h e. e, λ e. e)
act-Stays c (joins d i) phase p s apart mine = (λ h e. e, λ e. e)
act-Stays c (clears d) phase p s apart mine = (λ h e. e, λ e. e)
act-Stays c (wakes d) phase p s apart mine = (λ h e. e, λ e. e)
act-Stays c (fails d) phase p s apart mine = (λ h e. e, λ e. e)

acting-Stays :
    (c b : ℕ) (e : Event) (o : Option Handler) (s : State)
    → IsOther c e
    → b ≢ c
    → find_handler b s.handlers ≡ o
    → Stays c s (acting e o s)
unfolding acting
acting-Stays c b e none s apart differs found = (λ h e. e, λ e. e)
acting-Stays c b e (some h) s apart differs found =
    act-Stays c e h.phase h.pending s apart
      (subst (λ d. d ≢ c) (sym (find_handler-chan b s.handlers h found)) differs)

step-Stays : (c : ℕ) (s : State) (e : Event) → IsOther c e → Stays c s (step s e)
unfolding step join clear_flag
step-Stays c s (joins d i) apart = (find_handler-append c s.handlers _, λ e. e)
step-Stays c s (clears d) apart = (λ h e. e, λ e. e)
step-Stays c s (fails d) apart = (λ h e. e, λ e. e)
step-Stays c s (wakes d) apart =
    (λ h e. e, notify_all-kept c (pending_of d s.pending_connections) s.full)
step-Stays c s (checks b) apart = acting-Stays c b (checks b) _ s apart apart refl
step-Stays c s (receives b) apart = acting-Stays c b (receives b) _ s apart apart refl
step-Stays c s (expires b) apart = acting-Stays c b (expires b) _ s apart apart refl
step-Stays c s (leaves b) apart = acting-Stays c b (leaves b) _ s apart apart refl

-- Any steps of others.
pub run-Stays :
    (c : ℕ) (s : State) (es : List Event)
    → Elsewhere c s es
    → Kept s
    → Stays c s (run s es) × Kept (run s es)
unfolding run
run-Stays c s [] apart k = ((λ h e. e, λ e. e), k)
run-Stays c s (e ∷ es) (apart, fresh, others) k =
    let now = step-Stays c s e apart in
    let (rest, kept) = run-Stays c (step s e) es others (step-Kept s e fresh k) in
    ((λ h found. rest.0 h (now.0 h found), λ full. rest.1 (now.1 full)), kept)
