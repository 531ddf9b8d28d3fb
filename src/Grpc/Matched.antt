-- ===== src/Grpc/Matched.antt =====
-- The messages of a client reach the requests that they answer
-- (internal/tunnel/grpc_service_helpers.go).
use giraffecloud.Base.{
  ℕ, ◌≡◌, refl, subst, inl, inr, Option, none, some, List, [], ◌∷◌, Bytes, nat_eq, bytes_eq,
  Option-cases, All,
}
use mathlib.Core.Option.{some-injective}
use giraffecloud.Base.Map.{lookup, All-lookup}
use giraffecloud.Grpc.Streams.{
  TunnelMessage, Progress, sending, received, Channel, TunnelStream, start, change, shut,
}
use giraffecloud.Grpc.Steps.{
  Event, registers, sends, receives, gives_up, arrives, proceeds, disconnects, shut_each, step,
  stepping, run,
}
use giraffecloud.Grpc.Channels.{Got, Fits, Inv, Inv-change}
use giraffecloud.Grpc.Sections.{Good, proceed-Good}
use giraffecloud.Grpc.Registered.{Inv-register}
use giraffecloud.Grpc.Moves.{
  start_handling-Inv, act_sends-Good, act_receives-Good, act_gives_up-Good, acting-Good,
}

nil_absent {ℓ} : (id : Bytes) (n : ℕ) → lookup id start.pending_requests ≡ some n → (A : Type ℓ) → A
unfolding lookup
nil_absent id n found A = cc

pending_nil-Inv : (s : TunnelStream) → Inv s → Inv (record s { pending_requests = [] })
unfolding lookup
pending_nil-Inv s i = record {
  registered = λ id n found. nil_absent id n found _;
  fresh = i.fresh;
  matched = i.matched;
  held = i.held;
}

change-pending :
    (n : ℕ) (f : Channel → Channel) (s : TunnelStream)
    → change n f (record s { pending_requests = [] })
      ≡ record (change n f s) { pending_requests = [] }
unfolding change
change-pending n f s = elim (Option-cases (lookup n s.channels)) [
  | inl absent ↦ rw absent refl
  | inr (c, found) ↦ rw found refl
]

shut_each-Inv :
    (pending : List (Bytes × ℕ)) (s : TunnelStream)
    → Inv (record s { pending_requests = [] })
    → Inv (record (shut_each pending s) { pending_requests = [] })
unfolding shut_each
shut_each-Inv [] s i = i
shut_each-Inv ((id, n) ∷ pending) s i = shut_each-Inv pending (change n shut s) (
    subst Inv (change-pending n shut s) (
      Inv-change (record s { pending_requests = [] }) n shut i
        (record {
          same = λ c. refl;
          fits = λ c found h. h;
          stays = λ j found c. nil_absent j n found _;
        })))

step-Good : (s : TunnelStream) (e : Event) → Inv s → Good (step s e)
unfolding step
step-Good s (registers id) i = Inv-register id 1 sending s i tt
step-Good s (sends n ok) i = acting-Good n s i (sends n ok) (act_sends-Good n s i ok)
step-Good s (receives n) i = acting-Good n s i (receives n) (act_receives-Good n s i)
step-Good s (gives_up n why) i = acting-Good n s i (gives_up n why) (act_gives_up-Good n s i why)
step-Good s (arrives m) i = start_handling-Inv s.phase m s i
step-Good s proceeds i = proceed-Good s.phase s i i.held
step-Good s disconnects i = shut_each-Inv s.pending_requests s (pending_nil-Inv s i)

stepping-Good : (o : Option TunnelStream) (e : Event) → Good o → Good (stepping o e)
stepping-Good none e h = tt
stepping-Good (some s) e i = step-Good s e i

run-Good : (o : Option TunnelStream) (es : List Event) → Good o → Good (run o es)
unfolding run
run-Good o [] h = h
run-Good o (e ∷ es) h = run-Good (stepping o e) es (stepping-Good o e h)

start-Inv : Inv start
unfolding lookup
start-Inv = record {
  registered = λ id n found. nil_absent id n found _;
  fresh = λ n far. refl;
  matched = tt;
  held = tt;
}

Good-some : (o : Option TunnelStream) (s : TunnelStream) → o ≡ some s → Good o → Inv s
Good-some none s e h = cc
Good-some (some t) s e h = subst Inv (some-injective _ _ e) h

-- The state after any events that do not end in a panic is well formed.
pub reached-Inv : (es : List Event) (s : TunnelStream) → run (some start) es ≡ some s → Inv s
reached-Inv es s ends = Good-some _ s ends (run-Good (some start) es start-Inv)

abbrev pub Answered : Bytes → Progress → Type 0
Answered id progress = (m : TunnelMessage) → progress ≡ received (some m) → m.request_id ≡ id

Got-Answered : (id : Bytes) (progress : Progress) → Got id progress → Answered id progress
Got-Answered id progress got m e = subst (Got id) e got

-- After any steps of the requests of one client, of the goroutine that reads its messages and of
-- the clean-up, in any order, a request that received a message received one that carries the id
-- under which the request registered, and so do the messages that its channel still holds.
pub run-Answered :
    (es : List Event) (s : TunnelStream) (n : ℕ) (c : Channel)
    → run (some start) es ≡ some s
    → lookup n s.channels ≡ some c
    → Answered c.request_id c.progress × All (λ m. m.request_id ≡ c.request_id) c.buffer
run-Answered es s n c ends found =
    let fits = All-lookup (λ e. Fits e.1) n s.channels (reached-Inv es s ends).matched found in
    (Got-Answered c.request_id c.progress fits.1, fits.0)
