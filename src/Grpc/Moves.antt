-- ===== src/Grpc/Moves.antt =====
-- What single steps of the requests and of the reader keep (internal/tunnel/grpc_service_helpers.go).
use giraffecloud.Base.{
  ℕ, ◌≡◌, refl, sym, ap, ◌∙◌, subst, inl, inr, Bool, true, false, Option, none, some, List, [], ◌∷◌,
  Bytes, ◌==◌, nat_eq, bytes_eq, if◌then◌else◌, arith, Bool-cases, Option-cases, All,
}
use mathlib.Core.Option.{some-injective}
use giraffecloud.Base.Map.{lookup}
use giraffecloud.Grpc.Streams.{
  TunnelMessage, MessageType, http_response, http_request_start, http_request_chunk,
  http_request_end, control, unknown, error, Failure, send_failed, Progress, waiting, uploading,
  failed, Channel, Phase, idle, answering, forwarding, failing, finishing, TunnelStream, change,
}
use giraffecloud.Grpc.Steps.{
  to_phase, is_none, arrive, set_progress, receiving, with_progress, Event, sends, receives,
  gives_up, is_sending, is_waiting, sent, act, acting, start_handling,
}
use giraffecloud.Grpc.Channels.{owner, Got, Fits, Held, Inv, Inv-change}
use giraffecloud.Grpc.Sections.{Good, Owned-Good, Inv-in_phase, clean_up-Owned}
use giraffecloud.Grpc.Registered.{Inv-register}

to_phase-Inv :
    (phase : ℕ → TunnelMessage → Phase) (m : TunnelMessage) (s : TunnelStream)
    → ((n : ℕ) (channels : List (ℕ × Channel))
        → owner (lookup n channels) ≡ some m.request_id
        → Held channels (phase n m))
    → Inv s
    → Inv (to_phase phase m (lookup m.request_id s.pending_requests) s)
to_phase-Inv phase m s holds i = elim (Option-cases (lookup m.request_id s.pending_requests)) [
  | inl absent ↦ rw absent i
  | inr (n, found) ↦
      rw found
        (Inv-in_phase (phase n m) s i (holds n s.channels (i.registered m.request_id n found).0))
]

arrive-Inv :
    (m : TunnelMessage) (type : MessageType) (s : TunnelStream) → Inv s → Inv (arrive m type s)
unfolding arrive
arrive-Inv m (http_response r) s i = to_phase-Inv answering m s (λ n channels own. own) i
arrive-Inv m (http_request_start id) s i =
    elim (Bool-cases (is_none (lookup id s.pending_requests))) [
      | inl new ↦ rw new (Inv-register id 64 uploading s i tt)
      | inr old ↦ rw old i
    ]
arrive-Inv m http_request_chunk s i = to_phase-Inv forwarding m s (λ n channels own. own) i
arrive-Inv m http_request_end s i = to_phase-Inv forwarding m s (λ n channels own. own) i
arrive-Inv m control s i = i
arrive-Inv m unknown s i = i
arrive-Inv m (error message code) s i = elim (Bool-cases (m.request_id == [])) [
  | inl general ↦ rw general i
  | inr specific ↦ rw specific (to_phase-Inv failing m s (λ n channels own. own) i)
]

pub start_handling-Inv :
    (phase : Phase) (m : TunnelMessage) (s : TunnelStream) → Inv s → Inv (start_handling phase m s)
start_handling-Inv idle m s i = arrive-Inv m m.message_type s i
start_handling-Inv (answering n k) m s i = i
start_handling-Inv (forwarding n k) m s i = i
start_handling-Inv (failing n k) m s i = i
start_handling-Inv (finishing n k) m s i = i

-- A change of the progress, to one that has received nothing.
Inv-set_progress :
    (n : ℕ) (progress : Progress) (s : TunnelStream)
    → ((id : Bytes) → Got id progress)
    → Inv s
    → Inv (change n (set_progress progress) s)
Inv-set_progress n progress s got i = Inv-change s n (set_progress progress) i (record {
  same = λ c. refl;
  fits = λ c found h. (h.0, got c.request_id);
  stays = λ id found c. refl;
})

receiving-Fits :
    (ms : List TunnelMessage) (c : Channel)
    → All (λ m. m.request_id ≡ c.request_id) ms
    → Fits c
    → Fits (receiving ms c)
receiving-Fits (m ∷ ms) c (first, others) (h, g) = (others, first)
receiving-Fits [] c a (h, g) = elim (Bool-cases c.is_closed) [
  | inl shut_yet ↦ rw shut_yet (h, tt)
  | inr open_yet ↦ rw open_yet (h, g)
]

receiving_same :
    (ms : List TunnelMessage) (c : Channel)
    → ((receiving ms c).request_id ≡ c.request_id) × ((receiving ms c).is_closed ≡ c.is_closed)
receiving_same [] c = ground arith
receiving_same (m ∷ ms) c = (refl, refl)

Inv-receiving :
    (n : ℕ) (c : Channel) (s : TunnelStream)
    → lookup n s.channels ≡ some c
    → Inv s
    → Inv (change n (receiving c.buffer) s)
Inv-receiving n c s found i = Inv-change s n (receiving c.buffer) i (record {
  same = λ d. (receiving_same c.buffer d).0;
  fits = λ d at h.
      let same : c ≡ d = some-injective _ _ (sym found ∙ at) in
      receiving-Fits c.buffer d
        (subst (λ e. All (λ m. m.request_id ≡ d.request_id) e.buffer) (sym same) h.0) h;
  stays = λ id at d. (receiving_same c.buffer d).1;
})

with_progress-Good :
    (n : ℕ) (why : Failure) (o : Option TunnelStream)
    → Good o
    → Good (with_progress n (failed why) o)
with_progress-Good n why none h = tt
with_progress-Good n why (some s) i = Inv-set_progress n (failed why) s (λ id. tt) i

sent-Good :
    (ok : Bool) (n : ℕ) (c : Channel) (s : TunnelStream)
    → lookup n s.channels ≡ some c
    → Inv s
    → Good (sent ok n c s)
unfolding sent
sent-Good true n c s found i = Inv-set_progress n waiting s (λ id. tt) i
sent-Good false n c s found i =
    with_progress-Good n send_failed _
      (Owned-Good n c.request_id _ (clean_up-Owned n c.request_id s i (ap owner found)))

-- One of two results.
Good-if : (b : Bool) (o p : Option TunnelStream) → Good o → Good p → Good (if b then o else p)
Good-if true o p h k = h
Good-if false o p h k = k

module _ (n : ℕ) (s : TunnelStream) (i : Inv s) where
  pub act_sends-Good :
      (ok : Bool) (c : Channel) → lookup n s.channels ≡ some c → Good (act (sends n ok) c s)
  unfolding act
  act_sends-Good ok c found =
      Good-if (is_sending c.progress) _ (some s) (sent-Good ok n c s found i) i

  pub act_receives-Good : (c : Channel) → lookup n s.channels ≡ some c → Good (act (receives n) c s)
  unfolding act
  act_receives-Good c found =
      Good-if (is_waiting c.progress) _ (some s) (Inv-receiving n c s found i) i

  pub act_gives_up-Good :
      (why : Failure) (c : Channel) → lookup n s.channels ≡ some c → Good (act (gives_up n why) c s)
  unfolding act
  act_gives_up-Good why c found =
      Good-if (is_waiting c.progress) _ (some s)
        (with_progress-Good n why _
          (Owned-Good n c.request_id _ (clean_up-Owned n c.request_id s i (ap owner found))))
        i

  pub acting-Good :
      (e : Event)
      → ((c : Channel) → lookup n s.channels ≡ some c → Good (act e c s))
      → Good (acting e (lookup n s.channels) s)
  acting-Good e each = elim (Option-cases (lookup n s.channels)) [
    | inl absent ↦ rw absent i
    | inr (c, found) ↦ rw found (each c found)
  ]
