-- ===== src/Grpc/Sections.antt =====
-- The sections of the handlers of internal/tunnel/grpc_service_helpers.go keep the streams well formed.
use giraffecloud.Base.{
  ℕ, ◌≡◌, refl, ◌∙◌, inl, inr, Option, none, some, List, Bytes, ◌==◌, nat_eq, bytes_eq, beq_refl,
  length, ltb, arith, Bool-cases, All-concat,
}
use giraffecloud.Base.Map.{lookup, delete, lookup-delete}
use giraffecloud.Grpc.Streams.{
  TunnelMessage, Channel, Phase, idle, answering, forwarding, failing, finishing, TunnelStream,
  is_chunked_message, push, shut, closed, send, close, forget, is_own, clean_up,
}
use giraffecloud.Grpc.Steps.{in_phase, then_close, then_forget, deliver, proceed}
use giraffecloud.Grpc.Channels.{owner, Fits, Held, Inv, Inv-change, owner-change}

-- A result in which the process has not panicked is well formed.
abbrev pub Good : Option TunnelStream → Type 0
Good none = Unit
Good (some s) = Inv s

-- The same, where the channel belongs to the id.
abbrev pub Owned : ℕ → Bytes → Option TunnelStream → Type 0
Owned n id none = Unit
Owned n id (some s) = Inv s × (owner (lookup n s.channels) ≡ some id)

lookup-delete_same : (id : Bytes) (m : List (Bytes × ℕ)) → lookup id (delete id m) ≡ none
lookup-delete_same id m = rw (lookup-delete id id m) (rw (beq_refl id) refl)

Inv-forget : (id : Bytes) (s : TunnelStream) → Inv s → Inv (forget id s)
Inv-forget id s i = record {
  registered = λ j n found. elim (Bool-cases (id == j)) [
    | inl same ↦ let none_yet = rw (lookup-delete id j s.pending_requests, same) at found in cc
    | inr other ↦ i.registered j n (rw (lookup-delete id j s.pending_requests, other) at found)
  ];
  fresh = i.fresh;
  matched = i.matched;
  held = i.held;
}

pub Inv-in_phase :
    (phase : Phase) (s : TunnelStream)
    → Inv s
    → Held s.channels phase
    → Inv (record s { phase = phase })
Inv-in_phase phase s i h = record {
  registered = i.registered;
  fresh = i.fresh;
  matched = i.matched;
  held = h;
}

pub owner_of :
    (n : ℕ) (c : Channel) (id : Bytes) (channels : List (ℕ × Channel))
    → lookup n channels ≡ some c
    → owner (lookup n channels) ≡ some id
    → id ≡ c.request_id
owner_of n c id channels found own = cc

push-Fits :
    (m : TunnelMessage) (c : Channel) → m.request_id ≡ c.request_id → Fits c → Fits (push m c)
push-Fits m c same (h, g) = elim (Bool-cases (ltb (length c.buffer) c.capacity)) [
  | inl room ↦ rw room (All-concat (λ k. k.request_id ≡ c.request_id) c.buffer h same, g)
  | inr full ↦ rw full (h, g)
]

pub push_same :
    (m : TunnelMessage) (c : Channel)
    → ((push m c).request_id ≡ c.request_id) × ((push m c).is_closed ≡ c.is_closed)
push_same m c = ground arith

pub send-Owned :
    (n : ℕ) (m : TunnelMessage) (s : TunnelStream)
    → Inv s
    → owner (lookup n s.channels) ≡ some m.request_id
    → Owned n m.request_id (send n m s)
unfolding send
send-Owned n m s i own = elim (Bool-cases (closed (lookup n s.channels))) [
  | inl shut_yet ↦ rw shut_yet tt
  | inr open_yet ↦ rw open_yet (
    Inv-change s n (push m) i (record {
      same = λ c. (push_same m c).0;
      fits = λ c found. push-Fits m c (owner_of n c m.request_id s.channels found own);
      stays = λ id found c. (push_same m c).1;
    }),
    owner-change n n (push m) s (λ c. (push_same m c).0) ∙ own,
  )
]

close-Good :
    (n : ℕ) (id : Bytes) (s : TunnelStream)
    → Inv s
    → owner (lookup n s.channels) ≡ some id
    → lookup id s.pending_requests ≡ none
    → Owned n id (close n s)
unfolding close
close-Good n id s i own gone = elim (Bool-cases (closed (lookup n s.channels))) [
  | inl shut_yet ↦ rw shut_yet tt
  | inr open_yet ↦ rw open_yet (
    Inv-change s n shut i (record {
      same = λ c. refl;
      fits = λ c found h. h;
      stays = λ j found c. let own_too = (i.registered j n found).0 in cc;
    }),
    owner-change n n shut s (λ c. refl) ∙ own,
  )
]

pub Owned-Good : (n : ℕ) (id : Bytes) (o : Option TunnelStream) → Owned n id o → Good o
Owned-Good n id none h = tt
Owned-Good n id (some s) h = h.0

pub Good-in_phase :
    (n : ℕ) (m : TunnelMessage) (phase : Phase) (o : Option TunnelStream)
    → ((channels : List (ℕ × Channel))
        → owner (lookup n channels) ≡ some m.request_id
        → Held channels phase)
    → Owned n m.request_id o
    → Good (in_phase phase o)
Good-in_phase n m phase none holds h = tt
Good-in_phase n m phase (some s) holds (i, own) = Inv-in_phase phase s i (holds s.channels own)

pub clean_up-Owned :
    (n : ℕ) (id : Bytes) (s : TunnelStream)
    → Inv s
    → owner (lookup n s.channels) ≡ some id
    → Owned n id (clean_up n id s)
unfolding clean_up
clean_up-Owned n id s i own = elim (Bool-cases (is_own n (lookup id s.pending_requests))) [
  | inl owned ↦ rw owned (
      close-Good n id (forget id s) (Inv-forget id s i) own
        (lookup-delete_same id s.pending_requests))
  | inr other ↦ rw other (i, own)
]

deliver_whole :
    (n : ℕ) (m : TunnelMessage) (o : Option TunnelStream)
    → Owned n m.request_id o
    → Owned n m.request_id (then_close n (then_forget m.request_id o))
deliver_whole n m none h = tt
deliver_whole n m (some s) (i, own) =
    close-Good n m.request_id (forget m.request_id s) (Inv-forget m.request_id s i) own
      (lookup-delete_same m.request_id s.pending_requests)

deliver-Owned :
    (n : ℕ) (m : TunnelMessage) (s : TunnelStream)
    → Inv s
    → owner (lookup n s.channels) ≡ some m.request_id
    → Owned n m.request_id (deliver n m s)
unfolding deliver
deliver-Owned n m s i own = elim (Bool-cases (is_chunked_message m)) [
  | inl chunked ↦
      rw chunked (elim (Bool-cases (is_own n (lookup m.request_id s.pending_requests))) [
        | inl owned ↦ rw owned (send-Owned n m s i own)
        | inr other ↦ rw other (i, own)
      ])
  | inr whole ↦ rw whole (deliver_whole n m (send n m s) (send-Owned n m s i own))
]

pub proceed-Good :
    (phase : Phase) (s : TunnelStream) → Inv s → Held s.channels phase → Good (proceed phase s)
unfolding proceed
proceed-Good idle s i h = i
proceed-Good (answering n m) s i h =
    Good-in_phase n m idle _ (λ channels own. tt) (deliver-Owned n m s i h)
proceed-Good (forwarding n m) s i h =
    Good-in_phase n m idle _ (λ channels own. tt) (send-Owned n m s i h)
proceed-Good (failing n m) s i h =
    Good-in_phase n m (finishing n m) _ (λ channels own. own) (send-Owned n m s i h)
proceed-Good (finishing n m) s i h =
    Good-in_phase n m idle _ (λ channels own. tt)
      (close-Good n m.request_id (forget m.request_id s) (Inv-forget m.request_id s i) h
        (lookup-delete_same m.request_id s.pending_requests))
