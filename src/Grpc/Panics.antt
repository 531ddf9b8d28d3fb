-- ===== src/Grpc/Panics.antt =====
-- When the process panics on a channel that is closed (internal/tunnel/grpc_service_helpers.go).
use giraffecloud.Base.{
  ℕ, ◌≡◌, refl, ap, ◌∙◌, inl, inr, Bool, true, false, not, ◌&&◌, Option, none, some, List, Bytes,
  nat_eq, bytes_eq, nat_beq_iff, beq_refl, if◌then◌else◌, Bool-cases,
}
use giraffecloud.Base.Map.{lookup}
use giraffecloud.Grpc.Streams.{
  TunnelMessage, Progress, Channel, Phase, idle, answering, forwarding, failing, finishing,
  TunnelStream, start, is_chunked_message, change, push, closed, send, close, forget, is_own,
  clean_up,
}
use giraffecloud.Grpc.Steps.{
  is_none, in_phase, then_close, then_forget, deliver, proceed, with_progress, Event, registers,
  sends, receives, gives_up, arrives, proceeds, disconnects, is_sending, is_waiting, sent, act,
  acting, step, run,
}
use giraffecloud.Grpc.Channels.{closed-applied, lookup-change, Inv}
use giraffecloud.Grpc.Sections.{push_same}
use giraffecloud.Grpc.Matched.{reached-Inv}

-- The section that comes next uses a channel that was closed since its lookup.
abbrev pub is_stale : Phase → TunnelStream → Bool
is_stale idle s = false
is_stale (answering n m) s = not (is_chunked_message m) && closed (lookup n s.channels)
is_stale (forwarding n m) s = closed (lookup n s.channels)
is_stale (failing n m) s = closed (lookup n s.channels)
is_stale (finishing n m) s = closed (lookup n s.channels)

abbrev pub is_proceeds : Event → Bool
is_proceeds proceeds = true
is_proceeds _ = false

send_panics :
    (n : ℕ) (m : TunnelMessage) (s : TunnelStream)
    → is_none (send n m s) ≡ closed (lookup n s.channels)
unfolding send
send_panics n m s = elim (Bool-cases (closed (lookup n s.channels))) [
  | inl shut_yet ↦ rw shut_yet refl
  | inr open_yet ↦ rw open_yet refl
]

close_panics : (n : ℕ) (s : TunnelStream) → is_none (close n s) ≡ closed (lookup n s.channels)
unfolding close
close_panics n s = elim (Bool-cases (closed (lookup n s.channels))) [
  | inl shut_yet ↦ rw shut_yet refl
  | inr open_yet ↦ rw open_yet refl
]

is_none-in_phase :
    (phase : Phase) (o : Option TunnelStream) → is_none (in_phase phase o) ≡ is_none o
is_none-in_phase phase none = refl
is_none-in_phase phase (some s) = refl

is_none-with_progress :
    (n : ℕ) (progress : Progress) (o : Option TunnelStream)
    → is_none (with_progress n progress o) ≡ is_none o
is_none-with_progress n progress none = refl
is_none-with_progress n progress (some s) = refl

is_own-some : (n : ℕ) (o : Option ℕ) → is_own n o ≡ true → o ≡ some n
is_own-some n none h = cc
is_own-some n (some k) h = ap some ((nat_beq_iff k n).0 h)

-- A channel that is still registered is open.
own_open :
    (n : ℕ) (id : Bytes) (s : TunnelStream)
    → Inv s
    → is_own n (lookup id s.pending_requests) ≡ true
    → closed (lookup n s.channels) ≡ false
own_open n id s i own = (i.registered id n (is_own-some n _ own)).1

clean_up_safe : (n : ℕ) (id : Bytes) (s : TunnelStream) → Inv s → is_none (clean_up n id s) ≡ false
unfolding clean_up
clean_up_safe n id s i = elim (Bool-cases (is_own n (lookup id s.pending_requests))) [
  | inl own ↦ rw own (close_panics n (forget id s) ∙ own_open n id s i own)
  | inr other ↦ rw other refl
]

-- A channel that took a message is as open as before.
deliver_whole_panics :
    (n : ℕ) (m : TunnelMessage) (s : TunnelStream)
    → is_none (then_close n (then_forget m.request_id (send n m s))) ≡ closed (lookup n s.channels)
unfolding send
deliver_whole_panics n m s = elim (Bool-cases (closed (lookup n s.channels))) [
  | inl shut_yet ↦ rw shut_yet refl
  | inr open_yet ↦ rw open_yet (
      close_panics n (forget m.request_id (change n (push m) s))
      ∙ ap closed (lookup-change n n (push m) s)
      ∙ rw (beq_refl n)
          (closed-applied (push m) (lookup n s.channels) (λ c. (push_same m c).1) ∙ open_yet))
]

deliver_panics :
    (n : ℕ) (m : TunnelMessage) (s : TunnelStream)
    → Inv s
    → is_none (deliver n m s) ≡ (not (is_chunked_message m) && closed (lookup n s.channels))
unfolding deliver
deliver_panics n m s i = elim (Bool-cases (is_chunked_message m)) [
  | inl chunked ↦
      rw chunked (elim (Bool-cases (is_own n (lookup m.request_id s.pending_requests))) [
        | inl own ↦ rw own (send_panics n m s ∙ own_open n m.request_id s i own)
        | inr other ↦ rw other refl
      ])
  | inr whole ↦ rw whole (deliver_whole_panics n m s)
]

proceed_panics :
    (phase : Phase) (s : TunnelStream) → Inv s → is_none (proceed phase s) ≡ is_stale phase s
unfolding proceed
proceed_panics idle s i = refl
proceed_panics (answering n m) s i = is_none-in_phase idle _ ∙ deliver_panics n m s i
proceed_panics (forwarding n m) s i = is_none-in_phase idle _ ∙ send_panics n m s
proceed_panics (failing n m) s i = is_none-in_phase (finishing n m) _ ∙ send_panics n m s
proceed_panics (finishing n m) s i =
    is_none-in_phase idle _ ∙ close_panics n (forget m.request_id s)

is_none-if :
    (b : Bool) (o : Option TunnelStream) (s : TunnelStream)
    → is_none o ≡ false
    → is_none (if b then o else some s) ≡ false
is_none-if true o s h = h
is_none-if false o s h = refl

sent_safe :
    (ok : Bool) (n : ℕ) (c : Channel) (s : TunnelStream) → Inv s → is_none (sent ok n c s) ≡ false
unfolding sent
sent_safe true n c s i = refl
sent_safe false n c s i = is_none-with_progress n _ _ ∙ clean_up_safe n c.request_id s i

act_safe : (e : Event) (c : Channel) (s : TunnelStream) → Inv s → is_none (act e c s) ≡ false
unfolding act
act_safe (sends n ok) c s i = is_none-if (is_sending c.progress) _ s (sent_safe ok n c s i)
act_safe (receives n) c s i = is_none-if (is_waiting c.progress) _ s refl
act_safe (gives_up n why) c s i =
    is_none-if (is_waiting c.progress) _ s
      (is_none-with_progress n _ _ ∙ clean_up_safe n c.request_id s i)
act_safe (registers id) c s i = refl
act_safe (arrives m) c s i = refl
act_safe proceeds c s i = refl
act_safe disconnects c s i = refl

acting_safe :
    (e : Event) (o : Option Channel) (s : TunnelStream) → Inv s → is_none (acting e o s) ≡ false
acting_safe e none s i = refl
acting_safe e (some c) s i = act_safe e c s i

step_panics :
    (s : TunnelStream) (e : Event)
    → Inv s
    → is_none (step s e) ≡ (is_proceeds e && is_stale s.phase s)
unfolding step
step_panics s (registers id) i = refl
step_panics s (sends n ok) i = acting_safe (sends n ok) _ s i
step_panics s (receives n) i = acting_safe (receives n) _ s i
step_panics s (gives_up n why) i = acting_safe (gives_up n why) _ s i
step_panics s (arrives m) i = refl
step_panics s proceeds i = proceed_panics s.phase s i
step_panics s disconnects i = refl

-- After any steps without a panic, the next one panics in one case only, and always in that case:
-- the goroutine that reads the client's messages goes on with a channel that was closed after it
-- had looked it up, unless its message is a chunk of a response, for which it looks again.
pub run-panics :
    (es : List Event) (s : TunnelStream) (e : Event)
    → run (some start) es ≡ some s
    → is_none (step s e) ≡ (is_proceeds e && is_stale s.phase s)
run-panics es s e ends = step_panics s e (reached-Inv es s ends)
