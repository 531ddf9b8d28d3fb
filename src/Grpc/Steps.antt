-- ===== src/Grpc/Steps.antt =====
-- The steps on the streams of Streams: the handlers of the client's messages, the requests, and
-- cleanupTunnelStreamState (internal/tunnel/grpc_service_helpers.go, grpc_service.go).
use giraffecloud.Base.{
  ℕ, Bool, true, false, Option, none, some, List, [], ◌∷◌, Bytes, ◌==◌, nat_eq, bytes_eq,
  if◌then◌else◌,
}
use giraffecloud.Base.Map.{lookup}
use giraffecloud.Grpc.Streams.{
  MessageType, TunnelMessage, Failure, Progress, Channel, Phase, TunnelStream, is_chunked_message,
  change, shut, send, close, forget, register, is_own, clean_up, http_response, http_request_start,
  http_request_chunk, http_request_end, control, unknown, error, send_failed, sending, waiting,
  uploading, received, failed, idle, answering, forwarding, failing, finishing,
}

abbrev pub to_phase :
    (ℕ → TunnelMessage → Phase) → TunnelMessage → Option ℕ → TunnelStream → TunnelStream
to_phase phase m none s = s
to_phase phase m (some n) s = record s { phase = phase n m }

abbrev pub is_none {ℓ} : {A : Type ℓ} → Option A → Bool
is_none none = true
is_none (some _) = false

-- handleClientMessages gets a message: the handlers up to the end of their lookup. Control messages
-- do not touch the requests.
unfoldable pub arrive : TunnelMessage → MessageType → TunnelStream → TunnelStream
unfolding register
arrive m (http_response r) s = to_phase answering m (lookup m.request_id s.pending_requests) s
arrive m (http_request_start id) s =
    if is_none (lookup id s.pending_requests) then register id 64 uploading s else s
arrive m http_request_chunk s = to_phase forwarding m (lookup m.request_id s.pending_requests) s
arrive m http_request_end s = to_phase forwarding m (lookup m.request_id s.pending_requests) s
arrive m (error message code) s =
    if m.request_id == [] then s else to_phase failing m (lookup m.request_id s.pending_requests) s
arrive m control s = s
arrive m unknown s = s

abbrev pub in_phase : Phase → Option TunnelStream → Option TunnelStream
in_phase phase none = none
in_phase phase (some s) = some (record s { phase = phase })

abbrev pub then_close : ℕ → Option TunnelStream → Option TunnelStream
then_close n none = none
then_close n (some s) = close n s

abbrev pub then_forget : Bytes → Option TunnelStream → Option TunnelStream
then_forget id none = none
then_forget id (some s) = some (forget id s)

-- The second critical section of handleRegularHTTPResponse.
unfoldable pub deliver : ℕ → TunnelMessage → TunnelStream → Option TunnelStream
unfolding send close
deliver n m s =
    if is_chunked_message m
    then (if is_own n (lookup m.request_id s.pending_requests) then send n m s else some s)
    else then_close n (then_forget m.request_id (send n m s))

-- The next section of the handler.
unfoldable pub proceed : Phase → TunnelStream → Option TunnelStream
unfolding deliver send close
proceed idle s = some s
proceed (answering n m) s = in_phase idle (deliver n m s)
proceed (forwarding n m) s = in_phase idle (send n m s)
proceed (failing n m) s = in_phase (finishing n m) (send n m s)
proceed (finishing n m) s = in_phase idle (close n (forget m.request_id s))

abbrev pub set_progress : Progress → Channel → Channel
set_progress progress c = record c { progress = progress }

abbrev pub taken : TunnelMessage → List TunnelMessage → Channel → Channel
taken m ms c = record c { buffer = ms; progress = received (some m) }

-- What is received: the first message, or nil from a channel that is closed and empty.
abbrev pub receiving : List TunnelMessage → Channel → Channel
receiving (m ∷ ms) c = taken m ms c
receiving [] c = if c.is_closed then set_progress (received none) c else c

abbrev pub with_progress : ℕ → Progress → Option TunnelStream → Option TunnelStream
with_progress n progress none = none
with_progress n progress (some s) = some (change n (set_progress progress) s)

pub data Event : Type 0 where
  -- a request registers its channel under an id
  registers : Bytes → Event
  -- the request of a channel has sent its message, or could not
  sends : ℕ → Bool → Event
  -- it receives, or gives up
  receives : ℕ → Event
  gives_up : ℕ → Failure → Event
  -- handleClientMessages gets a message, and goes on
  arrives : TunnelMessage → Event
  proceeds : Event
  -- cleanupTunnelStreamState
  disconnects : Event

abbrev pub is_sending : Progress → Bool
is_sending sending = true
is_sending _ = false

abbrev pub is_waiting : Progress → Bool
is_waiting waiting = true
is_waiting _ = false

-- After the request's send.
unfoldable pub sent : Bool → ℕ → Channel → TunnelStream → Option TunnelStream
unfolding change clean_up
sent true n c s = some (change n (set_progress waiting) s)
sent false n c s = with_progress n (failed send_failed) (clean_up n c.request_id s)

-- A step of the request of a channel, which its progress must allow.
unfoldable pub act : Event → Channel → TunnelStream → Option TunnelStream
unfolding change clean_up sent
act (sends n ok) c s = if is_sending c.progress then sent ok n c s else some s
act (receives n) c s =
    if is_waiting c.progress then some (change n (receiving c.buffer) s) else some s
act (gives_up n why) c s =
    if is_waiting c.progress
    then with_progress n (failed why) (clean_up n c.request_id s)
    else some s
act _ c s = some s

abbrev pub acting : Event → Option Channel → TunnelStream → Option TunnelStream
acting e none s = some s
acting e (some c) s = act e c s

-- The loop of cleanupTunnelStreamState, which recovers from closing a channel twice.
unfoldable pub shut_each : List (Bytes × ℕ) → TunnelStream → TunnelStream
unfolding change
shut_each [] s = s
shut_each ((id, n) ∷ pending) s = shut_each pending (change n shut s)

abbrev pub start_handling : Phase → TunnelMessage → TunnelStream → TunnelStream
start_handling idle m s = arrive m m.message_type s
start_handling _ m s = s

unfoldable pub step : TunnelStream → Event → Option TunnelStream
unfolding register act arrive proceed shut_each
step s (registers id) = some (register id 1 sending s)
step s (sends n ok) = acting (sends n ok) (lookup n s.channels) s
step s (receives n) = acting (receives n) (lookup n s.channels) s
step s (gives_up n why) = acting (gives_up n why) (lookup n s.channels) s
step s (arrives m) = some (start_handling s.phase m s)
step s proceeds = proceed s.phase s
step s disconnects = some (record (shut_each s.pending_requests s) { pending_requests = [] })

abbrev pub stepping : Option TunnelStream → Event → Option TunnelStream
stepping none e = none
stepping (some s) e = step s e

-- Events one after the other, until the process panics.
unfoldable pub run : Option TunnelStream → List Event → Option TunnelStream
unfolding step
run s [] = s
run s (e ∷ es) = run (stepping s e) es
