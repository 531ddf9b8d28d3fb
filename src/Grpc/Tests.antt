-- ===== src/Grpc/Tests.antt =====
-- The messages of one client on concrete runs (internal/tunnel/grpc_service_helpers.go).
use giraffecloud.Base.{
  ◌≡◌, refl, true, false, ◌&&◌, none, some, List, [], ◌∷◌, Bytes, bytes_beq, nat_eq, bytes_eq, All,
}
use giraffecloud.Base.Map.{lookup, insert, delete}
use giraffecloud.Grpc.Streams.{
  HttpResponse, http_response, TunnelMessage, waiting, received, failed, request_timeout, response,
  answer, grpc_to_http, Channel, Phase, TunnelStream, start, change, send, close, register,
  clean_up,
}
use giraffecloud.Grpc.Steps.{
  arrive, deliver, proceed, sent, act, shut_each, Event, registers, sends, receives, gives_up,
  arrives, proceeds, disconnects, is_none, step, run,
}
use giraffecloud.Grpc.Matched.{Answered, run-Answered}
use giraffecloud.Grpc.Panics.{is_proceeds, is_stale, run-panics}

abbrev request_a : Bytes
request_a = 97 ∷ []

abbrev request_b : Bytes
request_b = 98 ∷ []

abbrev page : HttpResponse
page = record {
  status_code = 200;
  headers = [];
  body = 1 ∷ 2 ∷ [];
  is_chunked = false;
  chunk_id = [];
}

abbrev answer_to : Bytes → TunnelMessage
answer_to id = record { request_id = id; message_type = http_response page }

-- Two requests, of which the second is answered first.
abbrev two_requests : List Event
two_requests =
    registers request_a
    ∷ registers request_b
    ∷ sends 0 true
    ∷ sends 1 true
    ∷ arrives (answer_to request_b)
    ∷ proceeds
    ∷ receives 1
    ∷ []

abbrev channel_a : Channel
channel_a = record {
  request_id = request_a;
  capacity = 1;
  buffer = [];
  is_closed = false;
  progress = waiting;
}

abbrev channel_b : Channel
channel_b = record {
  request_id = request_b;
  capacity = 1;
  buffer = [];
  is_closed = true;
  progress = received (some (answer_to request_b));
}

abbrev two_requests_state : TunnelStream
two_requests_state = record {
  pending_requests = (request_a, 0) ∷ [];
  channels = (0, channel_a) ∷ (1, channel_b) ∷ [];
  next_channel = 2;
  phase = Phase.idle;
}

test_two_requests : run (some start) two_requests ≡ some two_requests_state
unfolding run step register act sent change arrive proceed deliver send close lookup insert delete
    bytes_beq
test_two_requests = refl

found_b : lookup 1 two_requests_state.channels ≡ some channel_b
unfolding lookup
found_b = refl

run-Answered_example :
    Answered request_b (received (some (answer_to request_b)))
    × All {A = TunnelMessage} (λ m. m.request_id ≡ request_b) []
run-Answered_example =
    run-Answered two_requests two_requests_state 1 channel_b test_two_requests found_b

test_answer : answer (some (answer_to request_b)) ≡ response page
unfolding answer grpc_to_http
test_answer = refl

-- The request gives up between the lookup and the delivery.
abbrev late : List Event
late =
    registers request_a
    ∷ sends 0 true
    ∷ arrives (answer_to request_a)
    ∷ gives_up 0 request_timeout
    ∷ []

abbrev late_channel : Channel
late_channel = record {
  request_id = request_a;
  capacity = 1;
  buffer = [];
  is_closed = true;
  progress = failed request_timeout;
}

abbrev late_state : TunnelStream
late_state = record {
  pending_requests = [];
  channels = (0, late_channel) ∷ [];
  next_channel = 1;
  phase = Phase.answering 0 (answer_to request_a);
}

test_late : run (some start) late ≡ some late_state
unfolding run step register act sent change clean_up arrive send close lookup insert delete
    bytes_beq
test_late = refl

run-panics_example :
    is_none (step late_state proceeds)
    ≡ (is_proceeds proceeds && is_stale late_state.phase late_state)
run-panics_example = run-panics late late_state proceeds test_late

test_panic : step late_state proceeds ≡ none
unfolding step proceed deliver send close lookup bytes_beq
test_panic = refl

-- A request that waits when the client leaves gets nothing.
test_disconnect :
    run (some start) (registers request_a ∷ sends 0 true ∷ disconnects ∷ receives 0 ∷ [])
    ≡ some (record {
      pending_requests = [];
      channels = (0, record late_channel { progress = received none }) ∷ [];
      next_channel = 1;
      phase = Phase.idle;
    })
unfolding run step register act sent change shut_each lookup insert
test_disconnect = refl
