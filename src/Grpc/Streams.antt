-- ===== src/Grpc/Streams.antt =====
-- How the gRPC tunnel server (internal/tunnel/grpc_service_helpers.go, with cleanupTunnelStreamState of
-- grpc_service.go) gives the messages of one client to the requests that wait for them. Every critical
-- section, send, receive and timeout is one step; the goroutine that reads the client's messages
-- and those of the requests take their steps in any order.
use giraffecloud.Base.{
  ℕ, suc, Bool, true, false, Option, none, some, List, [], ◌∷◌, ◌++◌, Bytes, ◌==◌, nat_eq, bytes_eq,
  ltb, length, if◌then◌else◌,
}
use giraffecloud.Base.Map.{lookup, insert, delete}

pub record HttpResponse : Type 0 where
  pub status_code : ℕ
  pub headers : List (Bytes × Bytes)
  pub body : Bytes
  pub is_chunked : Bool
  pub chunk_id : Bytes

pub data MessageType : Type 0 where
  http_response : HttpResponse → MessageType
  http_request_start : Bytes → MessageType
  http_request_chunk http_request_end control unknown : MessageType
  error : Bytes → ℕ → MessageType

pub record TunnelMessage : Type 0 where
  pub request_id : Bytes
  pub message_type : MessageType

-- What sendRequestAndWaitResponse does with what it receives, nil being none.
pub data Answer : Type 0 where
  response : HttpResponse → Answer
  streamed : TunnelMessage → Answer
  tunnel_error : Bytes → ℕ → Answer
  invalid_response : Answer

pub data Failure : Type 0 where
  send_failed request_timeout tunnel_disconnected : Failure

-- Where the request stands that made a channel; an upload has no request that waits.
pub data Progress : Type 0 where
  sending waiting uploading : Progress
  received : Option TunnelMessage → Progress
  failed : Failure → Progress

-- A channel of messages, with the id that it was registered under.
pub record Channel : Type 0 where
  pub request_id : Bytes
  pub capacity : ℕ
  pub buffer : List TunnelMessage
  pub is_closed : Bool
  pub progress : Progress

-- Where handleClientMessages stands between two critical sections; it has looked up the channel.
pub data Phase : Type 0 where
  idle : Phase
  answering forwarding failing finishing : ℕ → TunnelMessage → Phase

pub record TunnelStream : Type 0 where
  pub pending_requests : List (Bytes × ℕ)
  pub channels : List (ℕ × Channel)
  pub next_channel : ℕ
  pub phase : Phase

abbrev pub start : TunnelStream
start = record { pending_requests = []; channels = []; next_channel = 0; phase = idle }

abbrev pub is_chunked_type : MessageType → Bool
is_chunked_type (http_response r) = r.is_chunked
is_chunked_type _ = false

abbrev pub is_chunked_message : TunnelMessage → Bool
is_chunked_message m = is_chunked_type m.message_type

abbrev pub converted : MessageType → Answer
converted (error message code) = tunnel_error message code
converted (http_response r) = response r
converted _ = invalid_response

-- The message is converted; what is recorded for the usage is left out.
unfoldable pub grpc_to_http : Option TunnelMessage → Answer
grpc_to_http none = invalid_response
grpc_to_http (some m) = converted m.message_type

-- The end of sendRequestAndWaitResponse.
unfoldable pub answer : Option TunnelMessage → Answer
unfolding grpc_to_http
answer none = grpc_to_http none
answer (some m) = if is_chunked_message m then streamed m else grpc_to_http (some m)

abbrev pub set_channel : ℕ → Option Channel → (Channel → Channel) → TunnelStream → TunnelStream
set_channel n none f s = s
set_channel n (some c) f s = record s { channels = insert n (f c) s.channels }

unfoldable pub change : ℕ → (Channel → Channel) → TunnelStream → TunnelStream
change n f s = set_channel n (lookup n s.channels) f s

abbrev pub push : TunnelMessage → Channel → Channel
push m c = if ltb (length c.buffer) c.capacity then record c { buffer = c.buffer ++ m ∷ [] } else c

abbrev pub shut : Channel → Channel
shut c = record c { is_closed = true }

abbrev pub closed : Option Channel → Bool
closed none = false
closed (some c) = c.is_closed

-- A send in a select that gives up when the channel stays full; it panics on a closed channel, as
-- does close. A panic is none.
unfoldable pub send : ℕ → TunnelMessage → TunnelStream → Option TunnelStream
unfolding change
send n m s = if closed (lookup n s.channels) then none else some (change n (push m) s)

unfoldable pub close : ℕ → TunnelStream → Option TunnelStream
unfolding change
close n s = if closed (lookup n s.channels) then none else some (change n shut s)

abbrev pub forget : Bytes → TunnelStream → TunnelStream
forget id s = record s { pending_requests = delete id s.pending_requests }

unfoldable pub register : Bytes → ℕ → Progress → TunnelStream → TunnelStream
register id capacity progress s = record s {
  pending_requests = insert id s.next_channel s.pending_requests;
  channels =
      insert s.next_channel
        (record {
          request_id = id;
          capacity = capacity;
          buffer = [];
          is_closed = false;
          progress = progress;
        })
        s.channels;
  next_channel = suc s.next_channel;
}

abbrev pub is_own : ℕ → Option ℕ → Bool
is_own n none = false
is_own n (some k) = k == n

-- The safe close after a failure: only if the request still owns the channel.
unfoldable pub clean_up : ℕ → Bytes → TunnelStream → Option TunnelStream
unfolding close
clean_up n id s = if is_own n (lookup id s.pending_requests) then close n (forget id s) else some s
