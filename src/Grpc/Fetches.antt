-- ===== src/Grpc/Fetches.antt =====
-- sendRequestAndWaitResponse of internal/tunnel/grpc_service_helpers.go as a request sees it: what it
-- returns, and what it and grpcToHTTP and the collector of chunks record for the usage meanwhile. What
-- comes to the request over the client's stream is a parameter. Of the text of an error, numbers at its
-- end are left out, which have none of the words that isTimeoutError looks for.
use giraffecloud.Base.{
  ℕ, Bool, false, not, ◌&&◌, Option, none, some, List, [], ◌∷◌, ◌++◌, map, Bytes, codes, ◌==◌,
  nat_eq, bytes_eq, length, ltb, if◌then◌else◌,
}
use giraffecloud.Base.Map.{lookup}
use giraffecloud.Router.Requests.{is_timeout_error}
use giraffecloud.Grpc.Streams.{
  HttpResponse, TunnelMessage, Answer, response, streamed, tunnel_error, invalid_response, answer,
}
use giraffecloud.Grpc.Tunnels.{ActiveStream}
use giraffecloud.Grpc.Splitting.{header}
use giraffecloud.Grpc.Chunks.{
  Arrival, times_out, StreamError, timed_out, disconnected, pipe_closed, client_error, Collection,
  collect, take_initial, Delivery, delivered, refused, waits, deliver_collection,
}

-- A call of Increment: user, tunnel, domain, bytes in and out, requests.
pub record UsageCall : Type 0 where
  pub user_id : ℕ
  pub tunnel_id : ℕ
  pub domain : Bytes
  pub bytes_in : ℕ
  pub bytes_out : ℕ
  pub requests : ℕ

-- What ends the wait: the send fails, with an error that is one of a timeout or not; a message comes,
-- or the channel is closed; the time is over; or the stream ends.
pub data Wait : Type 0 where
  send_fails : Bool → Wait
  receives : Option TunnelMessage → Wait
  time_over ended : Wait

-- The body of the response, or an error that is one of a timeout or not.
pub data Sent : Type 0 where
  responded : Bytes → Sent
  failed : Bool → Sent

pub record Fetched : Type 0 where
  pub usage : List UsageCall
  pub answer : Sent

-- Whether the error with the text, which carries no status of gRPC, is one of a timeout.
unfoldable pub is_timeout_text : Bytes → Bool
unfolding is_timeout_error
is_timeout_text text = is_timeout_error (record { text = text; is_unavailable = false })

-- The errors of collectChunkedResponseNoSend.
unfoldable pub error_text : StreamError → Bytes
error_text timed_out = codes "timeout waiting for chunked response after 10 minutes"
error_text disconnected = codes "tunnel disconnected during chunked response collection"
error_text pipe_closed = codes "failed to write chunk to pipe: io: read/write on closed pipe"
error_text (client_error text) = codes "client error during chunked streaming: " ++ text

-- A call that counts bytes of a response.
abbrev pub bytes_call : ℕ → ℕ → Bytes → ℕ → UsageCall
bytes_call user tunnel domain n = record {
  user_id = user;
  tunnel_id = tunnel;
  domain = domain;
  bytes_in = 0;
  bytes_out = n;
  requests = 0;
}

-- The domain that the headers of a response name.
unfoldable pub host_of : HttpResponse → Bytes
unfolding header
host_of r =
    let forwarded = header (codes "X-Forwarded-Host") r.headers in
    if forwarded == [] then header (codes "Host") r.headers else forwarded

abbrev pub host_call : Bytes → Bytes → Option ActiveStream → List UsageCall
host_call domain body none = []
host_call domain body (some stream) =
    if not (domain == []) && ltb 0 (length body) && not (stream.user_id == 0)
    then bytes_call stream.user_id stream.tunnel_id domain (length body) ∷ []
    else []

-- What grpcToHTTP records.
unfoldable pub host_calls : List (Bytes × ActiveStream) → HttpResponse → List UsageCall
unfolding host_of lookup
host_calls streams r = host_call (host_of r) r.body (lookup (host_of r) streams)

-- The world of a request that was sent: what ends the wait, what comes later for a response in
-- chunks, the reader of the pipe, and whether an error is looked at before the first chunk.
pub record FetchWorld : Type 0 where
  pub wait : ActiveStream → Bool → Bytes → Wait
  pub later : List Arrival
  pub accepts : Bytes → Bytes → Bool
  pub prefers_error : Bool

unfoldable pub answer_of : Delivery → Sent
unfolding is_timeout_text error_text
answer_of (delivered head body has_ended) = responded body
answer_of (refused e) = failed (is_timeout_text (error_text e))
answer_of waits = failed (is_timeout_text (codes "timeout waiting for chunked response metadata"))

module _ (w : FetchWorld) (has_usage : Bool) (streams : List (Bytes × ActiveStream))
    (stream : ActiveStream) where
  -- collectChunkedResponseNoSend with the message as the initial chunk, until the pipe is closed;
  -- the time of the goroutine is over at last.
  unfoldable pub collected : TunnelMessage → Collection
  unfolding collect take_initial
  collected m =
      collect w.accepts false (w.later ++ times_out ∷ []) (take_initial w.accepts false (some m))

  abbrev pub chunk_call : ℕ → UsageCall
  chunk_call n = bytes_call stream.user_id stream.tunnel_id stream.domain n

  unfoldable pub after_answer : Answer → Fetched
  unfolding collected deliver_collection host_calls is_timeout_text answer_of
  after_answer (response r) = record {
    usage = if has_usage then host_calls streams r else [];
    answer = responded r.body;
  }
  after_answer (streamed m) = record {
    usage = if has_usage then map chunk_call (collected m).recorded else [];
    answer = answer_of (deliver_collection w.prefers_error (collected m));
  }
  after_answer (tunnel_error text code) = record {
    usage = [];
    answer = failed (is_timeout_text (codes "tunnel error: " ++ text));
  }
  after_answer invalid_response = record {
    usage = [];
    answer = failed (is_timeout_text (codes "invalid response message"));
  }

  unfoldable pub after_wait : Wait → Fetched
  unfolding after_answer answer is_timeout_text
  after_wait (send_fails is_timeout) = record { usage = []; answer = failed is_timeout }
  after_wait (receives m) = after_answer (answer m)
  after_wait time_over = record {
    usage = [];
    answer = failed (is_timeout_text (codes "request timeout after "));
  }
  after_wait ended = record {
    usage = [];
    answer = failed (is_timeout_text (codes "tunnel disconnected"));
  }

  unfoldable pub send_request_and_wait_response : Bool → Bytes → Fetched
  unfolding after_wait
  send_request_and_wait_response warned body = after_wait (w.wait stream warned body)
