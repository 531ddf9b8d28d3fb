-- ===== src/Grpc/Chunks.antt =====
-- How the gRPC server collects a response in chunks: collectChunkedResponse and
-- collectChunkedResponseNoSend of internal/tunnel/grpc_chunked_streaming.go, from the goroutine on. What
-- comes out of the request's channel is a list of arrivals, and the reader of the pipe is a
-- parameter. The time of the last activity is left out, and of a write that fails what was read.
use giraffecloud.Base.{
  ℕ, Bool, true, false, Option, none, some, List, [], ◌∷◌, ◌++◌, Bytes, codes, bytes_eq, length,
  if◌then◌else◌,
}
use giraffecloud.Base.Map.{delete}
use giraffecloud.Text.{has_suffix}
use giraffecloud.Grpc.Streams.{
  HttpResponse, MessageType, http_response, http_request_start, http_request_chunk,
  http_request_end, control, unknown, error, TunnelMessage,
}

pub data StreamError : Type 0 where
  timed_out disconnected pipe_closed : StreamError
  client_error : Bytes → StreamError

-- The goroutine gets a message, finds the channel closed, or its time is over.
pub data Arrival : Type 0 where
  message : TunnelMessage → Arrival
  closes times_out : Arrival

-- Where the goroutine stands: it runs, or it has returned, with an error or without.
pub data Running : Type 0 where
  running returned : Running
  broken : StreamError → Running

pub record Collection : Type 0 where
  pub first_chunk : Option HttpResponse
  -- the bytes written to the pipe, and those recorded for the usage, a number for each call
  pub written : Bytes
  pub recorded : List ℕ
  pub cancelled : Bool
  pub progress : Running

abbrev pub nothing_yet : Collection
nothing_yet = record {
  first_chunk = none;
  written = [];
  recorded = [];
  cancelled = false;
  progress = running;
}

unfoldable pub is_final_id : Bytes → Bool
is_final_id id = has_suffix id (codes "_final")

abbrev pub or_first : Option HttpResponse → HttpResponse → Option HttpResponse
or_first none chunk = some chunk
or_first (some first) chunk = some first

abbrev pub is_empty : Bytes → Bool
is_empty [] = true
is_empty (_ ∷ _) = false

abbrev pub record_bytes : Bytes → Collection → Collection
record_bytes body c = record c { recorded = c.recorded ++ length body ∷ [] }

abbrev pub after_chunk : HttpResponse → Running
after_chunk chunk = if is_final_id chunk.chunk_id then returned else running

abbrev pub is_running : Running → Bool
is_running running = true
is_running _ = false

-- `accepts` says whether the reader of the pipe takes the bytes after those that were written, and
-- `cancels` whether the client is told when it does not, as collectChunkedResponse does.
module _ (accepts : Bytes → Bytes → Bool) (cancels : Bool) where
  -- pipeWriter.Write(body), and what the goroutine does after it.
  unfoldable pub write : Bytes → Bool → Running → Collection → Collection
  write body cancelling next c =
      if accepts c.written body
      then record c { written = c.written ++ body; progress = next }
      else record c { cancelled = cancelling; progress = broken pipe_closed }

  unfoldable pub take_chunk : HttpResponse → Collection → Collection
  unfolding write is_final_id
  take_chunk chunk c =
      let c' : Collection = record c { first_chunk = or_first c.first_chunk chunk } in
      if chunk.is_chunked
      then (if is_empty chunk.body
          then record c' { progress = after_chunk chunk }
          else write chunk.body cancels (after_chunk chunk) (record_bytes chunk.body c'))
      else write chunk.body false returned
          (if is_empty chunk.body then c' else record_bytes chunk.body c')

  unfoldable pub take_message : MessageType → Collection → Collection
  unfolding take_chunk
  take_message (http_response chunk) c = take_chunk chunk c
  take_message (error text code) c = record c { progress = broken (client_error text) }
  take_message (http_request_start id) c = c
  take_message http_request_chunk c = c
  take_message http_request_end c = c
  take_message control c = c
  take_message unknown c = c

  unfoldable pub take_arrival : Arrival → Collection → Collection
  unfolding take_message
  take_arrival (message m) c = take_message m.message_type c
  take_arrival closes c = record c { progress = broken disconnected }
  take_arrival times_out c = record c { progress = broken timed_out }

  -- The loop of the goroutine, over what arrives while it runs.
  unfoldable pub collect : List Arrival → Collection → Collection
  unfolding take_arrival
  collect [] c = c
  collect (a ∷ arrivals) c =
      let rest = collect arrivals (take_arrival a c) in if is_running c.progress then rest else c

  abbrev pub take_initial_type : MessageType → Collection → Collection
  take_initial_type (http_response chunk) c =
      let c' : Collection = record c { first_chunk = some chunk } in
      if is_empty chunk.body
      then record c' { progress = after_chunk chunk }
      else write chunk.body false (after_chunk chunk) c'
  take_initial_type _ c = c

  -- What collectChunkedResponseNoSend does with an initial chunk.
  unfoldable pub take_initial : Option TunnelMessage → Collection
  unfolding write is_final_id
  take_initial none = nothing_yet
  take_initial (some m) = take_initial_type m.message_type nothing_yet

-- What the caller gets: the head of a response whose body is read from the pipe, with the bytes of
-- that and whether it has ended; an error; or, as long as neither is there, it waits for up to 60
-- seconds.
pub data Delivery : Type 0 where
  delivered : HttpResponse → Bytes → Bool → Delivery
  refused : StreamError → Delivery
  waits : Delivery

abbrev pub has_ended : Running → Bool
has_ended running = false
has_ended _ = true

-- The head of the first chunk. The keys of its headers are written as http.Header writes them.
unfoldable pub without_length : HttpResponse → HttpResponse
without_length first = record first { headers = delete (codes "Content-Length") first.headers }

abbrev pub without_chunk : Running → Delivery
without_chunk (broken e) = refused e
without_chunk _ = waits

abbrev pub with_chunk : Option HttpResponse → Collection → Delivery
with_chunk (some first) c = delivered (without_length first) c.written (has_ended c.progress)
with_chunk none c = without_chunk c.progress

abbrev pub error_first : Running → Collection → Delivery
error_first (broken e) c = refused e
error_first _ c = with_chunk c.first_chunk c

-- The select over the first chunk and the error: `prefers_error` when both are there.
unfoldable pub deliver_collection : Bool → Collection → Delivery
unfolding without_length
deliver_collection prefers_error c =
    if prefers_error then error_first c.progress c else with_chunk c.first_chunk c
