-- ===== src/Grpc/Uploads.antt =====
-- ProxyHTTPRequestWithChunking of internal/tunnel/grpc_chunked_streaming.go: how an upload is sent, a
-- large file is asked for, and what the caller gets.
use giraffecloud.Base.{
  ℕ, Bool, true, false, Option, none, some, List, [], ◌∷◌, ◌++◌, Bytes, nat_eq, bytes_eq, map,
  length, if◌then◌else◌,
}
use giraffecloud.Base.Map.{lookup}
use giraffecloud.Router.Routing.{is_upload}
use giraffecloud.Grpc.Streams.{TunnelStream, sending, register, forget, close}
use giraffecloud.Grpc.Tunnels.{ActiveStream, GrpcServer}
use giraffecloud.Grpc.Fetches.{UsageCall}
use giraffecloud.Grpc.Requests.{RequestWorld, ProxyOutcome, Reply, proxy_http_request}
use giraffecloud.Grpc.Chunks.{
  Arrival, Collection, nothing_yet, collect, is_empty, has_ended, Delivery, deliver_collection,
}
use giraffecloud.Grpc.LargeFiles.{LargeRequest, is_large_file_request}

pub data UploadMessage : Type 0 where
  upload_start upload_end : UploadMessage
  upload_chunk : Bytes → UploadMessage

pub data UploadResult : Type 0 where
  uploaded start_failed chunk_failed read_failed end_failed : UploadResult

pub record Upload : Type 0 where
  pub sent : List UploadMessage
  -- the bytes recorded for the usage
  pub recorded : List ℕ
  pub result : UploadResult

-- `sends` says whether a message can be sent after those that were.
module _ (sends : List UploadMessage → UploadMessage → Bool) where
  unfoldable pub send_message : UploadMessage → UploadResult → Upload → Upload
  send_message m failure u =
      if sends u.sent m then record u { sent = u.sent ++ m ∷ [] } else record u { result = failure }

  unfoldable pub send_end : Bool → Upload → Upload
  unfolding send_message
  send_end ends_well u =
      if ends_well then send_message upload_end end_failed u else record u { result = read_failed }

  -- The loop over the reads of the body, and the end.
  unfoldable pub send_reads : List Bytes → Bool → Upload → Upload
  unfolding send_end
  send_reads [] ends_well u = send_end ends_well u
  send_reads (b ∷ bs) ends_well u =
      let counted : Upload = record u { recorded = u.recorded ++ length b ∷ [] } in
      let skipped = send_reads bs ends_well u in
      let rest =
        send_reads bs ends_well (record counted { sent = u.sent ++ upload_chunk b ∷ [] }) in
      if is_empty b
      then skipped
      else if sends u.sent (upload_chunk b)
      then rest
      else record counted { result = chunk_failed }

  -- The messages of an upload.
  unfoldable pub send_upload : LargeRequest → Upload
  unfolding send_reads
  send_upload r =
      if sends [] upload_start
      then send_reads r.reads r.ends_well
          (record { sent = upload_start ∷ []; recorded = []; result = uploaded })
      else record { sent = []; recorded = []; result = start_failed }

abbrev pub is_uploaded : UploadResult → Bool
is_uploaded uploaded = true
is_uploaded _ = false

-- The client's stream, and what comes from it for the request: the requests that wait, the id of the
-- new one, what other goroutines do to the requests once it is registered, the messages that can be
-- sent, whether a download's request can, and what arrives.
pub record LargeWorld : Type 0 where
  pub waiting_requests : TunnelStream
  pub request_id : Bytes
  pub meanwhile : TunnelStream → TunnelStream
  pub sends : List UploadMessage → UploadMessage → Bool
  pub sends_request : Bool
  pub accepts : Bytes → Bytes → Bool
  pub arrivals : List Arrival
  pub prefers_error : Bool

pub data ChunkedOutcome : Type 0 where
  regular : ProxyOutcome → ChunkedOutcome
  answered : Delivery → ChunkedOutcome
  not_uploaded : UploadResult → ChunkedOutcome
  request_not_sent not_converted no_pending_request no_active_tunnel : ChunkedOutcome

-- The server, the requests that wait, the calls of Increment, and what the caller gets.
pub record ChunkedReply : Type 0 where
  pub server : GrpcServer
  pub waiting_requests : TunnelStream
  pub usage : List UsageCall
  pub outcome : ChunkedOutcome

abbrev pub or_same : Option TunnelStream → TunnelStream → TunnelStream
or_same none s = s
or_same (some s') s = s'

abbrev pub forget_found : Bytes → Option ℕ → TunnelStream → TunnelStream
forget_found id none s = s
forget_found id (some n) s = or_same (close n (forget id s)) (forget id s)

-- The request is forgotten and its channel closed, with the panic on a closed one recovered.
unfoldable pub forget_request : Bytes → TunnelStream → TunnelStream
unfolding close
forget_request id s = forget_found id (lookup id s.pending_requests) s

module _ (w : RequestWorld) (l : LargeWorld) (request : LargeRequest) where
  abbrev pub usage_in : ActiveStream → ℕ → UsageCall
  usage_in stream n = record {
    user_id = stream.user_id;
    tunnel_id = stream.tunnel_id;
    domain = stream.domain;
    bytes_in = n;
    bytes_out = 0;
    requests = 0;
  }

  abbrev pub usage_out : ActiveStream → ℕ → UsageCall
  usage_out stream n = record (usage_in stream 0) { bytes_out = n }

  abbrev pub with_usage : List UsageCall → List UsageCall
  with_usage calls = if w.has_usage then calls else []

  abbrev pub collected : Bool → Collection
  collected cancels = collect l.accepts cancels l.arrivals nothing_yet

  -- The request is registered, with a channel of 250 places, before anything is sent.
  abbrev pub registered : TunnelStream
  registered = l.meanwhile (register l.request_id 250 sending l.waiting_requests)

  -- The deferred clean-up of the goroutine, once that has returned.
  unfoldable pub after_collection : Collection → TunnelStream
  unfolding forget_request
  after_collection c =
      if has_ended c.progress then forget_request l.request_id registered else registered

  abbrev pub collected_calls : ActiveStream → Bool → List UsageCall
  collected_calls stream cancels = map (usage_out stream) (collected cancels).recorded

  -- collectChunkedResponseNoSend, which looks the channel up again.
  unfoldable pub collect_no_send :
      GrpcServer → ActiveStream → List UsageCall → Option ℕ → ChunkedReply
  unfolding collect deliver_collection after_collection register
  collect_no_send s stream sent_calls none = record {
    server = s;
    waiting_requests = registered;
    usage = with_usage sent_calls;
    outcome = no_pending_request;
  }
  collect_no_send s stream sent_calls (some channel) = record {
    server = s;
    waiting_requests = after_collection (collected false);
    usage = with_usage (sent_calls ++ collected_calls stream false);
    outcome = answered (deliver_collection l.prefers_error (collected false));
  }

  unfoldable pub after_upload : GrpcServer → ActiveStream → Upload → ChunkedReply
  unfolding collect_no_send register
  after_upload s stream u =
      let sent_calls = map (usage_in stream) u.recorded in
      if is_uploaded u.result
      then collect_no_send s stream sent_calls (lookup l.request_id registered.pending_requests)
      else record {
        server = s;
        waiting_requests = registered;
        usage = with_usage sent_calls;
        outcome = not_uploaded u.result;
      }

  abbrev pub without_tunnel : GrpcServer → ChunkedReply
  without_tunnel s = record {
    server = s;
    waiting_requests = l.waiting_requests;
    usage = [];
    outcome = no_active_tunnel;
  }

  unfoldable pub upload_through : GrpcServer → Option ActiveStream → ChunkedReply
  unfolding after_upload send_upload
  upload_through s none = without_tunnel s
  upload_through s (some stream) =
      if stream.is_connected
      then after_upload s stream (send_upload l.sends request)
      else without_tunnel s

  -- After the request of a download has been converted.
  unfoldable pub after_conversion : GrpcServer → ActiveStream → Option Bytes → ChunkedReply
  unfolding collect deliver_collection after_collection register
  after_conversion s stream none = record (without_tunnel s) { outcome = not_converted }
  after_conversion s stream (some body) =
      if l.sends_request
      then record {
        server = s;
        waiting_requests = after_collection (collected true);
        usage = with_usage (collected_calls stream true);
        outcome = answered (deliver_collection l.prefers_error (collected true));
      }
      else record {
        server = s;
        waiting_requests = registered;
        usage = [];
        outcome = request_not_sent;
      }

  unfoldable pub download_through : GrpcServer → Option ActiveStream → ChunkedReply
  unfolding after_conversion
  download_through s none = without_tunnel s
  download_through s (some stream) =
      if stream.is_connected then after_conversion s stream w.request_body else without_tunnel s

  abbrev pub regularly : Reply → ChunkedReply
  regularly (s, usage, outcome) = record {
    server = s;
    waiting_requests = l.waiting_requests;
    usage = usage;
    outcome = regular outcome;
  }

  -- The regular route registers and forgets its request by itself, within `w`.
  unfoldable pub proxy_http_request_with_chunking : Bytes → GrpcServer → ChunkedReply
  unfolding upload_through download_through is_upload is_large_file_request proxy_http_request
  proxy_http_request_with_chunking domain s =
      if is_upload request.method
      then upload_through s (lookup domain s.tunnel_streams)
      else if is_large_file_request request
      then download_through s (lookup domain s.tunnel_streams)
      else regularly (proxy_http_request w domain s)
