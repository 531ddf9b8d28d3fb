-- ===== src/Grpc/Requests.antt =====
-- ProxyHTTPRequest of internal/tunnel/grpc_service.go, where what comes over the stream is a
-- parameter.
use giraffecloud.Base.{
  ℕ, ◌+◌, ◌-◌, ◌%◌, ◌^◌, Bool, true, false, not, Option, none, some, List, [], ◌∷◌, ◌++◌, Bytes,
  nat_eq, bytes_eq, length, if◌then◌else◌,
}
use giraffecloud.Base.Map.{lookup}
use giraffecloud.Tunnels.StatusCache.{StatusCache, is_enabled}
use giraffecloud.Usage.Quota.{QuotaDecision, allow, warn, block}
use giraffecloud.Router.Routing.{bump}
use giraffecloud.Grpc.Tunnels.{ActiveStream, GrpcServer}
use giraffecloud.Grpc.Fetches.{
  UsageCall, Sent, responded, failed, Fetched, FetchWorld, send_request_and_wait_response,
}

-- atomic.AddInt64(&n, -1)
abbrev pub drop_one : ℕ → ℕ
drop_one n = (n + (2 ^ 64 - 1)) % 2 ^ 64

-- The rest of the world during a request: the cache, the quota of a user and the usage, if the
-- server has them, the rate limiter, the body of the request, if it can be read, and what comes to
-- the request, with the header that warns or without, over a stream.
pub record RequestWorld : Type 0 where
  pub status_cache : Option StatusCache
  pub quota : Option (ℕ → QuotaDecision)
  pub has_usage : Bool
  pub allows : Bool
  pub request_body : Option Bytes
  pub fetch : FetchWorld

pub data ProxyOutcome : Type 0 where
  no_active_tunnel tunnel_disabled rate_limited not_converted quota_exceeded : ProxyOutcome
  send_error : Bool → ProxyOutcome
  proxied : Bytes → ProxyOutcome

abbrev pub Reply : Type 0
Reply = GrpcServer × List UsageCall × ProxyOutcome

unfoldable pub count_error : GrpcServer → GrpcServer
count_error s = record s { total_errors = bump s.total_errors }

unfoldable pub with_error : GrpcServer → ProxyOutcome → Reply
unfolding count_error
with_error s outcome = (count_error s, [], outcome)

abbrev pub disabled : Option StatusCache → Bytes → Bool
disabled none domain = false
disabled (some cache) domain = not (is_enabled cache domain)

abbrev pub decided : Option (ℕ → QuotaDecision) → ℕ → QuotaDecision
decided none user_id = allow
decided (some check) user_id = check user_id

module _ (w : RequestWorld) (domain : Bytes) where
  unfoldable pub usage_call : ActiveStream → Bytes → Bytes → List UsageCall
  usage_call stream body answer =
      if w.has_usage
      then record {
        user_id = stream.user_id;
        tunnel_id = stream.tunnel_id;
        domain = domain;
        bytes_in = length body;
        bytes_out = length answer;
        requests = 1;
      }
        ∷ []
      else []

  unfoldable pub after_send : GrpcServer → ActiveStream → Bytes → List UsageCall → Sent → Reply
  unfolding usage_call count_error
  after_send s stream body usage (responded answer) = (
    record s { total_responses = bump s.total_responses },
    usage ++ usage_call stream body answer,
    proxied answer,
  )
  after_send s stream body usage (failed true) =
      (record (count_error s) { timeout_errors = bump s.timeout_errors }, usage, send_error true)
  after_send s stream body usage (failed false) = (count_error s, usage, send_error false)

  -- sendRequestAndWaitResponse on the stream, for a body.
  unfoldable pub fetched : GrpcServer → ActiveStream → Bool → Bytes → Fetched
  unfolding send_request_and_wait_response
  fetched s stream warned body =
      send_request_and_wait_response w.fetch w.has_usage s.tunnel_streams stream warned body

  unfoldable pub convert : GrpcServer → ActiveStream → Bool → Option Bytes → Reply
  unfolding with_error after_send fetched
  convert s stream warned none = with_error s not_converted
  convert s stream warned (some body) =
      let f = fetched s stream warned body in after_send s stream body f.usage f.answer

  unfoldable pub limit : GrpcServer → ActiveStream → Bool → Reply
  unfolding with_error convert
  limit s stream warned =
      if w.allows then convert s stream warned w.request_body else with_error s rate_limited

  unfoldable pub check_quota : GrpcServer → ActiveStream → QuotaDecision → Reply
  unfolding limit
  check_quota s stream block = (s, [], quota_exceeded)
  check_quota s stream warn = limit s stream true
  check_quota s stream allow = limit s stream false

  unfoldable pub checked : GrpcServer → Option ActiveStream → Reply
  unfolding with_error check_quota
  checked s none = with_error s no_active_tunnel
  checked s (some stream) =
      if not stream.is_connected
      then with_error s no_active_tunnel
      else if disabled w.status_cache domain
      then with_error s tunnel_disabled
      else check_quota s stream (decided w.quota stream.user_id)

  -- ProxyHTTPRequest with its deferred decrement.
  unfoldable pub proxy_http_request : GrpcServer → Reply
  unfolding checked
  proxy_http_request s =
      let (s', usage, outcome) =
        checked
          (record s {
            total_requests = bump s.total_requests;
            concurrent_reqs = bump s.concurrent_reqs;
          })
          (lookup domain s.tunnel_streams) in
      (record s' { concurrent_reqs = drop_one s'.concurrent_reqs }, usage, outcome)
