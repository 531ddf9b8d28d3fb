-- ===== src/Grpc/Accounted.antt =====
-- What ProxyHTTPRequest (internal/tunnel/grpc_service.go) counts.
use giraffecloud.Base.{
  ℕ, ◌≡◌, Bool, true, false, Option, some, List, [], ◌++◌, nat_eq, All, Bytes, bytes_eq,
  if◌then◌else◌,
}
use giraffecloud.Usage.Quota.{QuotaDecision, block}
use giraffecloud.Router.Routing.{bump}
use giraffecloud.Grpc.Tunnels.{ActiveStream, GrpcServer}
use giraffecloud.Grpc.Streams.{answer}
use giraffecloud.Grpc.Fetches.{UsageCall, Sent, responded, failed}
use giraffecloud.Grpc.Requests.{
  RequestWorld, quota_exceeded, send_error, proxied, Reply, fetched, disabled, decided, usage_call,
}
use giraffecloud.Grpc.Bare.{Bare}

abbrev pub is_block : QuotaDecision → Bool
is_block block = true
is_block _ = false

-- The counters of responses, errors and timeouts.
abbrev pub Counts : ℕ → ℕ → ℕ → GrpcServer → Type 0
Counts responses errors timeouts s =
    (s.total_responses ≡ responses) × (s.total_errors ≡ errors) × (s.timeout_errors ≡ timeouts)

-- The counters of requests are those of the second server.
abbrev SameRequests : GrpcServer → GrpcServer → Type 0
SameRequests s t = (t.total_requests ≡ s.total_requests) × (t.concurrent_reqs ≡ s.concurrent_reqs)

module _ (w : RequestWorld) (domain : Bytes) where
  -- The stream through which a request may go.
  pub record Open (found : Option ActiveStream) (stream : ActiveStream) : Type 0 where
    pub registered : found ≡ some stream
    pub live : stream.is_connected ≡ true
    pub enabled : disabled w.status_cache domain ≡ false
    pub unblocked : is_block (decided w.quota stream.user_id) ≡ false
    pub allowed : w.allows ≡ true

  -- What ProxyHTTPRequest gets for the stream and a body, with or without the warning: the calls of
  -- Increment on the way count neither a request nor bytes of it.
  abbrev pub Got : GrpcServer → ActiveStream → Bytes → List UsageCall → Sent → Type 0
  Got s stream body calls answer =
      (warned : Bool) × (fetched w domain s stream warned body
        ≡ record { usage = calls; answer = answer })
      × All Bare calls

  -- One response with its usage, or one error without a request in the usage, or a refusal for the
  -- quota, which is neither.
  abbrev pub Charged : Option ActiveStream → GrpcServer → Reply → Type 0
  Charged found s (t, usage, proxied answer) =
      Counts (bump s.total_responses) s.total_errors s.timeout_errors t
      × (stream : ActiveStream) × (body : Bytes) × Open found stream
      × (w.request_body ≡ some body)
      × (calls : List UsageCall) × (usage ≡ calls ++ usage_call w domain stream body answer)
      × Got s stream body calls (responded answer)
  Charged found s (t, usage, quota_exceeded) =
      Counts s.total_responses s.total_errors s.timeout_errors t × (usage ≡ [])
  Charged found s (t, usage, send_error timed_out) =
      Counts s.total_responses (bump s.total_errors)
        (if timed_out then bump s.timeout_errors else s.timeout_errors) t
      × (stream : ActiveStream) × (body : Bytes) × Open found stream
      × (w.request_body ≡ some body)
      × Got s stream body usage (failed timed_out)
  Charged found s (t, usage, _) =
      Counts s.total_responses (bump s.total_errors) s.timeout_errors t × (usage ≡ [])

  abbrev Answer : Option ActiveStream → GrpcServer → Reply → Type 0
  Answer found s r = SameRequests s r.0 × Charged found s r
