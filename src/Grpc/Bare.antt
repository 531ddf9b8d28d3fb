-- ===== src/Grpc/Bare.antt =====
-- What fetching a response counts (internal/tunnel/grpc_service_helpers.go).
use giraffecloud.Base.{
  ℕ, ◌≡◌, refl, inl, inr, Bool, true, false, Option, none, some, List, [], ◌∷◌, map, not, ◌&&◌,
  ◌==◌, ltb, length, nat_eq, All, Bytes, bytes_eq, if◌then◌else◌, Bool-cases,
}
use giraffecloud.Base.Map.{lookup}
use giraffecloud.Grpc.Tunnels.{ActiveStream, GrpcServer}
use giraffecloud.Grpc.Streams.{
  Answer as StreamAnswer, response, streamed, tunnel_error, invalid_response, answer,
}
use giraffecloud.Grpc.Fetches.{
  UsageCall, Wait, send_fails, receives, time_over, ended, host_of, host_call, host_calls,
  FetchWorld, chunk_call, after_answer, after_wait, send_request_and_wait_response,
}
use giraffecloud.Grpc.Requests.{RequestWorld, fetched}

-- A call that counts neither a request nor bytes of one.
abbrev pub Bare : UsageCall → Type 0
Bare u = (u.requests ≡ 0) × (u.bytes_in ≡ 0)

host_call-Bare :
    (domain body : Bytes) (o : Option ActiveStream) → All Bare (host_call domain body o)
host_call-Bare domain body none = tt
host_call-Bare domain body (some stream) =
    elim (Bool-cases (not (domain == []) && ltb 0 (length body) && not (stream.user_id == 0))) [
      | inl counted ↦ rw counted ((refl, refl), tt)
      | inr uncounted ↦ rw uncounted tt
    ]

if_Bare : (b : Bool) (us : List UsageCall) → All Bare us → All Bare (if b then us else [])
if_Bare true us h = h
if_Bare false us h = tt

chunk_calls-Bare :
    (f : FetchWorld) (has_usage : Bool) (streams : List (Bytes × ActiveStream))
    (stream : ActiveStream) (ns : List ℕ)
    → All Bare (map (chunk_call f has_usage streams stream) ns)
chunk_calls-Bare f has_usage streams stream [] = tt
chunk_calls-Bare f has_usage streams stream (n ∷ ns) =
    ((refl, refl), chunk_calls-Bare f has_usage streams stream ns)

after_answer-Bare :
    (f : FetchWorld) (has_usage : Bool) (streams : List (Bytes × ActiveStream))
    (stream : ActiveStream) (a : StreamAnswer)
    → All Bare (after_answer f has_usage streams stream a).usage
unfolding after_answer host_calls
after_answer-Bare f has_usage streams stream (response r) =
    if_Bare has_usage _ (host_call-Bare (host_of r) r.body (lookup (host_of r) streams))
after_answer-Bare f has_usage streams stream (streamed m) =
    if_Bare has_usage _ (chunk_calls-Bare f has_usage streams stream _)
after_answer-Bare f has_usage streams stream (tunnel_error text code) = tt
after_answer-Bare f has_usage streams stream invalid_response = tt

after_wait-Bare :
    (f : FetchWorld) (has_usage : Bool) (streams : List (Bytes × ActiveStream))
    (stream : ActiveStream) (wait : Wait)
    → All Bare (after_wait f has_usage streams stream wait).usage
unfolding after_wait
after_wait-Bare f has_usage streams stream (send_fails is_timeout) = tt
after_wait-Bare f has_usage streams stream (receives m) =
    after_answer-Bare f has_usage streams stream (answer m)
after_wait-Bare f has_usage streams stream time_over = tt
after_wait-Bare f has_usage streams stream ended = tt

pub fetched-Bare :
    (w : RequestWorld) (domain : Bytes) (s : GrpcServer) (stream : ActiveStream) (warned : Bool)
    (body : Bytes)
    → All Bare (fetched w domain s stream warned body).usage
unfolding fetched send_request_and_wait_response
fetched-Bare w domain s stream warned body =
    after_wait-Bare w.fetch w.has_usage s.tunnel_streams stream (w.fetch.wait stream warned body)
