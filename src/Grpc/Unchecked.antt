-- ===== src/Grpc/Unchecked.antt =====
-- What uploads and large files go past (internal/tunnel/grpc_chunked_streaming.go).
use giraffecloud.Base.{
  ℕ, ◌≡◌, refl, inl, inr, Bool, true, false, ◌||◌, Option, none, some, List, [], ◌∷◌, map, Bytes,
  bytes_eq, if◌then◌else◌, Bool-cases, All, All-append,
}
use giraffecloud.Base.Map.{lookup}
use giraffecloud.Tunnels.StatusCache.{StatusCache}
use giraffecloud.Usage.Quota.{QuotaDecision}
use giraffecloud.Router.Routing.{is_upload}
use giraffecloud.Grpc.Tunnels.{ActiveStream, GrpcServer}
use giraffecloud.Grpc.Fetches.{UsageCall}
use giraffecloud.Grpc.Requests.{RequestWorld}
use giraffecloud.Grpc.LargeFiles.{LargeRequest, is_large_file_request}
use giraffecloud.Grpc.Uploads.{
  Upload, is_uploaded, LargeWorld, ChunkedReply, usage_in, usage_out, collect_no_send, after_upload,
  upload_through, after_conversion, download_through, proxy_http_request_with_chunking, send_upload,
}

-- The world with another cache, quota and rate limiter.
abbrev pub with_checks :
    Option StatusCache → Option (ℕ → QuotaDecision) → Bool → RequestWorld → RequestWorld
with_checks cache quota allows w = record w { status_cache = cache; quota = quota; allows = allows }

-- The counters are as they were, and no request is counted for the usage.
abbrev pub Uncounted : GrpcServer → ChunkedReply → Type 0
Uncounted s r = (r.server ≡ s) × All (λ (u : UsageCall). u.requests ≡ 0) r.usage

module _ (w : RequestWorld) (l : LargeWorld) (request : LargeRequest) where
  calls_in :
      (stream : ActiveStream) (ns : List ℕ)
      → All (λ (u : UsageCall). u.requests ≡ 0) (map (usage_in w l request stream) ns)
  calls_in stream [] = tt
  calls_in stream (n ∷ ns) = (refl, calls_in stream ns)

  calls_out :
      (stream : ActiveStream) (ns : List ℕ)
      → All (λ (u : UsageCall). u.requests ≡ 0) (map (usage_out w l request stream) ns)
  calls_out stream [] = tt
  calls_out stream (n ∷ ns) = (refl, calls_out stream ns)

  if_usage :
      (b : Bool) (us : List UsageCall)
      → All (λ (u : UsageCall). u.requests ≡ 0) us
      → All (λ (u : UsageCall). u.requests ≡ 0) (if b then us else [])
  if_usage true us h = h
  if_usage false us h = tt

  collect_no_send-Uncounted :
      (s : GrpcServer) (stream : ActiveStream) (ns : List ℕ) (found : Option ℕ)
      → Uncounted s
          (collect_no_send w l request s stream (map (usage_in w l request stream) ns) found)
  unfolding collect_no_send
  collect_no_send-Uncounted s stream ns none = (refl, if_usage w.has_usage _ (calls_in stream ns))
  collect_no_send-Uncounted s stream ns (some n) =
      (refl, if_usage w.has_usage _ (All-append _ _ _ (calls_in stream ns) (calls_out stream _)))

  after_upload-Uncounted :
      (s : GrpcServer) (stream : ActiveStream) (u : Upload)
      → Uncounted s (after_upload w l request s stream u)
  unfolding after_upload
  after_upload-Uncounted s stream u = elim (Bool-cases (is_uploaded u.result)) [
    | inl yes_so ↦ simp yes_so (collect_no_send-Uncounted s stream u.recorded _)
    | inr not_so ↦ simp not_so (refl, if_usage w.has_usage _ (calls_in stream u.recorded))
  ]

  upload_through-Uncounted :
      (s : GrpcServer) (found : Option ActiveStream)
      → Uncounted s (upload_through w l request s found)
  unfolding upload_through
  upload_through-Uncounted s none = (refl, tt)
  upload_through-Uncounted s (some stream) = elim (Bool-cases stream.is_connected) [
    | inl live ↦ simp live (after_upload-Uncounted s stream (send_upload l.sends request))
    | inr dead ↦ simp dead (refl, tt)
  ]

  after_conversion-Uncounted :
      (s : GrpcServer) (stream : ActiveStream) (body : Option Bytes)
      → Uncounted s (after_conversion w l request s stream body)
  unfolding after_conversion
  after_conversion-Uncounted s stream none = (refl, tt)
  after_conversion-Uncounted s stream (some body) = elim (Bool-cases l.sends_request) [
    | inl yes_so ↦ simp yes_so (refl, if_usage w.has_usage _ (calls_out stream _))
    | inr not_so ↦ simp not_so (refl, tt)
  ]

  download_through-Uncounted :
      (s : GrpcServer) (found : Option ActiveStream)
      → Uncounted s (download_through w l request s found)
  unfolding download_through
  download_through-Uncounted s none = (refl, tt)
  download_through-Uncounted s (some stream) = elim (Bool-cases stream.is_connected) [
    | inl live ↦ simp live (after_conversion-Uncounted s stream w.request_body)
    | inr dead ↦ simp dead (refl, tt)
  ]

  -- Uploads and large files are answered the same whatever the status cache, the quota and the rate
  -- limiter say; the counters of the server stay as they were, and no request is counted for the usage.
  pub proxy_http_request_with_chunking-Uncounted :
      (cache : Option StatusCache) (quota : Option (ℕ → QuotaDecision)) (allows : Bool)
      (domain : Bytes) (s : GrpcServer)
      → (is_upload request.method || is_large_file_request request) ≡ true
      → (proxy_http_request_with_chunking (with_checks cache quota allows w) l request domain s
          ≡ proxy_http_request_with_chunking w l request domain s)
        × Uncounted s (proxy_http_request_with_chunking w l request domain s)
  unfolding proxy_http_request_with_chunking
  proxy_http_request_with_chunking-Uncounted cache quota allows domain s large =
      elim (Bool-cases (is_upload request.method)) [
        | inl up ↦ simp up (refl, upload_through-Uncounted s (lookup domain s.tunnel_streams))
        | inr down ↦
            let big : is_large_file_request request ≡ true = rw down at large in
            simp (down, big) (refl, download_through-Uncounted s (lookup domain s.tunnel_streams))
      ]
