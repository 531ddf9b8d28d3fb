-- ===== src/Grpc/Splitting.antt =====
-- StreamLargeFile of internal/tunnel/grpc_chunked_streaming.go, which sends a response in chunks.
-- The request over the client's stream is a parameter, and so is whether a chunk can be sent. The
-- message always holds a request. A length fits in 63 bits.
use giraffecloud.Base.{
  ℕ, zero, suc, ◌+◌, ◌-◌, ◌*◌, ◌/◌, ◌%◌, ◌^◌, Bool, false, not, ◌||◌, Option, none, some, List, [],
  ◌∷◌, Bytes, codes, ◌==◌, nat_eq, bytes_eq, length, take, drop, leb, ltb, if◌then◌else◌,
}
use giraffecloud.Base.Map.{lookup}
use giraffecloud.Grpc.Tunnels.{ActiveStream}

-- MaxChunkSize and DefaultChunkSize are 4 MB.
abbrev pub max_chunk_size : ℕ
max_chunk_size = 4 * 1024 * 1024

abbrev pub default_chunk_size : ℕ
default_chunk_size = 4 * 1024 * 1024

-- The headers of a request, as they are in the message.
abbrev pub Headers : Type 0
Headers = List (Bytes × Bytes)

pub record LargeFileRequest : Type 0 where
  pub request_id : Bytes
  pub headers : Headers
  pub chunk_size : ℕ  -- of 32 bits

pub record FetchedResponse : Type 0 where
  pub status_code : ℕ
  pub headers : Headers
  pub body : Bytes

pub record LargeFileChunk : Type 0 where
  pub request_id : Bytes
  pub chunk_number : ℕ
  pub bytes : Bytes
  pub is_final : Bool
  pub total_size : ℕ
  pub content_type : Bytes
  -- in the first chunk only
  pub head : Option (Headers × ℕ)

pub data StreamResult : Type 0 where
  streamed no_domain no_active_tunnel request_failed chunk_failed : StreamResult

-- headers[key], which is empty for a key that is not there.
abbrev pub value_or_empty : Option Bytes → Bytes
value_or_empty none = []
value_or_empty (some v) = v

unfoldable pub header : Bytes → Headers → Bytes
header key headers = value_or_empty (lookup key headers)

abbrev pub first_domain : List (Bytes × ActiveStream) → Bytes
first_domain [] = []
first_domain ((domain, stream) ∷ streams) = domain

unfoldable pub extract_domain_from_request : List (Bytes × ActiveStream) → LargeFileRequest → Bytes
unfolding header
extract_domain_from_request streams req =
    let host = header (codes "Host") req.headers in
    let forwarded_host = header (codes "X-Forwarded-Host") req.headers in
    if not (host == [])
    then host
    else if not (forwarded_host == [])
    then forwarded_host
    else first_domain streams

-- A chunk size that is negative, zero or too large gives way to the default.
unfoldable pub chunk_size_of : ℕ → ℕ
chunk_size_of size =
    if size == 0 || leb (2 ^ 31) size || ltb max_chunk_size size then default_chunk_size else size

unfoldable pub num_chunks : ℕ → ℕ → ℕ
num_chunks total size = let n = (total + size - 1) / size in if n == 0 then 1 else n

-- responseData[start:end]
unfoldable pub chunk_data : Bytes → ℕ → ℕ → Bytes
chunk_data body size i =
    let start = i * size in
    let stop = start + size in
    let end = if ltb (length body) stop then length body else stop in
    take (end - start) (drop start body)

module _ (request_id : Bytes) (r : FetchedResponse) (size : ℕ) where
  unfoldable pub chunk : ℕ → ℕ → LargeFileChunk
  unfolding chunk_data header
  chunk n i = record {
    request_id = request_id;
    chunk_number = (i + 1) % 2 ^ 32;
    bytes = chunk_data r.body size i;
    is_final = i == n - 1;
    total_size = length r.body;
    content_type = header (codes "Content-Type") r.headers;
    head = if i == 0 then some (r.headers, r.status_code) else none;
  }

  -- The loop: the chunks that were sent, and whether all could be. `rounds` more turns are left.
  unfoldable pub send_chunks :
      (LargeFileChunk → Bool) → ℕ → ℕ → ℕ → List LargeFileChunk × StreamResult
  unfolding chunk
  send_chunks sends n zero i = ([], streamed)
  send_chunks sends n (suc rounds) i =
      let (sent, result) = send_chunks sends n rounds (suc i) in
      if sends (chunk n i) then (chunk n i ∷ sent, result) else ([], chunk_failed)

  unfoldable pub stream_response_in_chunks :
      (LargeFileChunk → Bool) → List LargeFileChunk × StreamResult
  unfolding num_chunks send_chunks
  stream_response_in_chunks sends =
      let n = num_chunks (length r.body) size in send_chunks sends n n 0

-- The bytes that are recorded for the response, when there is a usage service.
unfoldable pub streamed_bytes : FetchedResponse → List ℕ
streamed_bytes r = if ltb 0 (length r.body) then length r.body ∷ [] else []

abbrev pub is_connected_stream : Option ActiveStream → Bool
is_connected_stream none = false
is_connected_stream (some stream) = stream.is_connected

abbrev pub with_response :
    (LargeFileChunk → Bool)
    → LargeFileRequest
    → Option FetchedResponse
    → List LargeFileChunk × StreamResult
with_response sends req none = ([], request_failed)
with_response sends req (some r) =
    stream_response_in_chunks req.request_id r (chunk_size_of req.chunk_size) sends

unfoldable pub stream_large_file :
    (LargeFileChunk → Bool)
    → List (Bytes × ActiveStream)
    → (LargeFileRequest → Option FetchedResponse)
    → LargeFileRequest
    → List LargeFileChunk × StreamResult
unfolding extract_domain_from_request stream_response_in_chunks chunk_size_of
stream_large_file sends streams fetch req =
    let domain = extract_domain_from_request streams req in
    if domain == []
    then ([], no_domain)
    else if is_connected_stream (lookup domain streams)
    then with_response sends req (fetch req)
    else ([], no_active_tunnel)
