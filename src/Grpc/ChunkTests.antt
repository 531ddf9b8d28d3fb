-- ===== src/Grpc/ChunkTests.antt =====
-- Chunks and uploads of the gRPC server (internal/tunnel/grpc_chunked_streaming.go) on concrete inputs.
use giraffecloud.Base.{
  ℕ, ◌≡◌, refl, Bool, true, false, none, some, List, [], ◌∷◌, ◌++◌, map, length, Bytes, codes,
  bytes_eq, bytes_beq, arith,
}
use giraffecloud.Base.Map.{lookup, insert, delete}
use giraffecloud.Text.{has_suffix}
use giraffecloud.Router.Routing.{is_upload}
use giraffecloud.Usage.Quota.{block}
use giraffecloud.Grpc.Streams.{HttpResponse, start}
use giraffecloud.Grpc.Fetches.{FetchWorld, send_fails}
use giraffecloud.Grpc.Requests.{RequestWorld}
use giraffecloud.Grpc.Splitting.{FetchedResponse, LargeFileChunk, stream_response_in_chunks}
use giraffecloud.Grpc.Whole.{Whole, stream_response_in_chunks-Whole}
use giraffecloud.Grpc.Chunks.{
  closes, StreamError, refused, nothing_yet, is_final_id, collect, delivered, without_length,
  deliver_collection,
}
use giraffecloud.Grpc.Absorbed.{sum, bodies, chunk_message}
use giraffecloud.Grpc.Collected.{collect-whole, collect-cut}
use giraffecloud.Grpc.LargeFiles.{LargeRequest, is_large_file_request}
use giraffecloud.Grpc.Uploads.{
  UploadMessage, upload_start, upload_end, upload_chunk, uploaded, send_upload, LargeWorld,
  answered, proxy_http_request_with_chunking,
}
use giraffecloud.Grpc.Uploaded.{chunk_bytes, read_bytes, send_upload-Through}
use giraffecloud.Grpc.Unchecked.{with_checks, Uncounted, proxy_http_request_with_chunking-Uncounted}
use giraffecloud.Grpc.Samples.{shop}

-- Five bytes in chunks of two.
abbrev five_bytes : FetchedResponse
five_bytes = record { status_code = 200; headers = []; body = 1 ∷ 2 ∷ 3 ∷ 4 ∷ 5 ∷ [] }

abbrev all_sent : LargeFileChunk → Bool
all_sent c = true

stream_response_in_chunks-Whole_example :
    Whole
      (codes "r")
      five_bytes
      2
      all_sent
      (stream_response_in_chunks (codes "r") five_bytes 2 all_sent)
stream_response_in_chunks-Whole_example =
    stream_response_in_chunks-Whole (codes "r") five_bytes 2 all_sent (omega arith)

chunks_test :
    map
      (λ (c : LargeFileChunk). c.bytes)
      (stream_response_in_chunks (codes "r") five_bytes 2 all_sent).0
    ≡ (1 ∷ 2 ∷ []) ∷ (3 ∷ 4 ∷ []) ∷ (5 ∷ []) ∷ []
unfolding stream_response_in_chunks
chunks_test = refl

abbrev piece : Bytes → Bytes → HttpResponse
piece id body = record {
  status_code = 200;
  headers = (codes "Content-Length", codes "9") ∷ (codes "Etag", id) ∷ [];
  body = body;
  is_chunked = true;
  chunk_id = id;
}

abbrev first_piece : HttpResponse
first_piece = piece (codes "r_0") (7 ∷ 8 ∷ [])

abbrev last_piece : HttpResponse
last_piece = piece (codes "r_1_final") (9 ∷ [])

abbrev end_piece : HttpResponse
end_piece = piece (codes "r_1_final") []

abbrev reader : Bytes → Bytes → Bool
reader written body = true

collect-whole_example :
    let c =
      collect reader true
        (chunk_message (codes "r") first_piece ∷ chunk_message (codes "r") last_piece ∷ closes ∷ [])
        nothing_yet in
    (deliver_collection true c ≡ delivered (without_length first_piece) (7 ∷ 8 ∷ 9 ∷ []) true)
    × (sum c.recorded ≡ 3)
unfolding bodies is_final_id bytes_beq has_suffix
collect-whole_example =
    collect-whole reader true (λ written body. refl) (codes "r") (first_piece ∷ []) last_piece
      (closes ∷ []) true ((refl, refl), tt) (refl, refl)

collect-cut_example :
    let cut =
      collect reader true (chunk_message (codes "r") first_piece ∷ closes ∷ []) nothing_yet in
    (deliver_collection false cut
      ≡ deliver_collection false (
          collect reader true
            (chunk_message (codes "r") first_piece ∷ chunk_message (codes "r") end_piece ∷ [])
            nothing_yet))
    × (e : StreamError) × (deliver_collection true cut ≡ refused e)
unfolding is_final_id bytes_beq has_suffix
collect-cut_example =
    collect-cut reader true (λ written body. refl) (codes "r") first_piece [] closes end_piece []
      ((refl, refl), tt) tt (refl, refl) refl

-- The tunnel goes after the first chunk, and the response looks whole.
cut_test :
    deliver_collection false
      (collect reader true (chunk_message (codes "r") first_piece ∷ closes ∷ []) nothing_yet)
    ≡ delivered (without_length first_piece) (7 ∷ 8 ∷ []) true
unfolding collect deliver_collection bytes_beq has_suffix
cut_test = refl

head_test : (without_length first_piece).headers ≡ (codes "Etag", codes "r_0") ∷ []
unfolding without_length delete bytes_beq
head_test = refl

abbrev post : LargeRequest
post = record {
  method = codes "POST";
  path = codes "/orders";
  content_length = codes "3";
  reads = (1 ∷ 2 ∷ []) ∷ [] ∷ (3 ∷ []) ∷ [];
  ends_well = true;
}

abbrev sends_all : List UploadMessage → UploadMessage → Bool
sends_all sent m = true

send_upload-Through_example :
    let u = send_upload sends_all post in
    ((rest : Bytes) × (chunk_bytes u.sent ++ rest ≡ read_bytes post.reads))
    × (u.result ≡ uploaded
        → (chunk_bytes u.sent ≡ read_bytes post.reads)
          × (sum u.recorded ≡ length (read_bytes post.reads))
          × (front : List UploadMessage) × (u.sent ≡ front ++ upload_end ∷ []))
send_upload-Through_example = send_upload-Through sends_all post

upload_test : send_upload sends_all post ≡ record {
  sent = upload_start ∷ upload_chunk (1 ∷ 2 ∷ []) ∷ upload_chunk (3 ∷ []) ∷ upload_end ∷ [];
  recorded = 2 ∷ 1 ∷ [];
  result = uploaded;
}
unfolding send_upload
upload_test = refl

abbrev no_reply : FetchWorld
no_reply = record {
  wait = λ stream warned body. send_fails false;
  later = [];
  accepts = reader;
  prefers_error = false;
}

-- A world in which the domain is disabled, the user blocked and the rate limiter unwilling.
abbrev forbidden : RequestWorld
forbidden = record {
  status_cache = some [];
  quota = some (λ user. block);
  has_usage = true;
  allows = false;
  request_body = some [];
  fetch = no_reply;
}

abbrev client : LargeWorld
client = record {
  waiting_requests = start;
  request_id = codes "r";
  meanwhile = λ s. s;
  sends = sends_all;
  sends_request = true;
  accepts = reader;
  arrivals = chunk_message (codes "r") end_piece ∷ [];
  prefers_error = false;
}

proxy_http_request_with_chunking-Uncounted_example :
    (proxy_http_request_with_chunking
        (with_checks none none true forbidden)
        client
        post
        (codes "shop.example")
        shop
      ≡ proxy_http_request_with_chunking forbidden client post (codes "shop.example") shop)
    × Uncounted shop
        (proxy_http_request_with_chunking forbidden client post (codes "shop.example") shop)
unfolding is_upload bytes_beq
proxy_http_request_with_chunking-Uncounted_example =
    proxy_http_request_with_chunking-Uncounted forbidden client post none none true
      (codes "shop.example") shop refl

-- The upload is answered all the same.
forbidden_test :
    (proxy_http_request_with_chunking forbidden client post (codes "shop.example") shop).outcome
    ≡ answered (delivered (without_length end_piece) [] true)
unfolding proxy_http_request_with_chunking lookup insert bytes_beq
forbidden_test = refl

-- The request waits no more once its response is there, and it does when the upload failed.
abbrev still_waits : LargeRequest → List (Bytes × ℕ)
still_waits request =
    let r = proxy_http_request_with_chunking forbidden client request (codes "shop.example") shop in
    r.waiting_requests.pending_requests

forgotten_test : still_waits post ≡ []
unfolding proxy_http_request_with_chunking lookup insert delete bytes_beq
forgotten_test = refl

left_test : still_waits (record post { ends_well = false }) ≡ (codes "r", 0) ∷ []
unfolding proxy_http_request_with_chunking lookup insert bytes_beq
left_test = refl

video_test :
    is_large_file_request (record post { content_length = []; path = codes "/Clips/A.MP4" }) ≡ true
unfolding is_large_file_request bytes_beq
video_test = refl
