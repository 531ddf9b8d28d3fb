-- ===== src/Grpc/LargeFiles.antt =====
-- Which requests the gRPC server streams: isLargeFileRequest of
-- internal/tunnel/grpc_chunked_streaming.go. Texts whose case is changed are ASCII.
use giraffecloud.Base.{
  ℕ, ◌-◌, ◌*◌, ◌%◌, ◌^◌, Bool, not, ◌||◌, Option, none, some, List, [], ◌∷◌, Bytes, codes, ◌==◌,
  nat_eq, bytes_eq, any, map, ltb, leb, if◌then◌else◌,
}
use giraffecloud.Text.{contains, has_suffix, to_lower}
use giraffecloud.Text.Decimal.{is_digit, value}
use giraffecloud.Usage.Quota.{ltb64}
use giraffecloud.Grpc.Chunks.{is_empty}

pub record LargeRequest : Type 0 where
  pub method : Bytes
  pub path : Bytes
  -- empty without the header
  pub content_length : Bytes
  -- what the reads of the body give, and whether they end with the end of the file
  pub reads : List Bytes
  pub ends_well : Bool

-- ChunkedStreamingThreshold
abbrev pub threshold : ℕ
threshold = 16 * 1024 * 1024

abbrev pub parse_digits : Bytes → Option ℕ
parse_digits s = if is_empty s || any (λ c. not (is_digit c)) s then none else some (value 0 s)

abbrev pub negative : Option ℕ → Option ℕ
negative none = none
negative (some v) = if leb v (2 ^ 63) then some ((2 ^ 64 - v) % 2 ^ 64) else none

abbrev pub positive : Option ℕ → Option ℕ
positive none = none
positive (some v) = if ltb v (2 ^ 63) then some v else none

-- strconv.ParseInt(s, 10, 64): the word of the number, or none for an error.
unfoldable pub parse_int : Bytes → Option ℕ
unfolding value
parse_int [] = none
parse_int (c ∷ s) =
    if c == b'-'
    then negative (parse_digits s)
    else if c == b'+'
    then positive (parse_digits s)
    else positive (parse_digits (c ∷ s))

abbrev pub large_extensions : List Bytes
large_extensions = map codes (
    ".mp4" ∷ ".avi" ∷ ".mov" ∷ ".mkv" ∷ ".webm" ∷ ".m4v" ∷ ".flv" ∷ ".wmv" ∷ ".mpg" ∷ ".mpeg"
    ∷ ".m2v" ∷ ".zip" ∷ ".rar" ∷ ".7z" ∷ ".tar" ∷ ".gz" ∷ ".bz2" ∷ ".xz" ∷ ".iso" ∷ ".img" ∷ ".dmg"
    ∷ ".exe" ∷ ".msi" ∷ ".deb" ∷ ".rpm" ∷ ".appimage" ∷ ".wav" ∷ ".flac" ∷ ".ape" ∷ [])

abbrev pub large_paths : List Bytes
large_paths = map codes (
    "/video/" ∷ "/videos/" ∷ "/movie/" ∷ "/movies/" ∷ "/playback" ∷ "/download/" ∷ "/downloads/"
    ∷ "/file/" ∷ "/files/" ∷ "/original/" ∷ "/raw/" ∷ "/backup/" ∷ "/archive/" ∷ "/media/large/"
    ∷ "/assets/large/" ∷ "/content/large/" ∷ [])

-- The estimate by the path, in lower case.
unfoldable pub estimate_by_path : Bytes → ℕ
unfolding contains
estimate_by_path path =
    if contains path (codes "/video/") || contains path (codes "/playback")
    then 200 * 1024 * 1024
    else if contains path (codes "/download/") || contains path (codes "/file/")
    then 100 * 1024 * 1024
    else if contains path (codes "/original/") || contains path (codes "/raw/")
    then 50 * 1024 * 1024
    else 1024 * 1024

abbrev pub or_estimate : Option ℕ → Bytes → ℕ
or_estimate (some size) path = size
or_estimate none path = estimate_by_path path

unfoldable pub estimate_response_size : LargeRequest → ℕ
unfolding estimate_by_path parse_int to_lower
estimate_response_size r = or_estimate (parse_int r.content_length) (to_lower r.path)

abbrev pub is_large_by : Option ℕ → LargeRequest → Bool
is_large_by (some size) r = ltb64 threshold size
is_large_by none r =
    any (has_suffix (to_lower r.path)) large_extensions
    || any (contains (to_lower r.path)) large_paths
    || ltb64 threshold (estimate_response_size r)

unfoldable pub is_large_file_request : LargeRequest → Bool
unfolding estimate_response_size contains has_suffix parse_int to_lower
is_large_file_request r = is_large_by (parse_int r.content_length) r
