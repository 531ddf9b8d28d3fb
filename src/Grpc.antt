-- ===== src/Grpc.antt =====
-- The gRPC tunnel server of internal/tunnel/grpc_service.go, grpc_service_helpers.go and
-- grpc_chunked_streaming.go.
pub mod Streams
pub mod Steps
pub mod Channels
pub mod Sections
pub mod Registered
pub mod Moves
pub mod Matched
pub mod Panics
pub mod Tunnels
pub mod Admitted
pub mod Fetches
pub mod Requests
pub mod Bare
pub mod Accounted
pub mod Splitting
pub mod Whole
pub mod Chunks
pub mod Absorbed
pub mod Collected
pub mod LargeFiles
pub mod Uploads
pub mod Uploaded
pub mod Unchecked
pub mod Samples
mod Tests
mod RequestTests
mod ChunkTests
