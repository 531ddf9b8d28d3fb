-- ===== src/Connections.antt =====
-- internal/tunnel/connection_manager.go and the connections of internal/tunnel/types.go: the pools
-- of tunnel connections of each domain, and the map from domains to them.
pub mod Pool
pub mod Manager
pub mod Steps
pub mod Rotation
pub mod Census
pub mod Serving
pub mod Entries
pub mod Invariant
pub mod Owners
pub mod Removal
pub mod Adding
pub mod Cleanup
mod Tests
