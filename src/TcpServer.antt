-- ===== src/TcpServer.antt =====
-- The TCP tunnel server: internal/tunnel/server.go.
pub mod Clients
pub mod Wires
pub mod WebSockets
pub mod Handshakes
pub mod Replies
pub mod Sessions
pub mod Forgotten
mod Dead
mod Tests
