-- ===== src/Client.antt =====
-- Parts of the client program: the automatic updates of internal/service/auto_update_service.go and
-- internal/service/updater_service.go, and the pool of connections to the local service of
-- internal/tunnel/connection_pool.go.
pub mod Updates
pub mod LocalPool
mod Accounted
mod Installed
mod Tests
