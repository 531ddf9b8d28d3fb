-- ===== src/Tunnels.antt =====
-- The tunnels of users: internal/repository/tunnel_repository.go, the service of
-- internal/service/tunnel_service.go over it, and internal/tasks/dns_monitor.go.
pub mod Store
pub mod Repository
pub mod Words
pub mod Domains
pub mod Outside
pub mod Service
pub mod DnsMonitor
pub mod StatusCache
pub mod Memory
mod Tests
