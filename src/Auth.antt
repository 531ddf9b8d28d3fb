-- ===== src/Auth.antt =====
-- API tokens and the tunnel that a token opens: internal/repository/token_repository.go and
-- internal/tunnel/auth_helpers.go.
pub mod Base64
pub mod Memory
pub mod Tokens
pub mod Service
pub mod Tunnels
mod Revocation
pub mod Granted
pub mod Samples
mod Tests
