-- ===== src/Auth.antt =====
-- Roles, permissions and API keys: internal/auth/rbac.go and auth.go.
pub mod Roles
pub mod Keys
pub mod Grants
mod Examples
