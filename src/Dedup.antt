-- ===== src/Dedup.antt =====
-- Idempotent producers: internal/producer/dedup.go.
pub mod Window
pub mod Recent
pub mod Clients
mod Examples
