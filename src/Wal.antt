-- ===== src/Wal.antt =====
-- The write-ahead log: internal/wal/wal.go.
pub mod File
pub mod Reading
pub mod Recovery
pub mod Refinement
pub mod Totality
mod Examples
