-- ===== src/Offsets.antt =====
-- Where messages and committed offsets go: internal/partition/partition.go and the offset log of
-- internal/wal/wal_offset.go.
pub mod Partitioner
pub mod Routing
pub mod Keys
pub mod Store
pub mod Recovery
mod Examples
