-- ===== src/Storage.antt =====
-- The partition logs: internal/storage/record.go, segment.go and partition_log.go.
pub mod Record
pub mod Segment
pub mod Framing
pub mod Holding
pub mod Index
pub mod Segments
pub mod Writing
pub mod Partition
pub mod Logs
pub mod Appending
pub mod Contract
pub mod Totality
pub mod Compressed
pub mod Compaction
mod Examples
