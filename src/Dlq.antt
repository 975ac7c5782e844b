-- ===== src/Dlq.antt =====
-- The dead-letter queue of internal/consumer/consumer.go, with the message type of
-- pkg/types/types.go.
pub mod Queue
pub mod Bounds
pub mod Views
pub mod Removal
mod Examples
