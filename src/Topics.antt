-- ===== src/Topics.antt =====
-- The log of topics: internal/wal/wal_topic.go.
pub mod TopicLog
pub mod Live
pub mod Manager
pub mod Synced
mod Examples
mod Scenarios
