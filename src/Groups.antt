-- ===== src/Groups.antt =====
-- Consumer groups: internal/consumer/consumer.go.
pub mod Members
pub mod Balance
pub mod Dispatch
pub mod Delivery
pub mod Dispatching
pub mod Manager
pub mod Naming
mod Examples
