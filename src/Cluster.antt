-- ===== src/Cluster.antt =====
-- Membership, leader election, in-sync replicas and partition ownership: internal/cluster outside raft.
pub mod Registry
pub mod Bully
pub mod Leaders
pub mod Grants
pub mod Terms
pub mod InSync
pub mod Ownership
mod Examples
