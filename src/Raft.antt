-- ===== src/Raft.antt =====
-- The Raft consensus node of internal/cluster/raft.
pub mod State
pub mod Log
pub mod Merge
pub mod Commit
pub mod Sending
pub mod Election
pub mod Replication
pub mod Node
pub mod Append
pub mod Applying
pub mod Advance
pub mod Totality
pub mod Keeps
pub mod Steps
pub mod Following
pub mod Cases
pub mod Votes
pub mod Quorums
pub mod Leadership
pub mod Elections
pub mod Convergence
pub mod Durability
mod Examples
