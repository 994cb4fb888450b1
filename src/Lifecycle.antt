-- ===== src/Lifecycle.antt =====
-- lifecycle.py: transactional deployment of topologies with durable ownership snapshots.
pub mod Services
pub mod Reconcile
pub mod Rollback
pub mod Ownership
pub mod Guards
pub mod Deploy
pub mod Destroy
pub mod Reads
pub mod Frame
pub mod Trace
pub mod Owned
pub mod Cleanup
pub mod Forgets
pub mod Deployed
pub mod Destroyed
pub mod Quiet
pub mod Removals
pub mod Kept
pub mod Undone
