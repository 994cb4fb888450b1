-- ===== src/State.antt =====
-- state.py: the durable snapshots of deployments, their files, and the lock of a deployment.
pub mod Snapshot
pub mod Codec
pub mod Files
pub mod Store
pub mod Lock
