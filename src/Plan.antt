-- ===== src/Plan.antt =====
-- planner.py: the immutable plan of one topology, and what is read off it.
pub mod Address
pub mod Types
pub mod Mtu
pub mod Interfaces
pub mod Equality
