-- ===== src/Tests.antt =====
-- Runs of the model on concrete topologies, as examples of the theorems.
pub mod Simulation
pub mod Deployments
pub mod Plans
pub mod Commands
pub mod Inventories
pub mod Rates
pub mod Store
pub mod Fakes
