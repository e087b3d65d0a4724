-- ===== src/Cluster.antt =====
-- cluster/: the store, the scheduler and the reconciler of the master.
pub mod Table
pub mod Types
pub mod Floats
pub mod State
pub mod Validity
pub mod Updates
pub mod Reports
pub mod Scheduler
pub mod Reconciler
pub mod Deploy
pub mod Master
pub mod Agent
pub mod PortForward
pub mod Samples
pub mod Tests
