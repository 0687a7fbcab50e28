-- ===== src/Controller.antt =====
-- The reconcilers of internal/controller, one module for each.
pub mod Outcome
pub mod Conditions
pub mod TargetCluster
pub mod Components
pub mod ClusterPrerequisites
pub mod RancherManager
pub mod Permissions
