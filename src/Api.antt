-- ===== src/Api.antt =====
-- The custom resources of api/v1alpha1, one module for each Go file, and the metadata they share.
pub mod Meta
pub mod TargetCluster
pub mod ClusterPrerequisites
pub mod RancherManager
pub mod DeepCopy
pub mod Defaults
