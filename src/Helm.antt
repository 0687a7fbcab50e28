-- ===== src/Helm.antt =====
-- internal/helm: what the operator does on a target cluster, and to fetch charts.
pub mod Getter
pub mod Base64
pub mod Json
pub mod PullSecret
pub mod Installer
pub mod Repository
pub mod Confinement
pub mod Server
