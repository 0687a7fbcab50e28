-- ===== src/Tests.antt =====
-- Runs of the model at concrete inputs.
mod World
mod TargetClusterRuns
mod HelmRuns
mod ManagerRuns
mod TestUtilsRuns
mod ComponentRuns
mod ServerRuns
mod RefusalRuns
mod CopyRuns
mod RolloutRuns
mod RepetitionRuns
mod PrerequisitesRuns
