-- ===== src/Runtime/Views.antt =====
-- Views of the log: the calls to the management cluster, and what was written there.
use rancher_operator.Common.{◌≡◌, refl, ap, List, [], ◌∷◌}
use rancher_operator.Api.TargetCluster.{TargetCluster}
use rancher_operator.Api.ClusterPrerequisites.{ClusterPrerequisites}
use rancher_operator.Runtime.Calls.{
  Log, got_target_cluster, got_cluster_prerequisites, got_secret, updated_target_cluster_status,
  updated_cluster_prerequisites_status,
}

-- The calls to the management cluster.
abbrev pub management : Log → Log
management [] = []
management (got_target_cluster name r ∷ log) = got_target_cluster name r ∷ management log
management (got_cluster_prerequisites name r ∷ log) =
    got_cluster_prerequisites name r ∷ management log
management (got_secret name r ∷ log) = got_secret name r ∷ management log
management (updated_target_cluster_status tc r ∷ log) =
    updated_target_cluster_status tc r ∷ management log
management (updated_cluster_prerequisites_status cp r ∷ log) =
    updated_cluster_prerequisites_status cp r ∷ management log
management (_ ∷ log) = management log

-- The calls to anything else: the target cluster, the chart registry and Helm.
abbrev pub remote : Log → Log
remote [] = []
remote (got_target_cluster name r ∷ log) = remote log
remote (got_cluster_prerequisites name r ∷ log) = remote log
remote (got_secret name r ∷ log) = remote log
remote (updated_target_cluster_status tc r ∷ log) = remote log
remote (updated_cluster_prerequisites_status cp r ∷ log) = remote log
remote (e ∷ log) = e ∷ remote log

-- The objects whose status was written, newest first.
abbrev pub target_cluster_writes : Log → List TargetCluster
target_cluster_writes [] = []
target_cluster_writes (updated_target_cluster_status tc _ ∷ log) = tc ∷ target_cluster_writes log
target_cluster_writes (_ ∷ log) = target_cluster_writes log

abbrev pub prerequisites_writes : Log → List ClusterPrerequisites
prerequisites_writes [] = []
prerequisites_writes (updated_cluster_prerequisites_status cp _ ∷ log) =
    cp ∷ prerequisites_writes log
prerequisites_writes (_ ∷ log) = prerequisites_writes log

-- The writes are among the calls to the management cluster.
pub prerequisites_writes-management :
    (log : Log) → prerequisites_writes (management log) ≡ prerequisites_writes log
prerequisites_writes-management [] = refl
prerequisites_writes-management (updated_cluster_prerequisites_status cp _ ∷ log) =
    ap (λ ws. cp ∷ ws) (prerequisites_writes-management log)
prerequisites_writes-management (got_target_cluster _ _ ∷ log) = prerequisites_writes-management log
prerequisites_writes-management (_ ∷ log) = prerequisites_writes-management log
