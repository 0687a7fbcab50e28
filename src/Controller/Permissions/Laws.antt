-- ===== src/Controller/Permissions/Laws.antt =====
-- Which calls need the role.
use rancher_operator.Common.{◌≡◌, refl, ap, ◌&&◌, List, [], ◌∷◌}
use rancher_operator.Runtime.{
  Log, management, got_target_cluster, got_cluster_prerequisites, got_secret,
  updated_target_cluster_status, updated_cluster_prerequisites_status,
}
use rancher_operator.Controller.Permissions.{Rule, covers, covers_all}

-- Only the calls to the management cluster matter.
pub covers_all-management :
    (rules : List Rule) (log : Log) → covers_all rules (management log) ≡ covers_all rules log
unfolding covers
covers_all-management rules [] = refl
covers_all-management rules (got_target_cluster name r ∷ log) =
    ap (λ b. covers rules (got_target_cluster name r) && b) (covers_all-management rules log)
covers_all-management rules (got_cluster_prerequisites name r ∷ log) =
    ap (λ b. covers rules (got_cluster_prerequisites name r) && b) (covers_all-management rules log)
covers_all-management rules (got_secret name r ∷ log) =
    ap (λ b. covers rules (got_secret name r) && b) (covers_all-management rules log)
covers_all-management rules (updated_target_cluster_status tc r ∷ log) =
    ap (λ b. covers rules (updated_target_cluster_status tc r) && b)
      (covers_all-management rules log)
covers_all-management rules (updated_cluster_prerequisites_status cp r ∷ log) =
    ap (λ b. covers rules (updated_cluster_prerequisites_status cp r) && b)
      (covers_all-management rules log)
covers_all-management rules (_ ∷ log) = covers_all-management rules log
