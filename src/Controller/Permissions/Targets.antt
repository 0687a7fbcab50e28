-- ===== src/Controller/Permissions/Targets.antt =====
-- What the TargetCluster reconciler needs of the role.
use rancher_operator.Common.{ℕ, ◌≡◌, refl, true, Result, Error, arith}
use rancher_operator.Common.Text.{Text, Bytes, text_eq}
use rancher_operator.Api.Meta.{NamespacedName, Secret}
use rancher_operator.Api.TargetCluster.{TargetCluster}
use rancher_operator.Runtime.{
  Env, Log, got_target_cluster, got_secret, updated_target_cluster_status,
}
use rancher_operator.Controller.TargetCluster.{
  unavailable, available, probe, lookup_failed, reconcile_found, reconcile,
}
use rancher_operator.Controller.Permissions.{
  target_cluster_rules, has_verb, allows, covers, covers_all,
}

module _ (env : Env) where
  covered_get :
      (name : NamespacedName) (r : Result TargetCluster)
      → covers target_cluster_rules (got_target_cluster name r) ≡ true
  unfolding covers allows has_verb target_cluster_rules text_eq
  covered_get name r = refl

  covered_secret :
      (name : NamespacedName) (r : Result Secret)
      → covers target_cluster_rules (got_secret name r) ≡ true
  unfolding covers allows has_verb target_cluster_rules text_eq
  covered_secret name r = refl

  covered_update :
      (tc : TargetCluster) (r : Result (Unit {0}))
      → covers target_cluster_rules (updated_target_cluster_status tc r) ≡ true
  unfolding covers allows has_verb target_cluster_rules text_eq
  covered_update tc r = refl

  covered-unavailable :
      (tc : TargetCluster) (reason message : Text) (t : ℕ) (log : Log)
      → covers_all target_cluster_rules (unavailable env tc reason message t log).1
        ≡ covers_all target_cluster_rules log
  unfolding unavailable
  covered-unavailable tc reason message t log = grind (arith, covered_update)

  covered-lookup_failed :
      (tc : TargetCluster) (name : Text) (e : Error) (log : Log)
      → covers_all target_cluster_rules (lookup_failed env tc name e log).1
        ≡ covers_all target_cluster_rules log
  unfolding lookup_failed
  covered-lookup_failed tc name e log = grind (arith, covered-unavailable)

  covered-available :
      (tc : TargetCluster) (version : Text) (nodes : ℕ) (log : Log)
      → covers_all target_cluster_rules (available env tc version nodes log).1
        ≡ covers_all target_cluster_rules log
  unfolding available
  covered-available tc version nodes log = grind (arith, covered_update)

  covered-probe :
      (tc : TargetCluster) (kubeconfig : Bytes) (log : Log)
      → covers_all target_cluster_rules (probe env tc kubeconfig log).1
        ≡ covers_all target_cluster_rules log
  unfolding probe covers
  covered-probe tc kubeconfig log = grind (arith, covered-unavailable, covered-available)

  covered-reconcile_found :
      (tc : TargetCluster) (log : Log)
      → covers_all target_cluster_rules (reconcile_found env tc log).1
        ≡ covers_all target_cluster_rules log
  unfolding reconcile_found
  covered-reconcile_found tc log =
      grind (arith, covered-unavailable, covered-lookup_failed, covered-probe, covered_secret)

  -- A run calls nothing on the management cluster but what the markers above it allow: each of its
  -- reads with get, list and watch, and its updates of a status.
  pub reconcile-covered_target :
      (req : NamespacedName) (log : Log)
      → covers_all target_cluster_rules (reconcile env req log).1
        ≡ covers_all target_cluster_rules log
  unfolding reconcile
  reconcile-covered_target req log = grind (arith, covered-reconcile_found, covered_get)
