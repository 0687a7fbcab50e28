-- ===== src/Controller/TargetCluster/Reports.antt =====
-- The TargetCluster reconciler on a target cluster that answers.
use rancher_operator.Common.{
  ◌≡◌, ◌≢◌, refl, true, some, List, [], ◌∷◌, Result, ok, arith, length, int32,
}
use rancher_operator.Common.Text.{Text, Bytes, text_eq}
use rancher_operator.Common.Text.Laws.{text_eq_iff}
use rancher_operator.Api.Meta.{NamespacedName, Secret, secret_value}
use rancher_operator.Api.TargetCluster.{TargetCluster, ByoSpec, target_cluster_type_byo}
use rancher_operator.Runtime.{
  Env, Log, RestConfig, Clientset, got_target_cluster, got_secret, got_server_version, listed_nodes,
  updated_target_cluster_status,
}
use rancher_operator.Controller.TargetCluster.{
  probe_timeout, kubeconfig_key, nonempty, mark_available, available, probe, reconcile_found,
  reconcile,
}
use rancher_operator.Controller.TargetCluster.Readiness.{secret_name}
use rancher_operator.Controller.TargetCluster.Status.{reconcile_of_found}

-- The resource is in BYO mode, its Secret holds a kubeconfig from which a client can be built, and the
-- cluster tells its version and its nodes.
pub record Answers (env : Env) (tc : TargetCluster) (kubeconfig version : Bytes) (nodes : List Text)
    : Type 0 where
  pub byo : ByoSpec
  pub secret : Secret
  pub config : RestConfig
  pub clientset : Clientset
  pub is_byo : tc.spec.type ≡ target_cluster_type_byo
  pub has_spec : tc.spec.byo ≡ some byo
  pub readable : (log : Log) → env.get_secret log (secret_name tc byo) ≡ ok secret
  pub holds : secret_value secret (kubeconfig_key byo.kubeconfig_secret_ref) ≡ some kubeconfig
  pub filled : kubeconfig ≢ []
  pub parsed : env.rest_config_from_kubeconfig kubeconfig ≡ ok config
  pub built : env.new_clientset (record config { timeout = probe_timeout }) ≡ ok clientset
  pub version_told : (log : Log) → env.server_version log clientset ≡ ok version
  pub nodes_told : (log : Log) → env.list_nodes log clientset ≡ ok nodes

-- The run ended by writing the resource as ready, with the version and the number of the nodes, and with
-- its spec and its metadata as they were.
pub record Reports (tc : TargetCluster) (version : Text) (nodes : List Text) (after : Log)
    : Type 0 where
  pub tc' : TargetCluster
  pub written : Result (Unit {0})
  pub calls : Log
  pub ends : after ≡ updated_target_cluster_status tc' written ∷ calls
  pub ready : tc'.status.ready ≡ true
  pub same_meta : tc'.meta ≡ tc.meta
  pub same_spec : tc'.spec ≡ tc.spec
  pub version_eq : tc'.status.kubernetes_version ≡ version
  pub node_count_eq : tc'.status.node_count ≡ int32 (length nodes)

module _ (env : Env) (tc : TargetCluster) (kubeconfig version : Bytes) (nodes : List Text)
    (answers : Answers env tc kubeconfig version nodes) where
  available-Reports :
      (log : Log) → Reports tc version nodes (available env tc version (length nodes) log).1
  unfolding available mark_available
  available-Reports log =
      let tc' = (mark_available env tc version (length nodes) log).0 in
      let ends : (available env tc version (length nodes) log).1
          ≡ updated_target_cluster_status tc' (env.update_target_cluster_status log tc') ∷ log =
        ground arith in
      record {
        tc' = tc';
        written = env.update_target_cluster_status log tc';
        calls = log;
        ends = ends;
        ready = refl;
        same_meta = refl;
        same_spec = refl;
        version_eq = refl;
        node_count_eq = refl;
      }

  probe_run :
      (log : Log)
      → probe env tc kubeconfig log
        ≡ available env tc version (length nodes) (
            listed_nodes answers.clientset (ok nodes)
            ∷ got_server_version answers.clientset (ok version)
            ∷ log)
  unfolding probe
  probe_run log =
      rw (answers.parsed, answers.built, answers.version_told log, answers.nodes_told _) refl

  reconcile_found_run :
      (log : Log)
      → reconcile_found env tc log
        ≡ probe env tc kubeconfig
            (got_secret (secret_name tc answers.byo) (ok answers.secret) ∷ log)
  unfolding reconcile_found
  reconcile_found_run log =
      let same : text_eq tc.spec.type target_cluster_type_byo ≡ true =
        (text_eq_iff tc.spec.type target_cluster_type_byo).1 answers.is_byo in
      let given : nonempty
            (secret_value answers.secret (kubeconfig_key answers.byo.kubeconfig_secret_ref))
          ≡ some kubeconfig =
        ground (arith, answers.holds, answers.filled) in
      simp (same, answers.has_spec, answers.readable log, given) refl

  -- Where the resource is in BYO mode, its Secret holds a kubeconfig from which a client can be
  -- built, and the cluster tells its version and its nodes: a run that finds the resource ends by
  -- writing it as ready, with that version and that number of nodes, its spec and its metadata as
  -- they were.
  pub reconcile-Reports :
      (req : NamespacedName) (log : Log)
      → env.get_target_cluster log req ≡ ok tc
      → Reports tc version nodes (reconcile env req log).1
  reconcile-Reports req log found =
      let looked = got_target_cluster req (ok tc) ∷ log in
      rw (reconcile_of_found env req tc log found, reconcile_found_run looked, probe_run _)
        (available-Reports _)
