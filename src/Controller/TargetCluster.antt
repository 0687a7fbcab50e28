-- ===== src/Controller/TargetCluster.antt =====
-- internal/controller/targetcluster_controller.go
pub mod Status
pub mod Readiness
pub mod Counts
pub mod Reports
pub mod Retry
pub mod Convergence
pub mod History
use rancher_operator.Common.{
  ℕ, ◌*◌, ◌++◌, true, false, not, Option, none, some, length, int32, Error, Result, wrap,
  is_not_found, if◌then◌else◌,
}
use rancher_operator.Common.Text.{Text, Bytes, codes, text_eq, is_empty, decimal}
use rancher_operator.Api.Meta.{NamespacedName, condition_true, condition_false, secret_value}
use rancher_operator.Api.TargetCluster.{TargetCluster, KubeconfigSecretRef, target_cluster_type_byo}
use rancher_operator.Runtime.{
  Env, M, return, call, ◌>>=◌, ◌>>◌, attempt, attempt_pure, require, exit_if, perform, body,
  got_target_cluster, got_secret, updated_target_cluster_status, got_server_version, listed_nodes,
}
use rancher_operator.Controller.Outcome.{
  Outcome, second, requeue_after_success, requeue_after_error, done, failed, after_write,
}
use rancher_operator.Controller.Conditions.{available_condition}

abbrev pub probe_timeout : ℕ
probe_timeout = 15 * second

abbrev pub reason_available : Text
reason_available = codes "Reachable"

abbrev pub reason_missing_byo_spec : Text
reason_missing_byo_spec = codes "MissingBYOSpec"

abbrev pub reason_unsupported_type : Text
reason_unsupported_type = codes "UnsupportedType"

abbrev pub reason_missing_secret : Text
reason_missing_secret = codes "MissingSecret"

abbrev pub reason_invalid_kubeconfig : Text
reason_invalid_kubeconfig = codes "InvalidKubeconfig"

abbrev pub reason_connection_failed : Text
reason_connection_failed = codes "ConnectionFailed"

abbrev pub default_kubeconfig_key : Text
default_kubeconfig_key = codes "kubeconfig"

-- The key of the kubeconfig in its Secret, with the default.
abbrev pub kubeconfig_key : KubeconfigSecretRef → Text
kubeconfig_key ref = if is_empty ref.key then default_kubeconfig_key else ref.key

-- `!ok || len(kubeconfigBytes) == 0`, and the bytes if not
abbrev pub nonempty : Option Bytes → Option Bytes
nonempty none = none
nonempty (some bytes) = if is_empty bytes then none else some bytes

module _ (env : Env) where
  open env use {quote, set_status_condition}

  -- `markUnavailable`
  unfoldable pub mark_unavailable : TargetCluster → Text → Text → M TargetCluster
  mark_unavailable tc reason message log =
      return
        (record tc {
          status = record tc.status {
            ready = false;
            observed_generation = tc.meta.generation;
            conditions =
                set_status_condition log tc.status.conditions
                  (available_condition condition_false tc.meta.generation reason message);
          };
        })
        log

  -- `writeStatus`
  unfoldable pub write_status : TargetCluster → M (Result (Unit {0}))
  write_status tc =
      call (λ log. env.update_target_cluster_status log tc) (updated_target_cluster_status tc)

  -- `r.markUnavailable(&tc, …); return ctrl.Result{RequeueAfter: t}, r.writeStatus(ctx, &tc)`
  unfoldable pub unavailable : TargetCluster → Text → Text → ℕ → M Outcome
  unfolding mark_unavailable write_status
  unavailable tc reason message t = body do
    tc' ← perform (mark_unavailable tc reason message)
    written ← perform (write_status tc')
    perform (return (after_write t written))

  -- The status of a cluster that answered, from its version and the number of its nodes.
  unfoldable pub mark_available : TargetCluster → Text → ℕ → M TargetCluster
  mark_available tc version nodes log =
      return
        (record tc {
          status = record {
            ready = true;
            kubernetes_version = version;
            node_count = int32 nodes;
            observed_generation = tc.meta.generation;
            conditions = set_status_condition log tc.status.conditions (
                available_condition condition_true tc.meta.generation reason_available (
                  codes "target cluster reachable ("
                  ++ (decimal nodes ++ (codes " nodes, " ++ (version ++ codes ")")))));
          };
        })
        log

  -- The end of `Reconcile`, from `tc.Status.Ready = true` on.
  unfoldable pub available : TargetCluster → Text → ℕ → M Outcome
  unfolding mark_available write_status
  available tc version nodes = body do
    tc' ← perform (mark_available tc version nodes)
    attempt (write_status tc') (λ e. return (failed e))
    perform (return (record { requeue_after = requeue_after_success; error = none }))

  -- `Reconcile`, from the kubeconfig's bytes on.
  unfoldable pub probe : TargetCluster → Bytes → M Outcome
  probe tc kubeconfig = body do
    rest_config ← attempt_pure (env.rest_config_from_kubeconfig kubeconfig) λ e.
        unavailable tc reason_invalid_kubeconfig (codes "kubeconfig is invalid: " ++ e.message) 0
    clientset ←
        attempt_pure (env.new_clientset (record rest_config { timeout = probe_timeout })) λ e.
          unavailable tc reason_invalid_kubeconfig (codes "cannot build client: " ++ e.message) 0
    version ←
        attempt (call (λ log. env.server_version log clientset) (got_server_version clientset)) λ e.
          unavailable tc reason_connection_failed (codes "ServerVersion: " ++ e.message)
            requeue_after_error
    nodes ← attempt (call (λ log. env.list_nodes log clientset) (listed_nodes clientset)) λ e.
        unavailable tc reason_connection_failed (codes "listing Nodes: " ++ e.message)
          requeue_after_error
    perform (available tc version (length nodes))

  -- What follows when the kubeconfig's Secret could not be read.
  unfoldable pub lookup_failed : TargetCluster → Text → Error → M Outcome
  lookup_failed tc secret_name e =
      if is_not_found e
      then unavailable tc reason_missing_secret
          (codes "Secret "
            ++ (quote secret_name ++ (codes " not found in namespace " ++ quote tc.meta.namespace)))
          requeue_after_error
      else return (failed (wrap (codes "fetching kubeconfig Secret") e))

  -- `Reconcile` behind the lookup of the resource.
  unfoldable pub reconcile_found : TargetCluster → M Outcome
  reconcile_found tc = body do
    exit_if (not (text_eq tc.spec.type target_cluster_type_byo)) (
        unavailable tc reason_unsupported_type
          (codes "provisioning type "
            ++ (quote tc.spec.type ++ codes " is not implemented in v1alpha1"))
          0)
    byo ← require tc.spec.byo (
        unavailable tc reason_missing_byo_spec
          (codes "spec.byo must be set when spec.type is \"byo\"") 0)
    let secret_ref = byo.kubeconfig_secret_ref
    let key = kubeconfig_key secret_ref
    let name : NamespacedName = record { namespace = tc.meta.namespace; name = secret_ref.name }
    secret ←
        attempt (call (λ log. env.get_secret log name) (got_secret name))
          λ e. lookup_failed tc secret_ref.name e
    kubeconfig ← require (nonempty (secret_value secret key)) (
        unavailable tc reason_invalid_kubeconfig
          (codes "Secret "
            ++ (quote secret_ref.name ++ (codes " has no data at key " ++ quote key)))
          requeue_after_error)
    perform (probe tc kubeconfig)

  -- `Reconcile`
  unfoldable pub reconcile : NamespacedName → M Outcome
  reconcile req = body do
    tc ←
        attempt (call (λ log. env.get_target_cluster log req) (got_target_cluster req))
          λ e. return (if is_not_found e then done else failed e)
    perform (reconcile_found tc)
