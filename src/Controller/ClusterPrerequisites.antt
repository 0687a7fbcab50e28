-- ===== src/Controller/ClusterPrerequisites.antt =====
-- internal/controller/clusterprerequisites_controller.go, without the components
pub mod Status
pub mod Readiness
pub mod Isolation
pub mod Sources
pub mod Rollout
pub mod Repetition
pub mod Pipeline
pub mod Credentials
pub mod Retry
pub mod History
pub mod Defaults
use rancher_operator.Common.{
  ℕ, Bool, false, not, ◌&&◌, ◌||◌, Option, none, some, [], ◌++◌, get_or, Error, Result, ok, err,
  new_error, wrap, is_not_found, if◌then◌else◌,
}
use rancher_operator.Common.Text.{Text, Bytes, codes, text_eq, is_empty}
use rancher_operator.Api.Meta.{
  NamespacedName, Condition, condition_true, condition_false, secret_value,
}
use rancher_operator.Api.TargetCluster.{TargetCluster, target_cluster_type_byo}
use rancher_operator.Api.ClusterPrerequisites.{ClusterPrerequisites, ComponentStatuses}
use rancher_operator.Runtime.{
  Env, M, return, call, ◌>>=◌, ◌>>◌, attempt, require, exit_if, perform, body, got_target_cluster,
  got_cluster_prerequisites, got_secret, updated_cluster_prerequisites_status,
}
use rancher_operator.Helm.Getter.{new_getter}
use rancher_operator.Helm.Installer.{OciCredentials}
use rancher_operator.Controller.Outcome.{
  Outcome, requeue_after_success, requeue_after_error, done, failed, after_write,
}
use rancher_operator.Controller.Conditions.{available_condition}
use rancher_operator.Controller.Components.{
  reconcile_cert_manager, reconcile_ingress, load_balancer_component_status, is_component_done,
}
use rancher_operator.Controller.TargetCluster.{kubeconfig_key, nonempty}

abbrev pub reason_available : Text
reason_available = codes "AllComponentsReady"

abbrev pub reason_components_pending : Text
reason_components_pending = codes "ComponentsNotReady"

abbrev pub reason_missing_target : Text
reason_missing_target = codes "MissingTargetCluster"

abbrev pub reason_target_not_ready : Text
reason_target_not_ready = codes "TargetClusterNotReady"

abbrev pub reason_kubeconfig_missing : Text
reason_kubeconfig_missing = codes "MissingKubeconfig"

abbrev pub no_credentials : OciCredentials
no_credentials = record { username = []; password = [] }

-- The key of the resource that `spec.targetClusterRef` names.
abbrev pub target_key : ClusterPrerequisites → NamespacedName
target_key cp = record { namespace = cp.meta.namespace; name = cp.spec.target_cluster_ref.name }

-- `allReady`
unfoldable pub are_all_done : ComponentStatuses → Bool
are_all_done components =
    is_component_done components.cert_manager
    && (is_component_done components.ingress && is_component_done components.load_balancer)

-- `cond`, from `allReady` and the generation
unfoldable pub components_condition : Bool → ℕ → Condition
components_condition all_ready generation =
    if all_ready
    then available_condition condition_true generation reason_available
        (codes "all requested components are installed and healthy")
    else available_condition condition_false generation reason_components_pending
        (codes "one or more components are not yet ready")

module _ (env : Env) where
  open env use {quote, set_status_condition}

  -- `markUnavailable`
  unfoldable pub mark_unavailable : ClusterPrerequisites → Text → Text → M ClusterPrerequisites
  mark_unavailable cp reason message log =
      return
        (record cp {
          status = record cp.status {
            ready = false;
            observed_generation = cp.meta.generation;
            conditions =
                set_status_condition log cp.status.conditions
                  (available_condition condition_false cp.meta.generation reason message);
          };
        })
        log

  -- `writePrereqStatus`
  unfoldable pub write_prereq_status : ClusterPrerequisites → M (Result (Unit {0}))
  write_prereq_status cp =
      call (λ log. env.update_cluster_prerequisites_status log cp)
        (updated_cluster_prerequisites_status cp)

  -- `r.markUnavailable(&cp, …)` and the return with `r.writePrereqStatus(ctx, &cp)`
  unfoldable pub unavailable : ClusterPrerequisites → Text → Text → M Outcome
  unfolding mark_unavailable write_prereq_status
  unavailable cp reason message = body do
    cp' ← perform (mark_unavailable cp reason message)
    written ← perform (write_prereq_status cp')
    perform (return (after_write requeue_after_error written))

  -- `loadApplicationCollectionCredentials`: the credentials and the error.
  unfoldable pub load_application_collection_credentials :
      ClusterPrerequisites → M (OciCredentials × Option Error)
  load_application_collection_credentials cp = body do
    ref ←
        require cp.spec.application_collection_credentials_secret_ref
          (return (no_credentials, none))
    let key : NamespacedName = record { namespace = cp.meta.namespace; name = ref.name }
    secret ← attempt (call (λ log. env.get_secret log key) (got_secret key)) λ e. return (
      no_credentials,
      some (
          wrap (codes "reading SUSE Application Collection credentials Secret " ++ quote ref.name)
            e),
    )
    let username = get_or (secret_value secret (codes "username")) []
    let password = get_or (secret_value secret (codes "password")) []
    exit_if (is_empty username || is_empty password) (
        return (
          no_credentials,
          some (
              new_error (
                codes
                  "SUSE Application Collection credentials Secret must contain \"username\" and \"password\" keys")),
        ))
    perform (return (record { username = username; password = password }, none))

  -- `resolveTargetKubeconfig`
  unfoldable pub resolve_target_kubeconfig : TargetCluster → M (Result Bytes)
  resolve_target_kubeconfig tc = body do
    let wrong_mode =
        new_error (codes "TargetCluster " ++ (quote tc.meta.name ++ codes " is not in byo mode"))
    exit_if (not (text_eq tc.spec.type target_cluster_type_byo)) (return (err wrong_mode))
    byo ← require tc.spec.byo (return (err wrong_mode))
    let ref = byo.kubeconfig_secret_ref
    let key = kubeconfig_key ref
    let name : NamespacedName = record { namespace = tc.meta.namespace; name = ref.name }
    secret ←
        attempt (call (λ log. env.get_secret log name) (got_secret name))
          λ e. return (err (wrap (codes "reading kubeconfig Secret " ++ quote ref.name) e))
    bytes ← require (nonempty (secret_value secret key)) (
        return (
          err (
            new_error (
              codes "secret " ++ (quote ref.name ++ (codes " has no data at key " ++ quote key))))))
    perform (return (ok bytes))

  -- The status of a run that looked at the components.
  unfoldable pub mark_components : ClusterPrerequisites → ComponentStatuses → M ClusterPrerequisites
  mark_components cp components log =
      return
        (record cp {
          status = record {
            ready = are_all_done components;
            components = components;
            observed_generation = cp.meta.generation;
            conditions =
                set_status_condition log cp.status.conditions
                  (components_condition (are_all_done components) cp.meta.generation);
          };
        })
        log

  -- The end of `Reconcile`, behind the components.
  unfoldable pub report : ClusterPrerequisites → ComponentStatuses → M Outcome
  unfolding mark_components write_prereq_status
  report cp components = body do
    cp' ← perform (mark_components cp components)
    attempt (write_prereq_status cp') (λ e. return (failed e))
    perform (return (record { requeue_after = requeue_after_success; error = none }))

  -- `Reconcile`, from the target's kubeconfig on.
  unfoldable pub reconcile_components : ClusterPrerequisites → TargetCluster → Bytes → M Outcome
  reconcile_components cp tc kubeconfig = body do
    let getter = new_getter env kubeconfig
    loaded ← perform (load_application_collection_credentials cp)
    let creds = loaded.0
    cert_manager ← perform (reconcile_cert_manager env getter cp.spec.cert_manager creds)
    ingress ←
        perform (reconcile_ingress env getter cp.spec.ingress tc.status.kubernetes_version creds)
    perform (
        report cp (record {
          cert_manager = cert_manager;
          ingress = ingress;
          load_balancer = load_balancer_component_status cp.spec.load_balancer;
        }))

  -- What follows when the TargetCluster could not be read.
  unfoldable pub target_lost : ClusterPrerequisites → Error → M Outcome
  target_lost cp e =
      if is_not_found e
      then unavailable cp reason_missing_target (
          codes "TargetCluster "
          ++ (quote cp.spec.target_cluster_ref.name
              ++ (codes " not found in namespace " ++ quote cp.meta.namespace)))
      else return (failed (wrap (codes "fetching TargetCluster") e))

  -- `Reconcile` behind the lookup of the resource.
  unfoldable pub reconcile_found : ClusterPrerequisites → M Outcome
  reconcile_found cp = body do
    tc ←
        attempt
          (call (λ log. env.get_target_cluster log (target_key cp))
            (got_target_cluster (target_key cp)))
          (target_lost cp)
    exit_if (not tc.status.ready) (
        unavailable cp reason_target_not_ready
          (codes "TargetCluster " ++ (quote tc.meta.name ++ codes " is not Ready")))
    kubeconfig ←
        attempt (resolve_target_kubeconfig tc)
          λ e. unavailable cp reason_kubeconfig_missing e.message
    perform (reconcile_components cp tc kubeconfig)

  -- `Reconcile`
  unfoldable pub reconcile : NamespacedName → M Outcome
  reconcile req = body do
    cp ←
        attempt
          (call (λ log. env.get_cluster_prerequisites log req) (got_cluster_prerequisites req))
          λ e. return (if is_not_found e then done else failed e)
    perform (reconcile_found cp)
