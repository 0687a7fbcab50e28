-- ===== src/Tests/PrerequisitesRuns.antt =====
-- Runs of the ClusterPrerequisites reconciler and of its components.
use rancher_operator.Controller.Permissions.{covers_all}
use rancher_operator.Controller.Permissions.Prerequisites.{
  needed_rules, reconcile-covered_prerequisites,
}
use rancher_operator.Common.{◌≡◌, ◌⊎◌, refl, [], ◌∷◌, ok, err, true, length}
use rancher_operator.Common.Text.{text_eq, contains, has_prefix}
use rancher_operator.Api.Meta.{secret_value, lookup}
use rancher_operator.Api.ClusterPrerequisites.{ClusterPrerequisites}
use rancher_operator.Runtime.{
  Env, Log, remote, got_cluster_prerequisites, updated_cluster_prerequisites_status,
}
use rancher_operator.Helm.Getter.{new_getter, to_rest_config}
use rancher_operator.Helm.PullSecret.{
  dockerconfigjson, ensure_namespace, create_if_missing, ensure_secret, ensure_image_pull_secret,
}
use rancher_operator.Helm.Installer.{
  log_in, as_chart_v2, as_release_v1, is_release_not_found, load_chart_from_oci, run_install,
  install_or_upgrade,
}
use rancher_operator.Controller.Components.{
  installed_version, has_bundled_traefik, load_balancer_component_status, is_component_done,
  install_component, reconcile_cert_manager, reconcile_ingress,
}
use rancher_operator.Controller.ClusterPrerequisites.{
  are_all_done, components_condition, mark_components, write_prereq_status, report,
  load_application_collection_credentials, resolve_target_kubeconfig, reconcile_components,
  reconcile_found, reconcile,
}
use rancher_operator.Controller.ClusterPrerequisites.Status.{Concludes, reconcile-Concludes}
use rancher_operator.Controller.ClusterPrerequisites.Readiness.{
  Completion, IsOpen, reconcile_ready-Completion,
}
use rancher_operator.Controller.ClusterPrerequisites.Isolation.{reconcile-IsOpen}
use rancher_operator.Controller.ClusterPrerequisites.History.{
  Reachable, IsCoherent, Reachable-IsCoherent,
}
use rancher_operator.Controller.ClusterPrerequisites.Retry.{
  IsScheduled, reconcile_found-IsScheduled,
}
use rancher_operator.Tests.World.{
  gone, world, world-SetsConditions, cluster_name, fresh_prerequisites,
}

abbrev before : Log
before = got_cluster_prerequisites cluster_name (ok fresh_prerequisites) ∷ []

reconcile-Concludes_example : Concludes fresh_prerequisites [] (reconcile world cluster_name [])
reconcile-Concludes_example =
    reconcile-Concludes world world-SetsConditions fresh_prerequisites cluster_name [] refl

-- The object that the last call wrote, and the calls before it.
abbrev last_write : Log → ClusterPrerequisites
last_write (updated_cluster_prerequisites_status cp r ∷ log) = cp
last_write _ = fresh_prerequisites

abbrev earlier : Log → Log
earlier [] = []
earlier (e ∷ log) = log

abbrev calls : Log
calls = (reconcile world cluster_name []).1

run_ends : calls ≡ updated_cluster_prerequisites_status (last_write calls) (ok tt) ∷ earlier calls
unfolding reconcile reconcile_found resolve_target_kubeconfig reconcile_components report
    mark_components write_prereq_status are_all_done components_condition
    load_application_collection_credentials reconcile_cert_manager reconcile_ingress
    install_component ensure_image_pull_secret dockerconfigjson ensure_namespace ensure_secret
    create_if_missing new_getter to_rest_config load_chart_from_oci log_in as_chart_v2
    install_or_upgrade run_install is_release_not_found as_release_v1 installed_version
    has_bundled_traefik load_balancer_component_status is_component_done text_eq contains has_prefix
    secret_value lookup
run_ends = refl

run_is_ready : (last_write calls).status.ready ≡ true
unfolding reconcile reconcile_found resolve_target_kubeconfig reconcile_components report
    mark_components write_prereq_status are_all_done components_condition
    load_application_collection_credentials reconcile_cert_manager reconcile_ingress
    install_component ensure_image_pull_secret dockerconfigjson ensure_namespace ensure_secret
    create_if_missing new_getter to_rest_config load_chart_from_oci log_in as_chart_v2
    install_or_upgrade run_install is_release_not_found as_release_v1 installed_version
    has_bundled_traefik load_balancer_component_status is_component_done text_eq contains has_prefix
    secret_value lookup
run_is_ready = refl

-- cert-manager: a namespace and a Secret, a login and a pull, a lookup and an installation.
calls_made : length (remote calls) ≡ 8
unfolding reconcile reconcile_found resolve_target_kubeconfig reconcile_components report
    mark_components write_prereq_status are_all_done components_condition
    load_application_collection_credentials reconcile_cert_manager reconcile_ingress
    install_component ensure_image_pull_secret dockerconfigjson ensure_namespace ensure_secret
    create_if_missing new_getter to_rest_config load_chart_from_oci log_in as_chart_v2
    install_or_upgrade run_install is_release_not_found as_release_v1 installed_version
    has_bundled_traefik load_balancer_component_status is_component_done text_eq contains has_prefix
    secret_value lookup
calls_made = refl

reconcile_ready-Completion_example :
    Completion world fresh_prerequisites (last_write calls) before (earlier calls)
reconcile_ready-Completion_example =
    reconcile_ready-Completion world fresh_prerequisites cluster_name (last_write calls) []
      (earlier calls) (ok tt) refl run_ends run_is_ready

reconcile-IsOpen_example :
    (remote (reconcile world cluster_name []).1 ≡ remote [])
    ⊎ IsOpen world fresh_prerequisites before
reconcile-IsOpen_example = reconcile-IsOpen world fresh_prerequisites cluster_name [] refl

Reachable-IsCoherent_example : IsCoherent (last_write calls)
Reachable-IsCoherent_example = Reachable-IsCoherent (last_write calls) (
    Reachable.reconciled world world-SetsConditions cluster_name fresh_prerequisites
      (last_write calls) (earlier calls) refl run_ends
      (Reachable.created fresh_prerequisites refl refl refl))

reconcile_found-IsScheduled_example : IsScheduled (reconcile_found world fresh_prerequisites []).0
reconcile_found-IsScheduled_example = reconcile_found-IsScheduled world fresh_prerequisites []

-- The world without the resource.
abbrev empty_world : Env
empty_world = record world { get_cluster_prerequisites = λ log name. err gone }

reconcile-covered_prerequisites_example :
    covers_all needed_rules (reconcile world cluster_name []).1 ≡ true
reconcile-covered_prerequisites_example = reconcile-covered_prerequisites world cluster_name []
