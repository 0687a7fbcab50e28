-- ===== src/Tests/ComponentRuns.antt =====
-- Runs of the components that a ClusterPrerequisites asks for.
use rancher_operator.Common.{
  ◌≡◌, ◌↔◌, ◌⊎◌, refl, Option, none, some, [], ok, err, Error, true, ◌++◌, wrap,
}
use rancher_operator.Common.Text.{Text, codes, text_eq, contains, has_prefix}
use rancher_operator.Api.Meta.{secret_value, lookup}
use rancher_operator.Api.ClusterPrerequisites.{
  CertManagerComponent, IngressComponent, LoadBalancerComponent, load_balancer_type_cloud,
  load_balancer_type_none, ingress_type_traefik, ingress_bundled_mode_install,
}
use rancher_operator.Runtime.{Env, Log}
use rancher_operator.Helm.Getter.{KubeconfigRestClientGetter, new_getter, to_rest_config}
use rancher_operator.Helm.PullSecret.{
  dockerconfigjson, ensure_namespace, create_if_missing, ensure_secret, ensure_image_pull_secret,
}
use rancher_operator.Helm.Installer.{
  OciCredentials, log_in, as_chart_v2, as_release_v1, is_release_not_found, load_chart_from_oci,
  run_install, install_or_upgrade,
}
use rancher_operator.Controller.Components.{
  pending, message_missing_creds, cert_manager_package, installed_version, has_bundled_traefik,
  load_balancer_component_status, is_component_done, install_component, reconcile_cert_manager,
  reconcile_ingress,
}
use rancher_operator.Controller.Components.Laws.{
  IsInstalled, install_component-IsInstalled, has_bundled_traefik_iff,
}
use rancher_operator.Controller.Components.Completion.{
  IngressDone, load_balancer_done_iff, reconcile_ingress_done,
}
use rancher_operator.Controller.ClusterPrerequisites.{load_application_collection_credentials}
use rancher_operator.Controller.ClusterPrerequisites.Credentials.{
  reconcile_cert_manager_of_load_error,
}
use rancher_operator.Tests.World.{gone, world, fresh_prerequisites}

abbrev getter : KubeconfigRestClientGetter
getter = record { parsed = ok (record { kubeconfig = codes "k" }) }

abbrev creds : OciCredentials
creds = record { username = codes "u"; password = codes "p" }

abbrev nobody : OciCredentials
nobody = record { username = []; password = codes "p" }

abbrev cert_manager : CertManagerComponent
cert_manager = record { enabled = true; version = [] }

-- The ingress, to be installed whatever the cluster brings along.
abbrev ingress : IngressComponent
ingress = record {
  enabled = true;
  type = ingress_type_traefik;
  use_bundled = ingress_bundled_mode_install;
  version = codes "37.1.0";
}

install_component_ends :
    install_component world getter cert_manager_package (codes "v1.18.0") creds [] ≡ (
      (install_component world getter cert_manager_package (codes "v1.18.0") creds []).0,
      (install_component world getter cert_manager_package (codes "v1.18.0") creds []).1,
    )
install_component_ends = refl

install_component_is_done :
    (install_component world getter cert_manager_package (codes "v1.18.0") creds []).0.ready ≡ true
unfolding reconcile_cert_manager reconcile_ingress install_component ensure_image_pull_secret
    dockerconfigjson ensure_namespace ensure_secret create_if_missing new_getter to_rest_config
    load_chart_from_oci log_in as_chart_v2 install_or_upgrade run_install is_release_not_found
    as_release_v1 installed_version has_bundled_traefik is_component_done text_eq contains
    has_prefix secret_value lookup
install_component_is_done = refl

install_component-IsInstalled_example :
    IsInstalled world getter cert_manager_package (codes "v1.18.0") creds [] (
      (install_component world getter cert_manager_package (codes "v1.18.0") creds []).0,
      (install_component world getter cert_manager_package (codes "v1.18.0") creds []).1,
    )
install_component-IsInstalled_example =
    install_component-IsInstalled world getter cert_manager_package (codes "v1.18.0") creds [] _ _
      install_component_ends install_component_is_done

reconcile_ingress_ends :
    reconcile_ingress world getter (some ingress) (codes "v1.31.4+k3s1") creds [] ≡ (
      (reconcile_ingress world getter (some ingress) (codes "v1.31.4+k3s1") creds []).0,
      (reconcile_ingress world getter (some ingress) (codes "v1.31.4+k3s1") creds []).1,
    )
reconcile_ingress_ends = refl

reconcile_ingress_is_done :
    is_component_done
      (reconcile_ingress world getter (some ingress) (codes "v1.31.4+k3s1") creds []).0
    ≡ true
unfolding reconcile_cert_manager reconcile_ingress install_component ensure_image_pull_secret
    dockerconfigjson ensure_namespace ensure_secret create_if_missing new_getter to_rest_config
    load_chart_from_oci log_in as_chart_v2 install_or_upgrade run_install is_release_not_found
    as_release_v1 installed_version has_bundled_traefik is_component_done text_eq contains
    has_prefix secret_value lookup
reconcile_ingress_is_done = refl

reconcile_ingress_done_example :
    IngressDone world getter (some ingress) (codes "v1.31.4+k3s1") creds [] (
      (reconcile_ingress world getter (some ingress) (codes "v1.31.4+k3s1") creds []).0,
      (reconcile_ingress world getter (some ingress) (codes "v1.31.4+k3s1") creds []).1,
    )
reconcile_ingress_done_example =
    reconcile_ingress_done world getter (some ingress) (codes "v1.31.4+k3s1") creds [] _ _
      reconcile_ingress_ends reconcile_ingress_is_done

abbrev load_balancer : LoadBalancerComponent
load_balancer = record { type = load_balancer_type_cloud; metallb = none }

load_balancer_done_iff_example :
    (is_component_done (load_balancer_component_status (some load_balancer)) ≡ true) ↔ (
      (◌≡◌ {A = Option LoadBalancerComponent} (some load_balancer) none)
      ⊎ ((spec : LoadBalancerComponent) × (◌≡◌ {A = Option LoadBalancerComponent}
            (some load_balancer)
            (some spec))
          × ((spec.type ≡ load_balancer_type_none) ⊎ (spec.type ≡ load_balancer_type_cloud))))
load_balancer_done_iff_example = load_balancer_done_iff (some load_balancer)

has_bundled_traefik_iff_example : (has_bundled_traefik (codes "v1+k3s1") ≡ true) ↔ (
    ((left right : Text) × (codes "v1+k3s1" ≡ left ++ codes "+k3s" ++ right))
    ⊎ ((left right : Text) × (codes "v1+k3s1" ≡ left ++ codes "+rke2" ++ right)))
has_bundled_traefik_iff_example = has_bundled_traefik_iff (codes "v1+k3s1")

-- The world whose credentials Secret is missing.
abbrev poor_world : Env
poor_world = record world { get_secret = λ log name. err gone }

abbrev load : (OciCredentials × Option Error) × Log
load = load_application_collection_credentials poor_world fresh_prerequisites []

abbrev load_error : Error
load_error = wrap (codes "reading SUSE Application Collection credentials Secret \"ac\"") gone

load_fails : load ≡ ((load.0.0, some load_error), load.1)
unfolding load_application_collection_credentials
load_fails = refl

reconcile_cert_manager_of_load_error_example :
    reconcile_cert_manager poor_world getter (some cert_manager) load.0.0 load.1
    ≡ (pending message_missing_creds, load.1)
reconcile_cert_manager_of_load_error_example =
    reconcile_cert_manager_of_load_error poor_world fresh_prerequisites [] load.1 load.0.0
      load_error getter cert_manager load_fails refl
