-- ===== src/Controller/Components.antt =====
-- The components of internal/controller/clusterprerequisites_controller.go: cert-manager, the
-- ingress controller and the load balancer.
pub mod Laws
pub mod Completion
pub mod Deployment
pub mod Rollout
pub mod Refusal
use rancher_operator.Common.{
  Bool, true, false, not, ◌&&◌, ◌||◌, Option, none, some, [], ◌++◌, if◌then◌else◌,
}
use rancher_operator.Common.Text.{Text, codes, text_eq, is_empty, contains}
use rancher_operator.Api.Meta.{NamespacedName}
use rancher_operator.Api.ClusterPrerequisites.{
  CertManagerComponent, IngressComponent, LoadBalancerComponent, ComponentStatus,
  IngressBundledMode, ingress_bundled_mode_auto, ingress_bundled_mode_use, load_balancer_type_cloud,
  load_balancer_type_none,
}
use rancher_operator.Runtime.{
  Env, M, return, ◌>>=◌, ◌>>◌, attempt, require, exit_if, perform, body, Chart, Release, Fields,
  Values, Value,
}
use rancher_operator.Helm.Getter.{KubeconfigRestClientGetter}
use rancher_operator.Helm.PullSecret.{ensure_image_pull_secret}
use rancher_operator.Helm.Installer.{
  OciCredentials, InstallOrUpgradeOptions, load_chart_from_oci, install_or_upgrade,
}

abbrev pub message_component_disabled : Text
message_component_disabled = codes "component disabled by spec"

abbrev pub message_component_not_set : Text
message_component_not_set = codes "component not requested in spec"

abbrev pub message_load_balancer_cloud : Text
message_load_balancer_cloud = codes "no installation required when type is cloud"

abbrev pub message_not_implemented : Text
message_not_implemented = codes "installer not yet implemented in this build"

abbrev pub message_missing_creds : Text
message_missing_creds =
    codes
      "spec.applicationCollectionCredentialsSecretRef is required to install this component from the SUSE Application Collection"

abbrev pub application_collection_registry : Text
application_collection_registry = codes "dp.apps.rancher.io"

abbrev pub application_collection_image_pull_secret : Text
application_collection_image_pull_secret = codes "application-collection"

-- What the two installers differ in: the constants of the chart and its release, the values, and
-- the message of success.
pub record Package : Type 0 where
  pub chart_ref : Text
  pub release_name : Text
  pub namespace : Text
  pub default_version : Text
  pub values : Fields
  pub message : Text

-- `"global": {"imagePullSecrets": [application-collection]}`, before further values
abbrev pub global_values : Fields → Fields
global_values = Fields.field (codes "global") (
    Value.object (
      Fields.field (codes "imagePullSecrets")
        (Value.list (Values.cons (Value.text application_collection_image_pull_secret) Values.nil))
        Fields.end))

abbrev pub cert_manager_package : Package
cert_manager_package = record {
  chart_ref = codes "oci://dp.apps.rancher.io/charts/cert-manager";
  release_name = codes "cert-manager";
  namespace = codes "cert-manager";
  default_version = codes "v1.18.2";
  values = global_values (
      Fields.field (codes "crds")
        (Value.object (Fields.field (codes "enabled") (Value.boolean true) Fields.end)) Fields.end);
  message = codes "cert-manager installed from the SUSE Application Collection";
}

abbrev pub traefik_package : Package
traefik_package = record {
  chart_ref = codes "oci://dp.apps.rancher.io/charts/traefik";
  release_name = codes "traefik";
  namespace = codes "traefik";
  default_version = codes "37.0.0";
  values = global_values Fields.end;
  message = codes "Traefik installed from the SUSE Application Collection";
}

-- `ComponentStatus{Skipped: true, Message: m}`
abbrev pub skipping : Text → ComponentStatus
skipping message = record {
  ready = false;
  skipped = true;
  installed_version = [];
  message = message;
}

-- `ComponentStatus{Message: m}`
abbrev pub pending : Text → ComponentStatus
pending message = record {
  ready = false;
  skipped = false;
  installed_version = [];
  message = message;
}

-- The `helm.InstallOrUpgradeOptions` of a component; no time limit is set.
abbrev pub release_options : Package → Option Chart → InstallOrUpgradeOptions
release_options bundle chart = record {
  release_name = bundle.release_name;
  namespace = bundle.namespace;
  create_namespace = true;
  chart = chart;
  values = bundle.values;
  timeout = 0;
}

-- The name of the image-pull Secret of a component.
abbrev pub pull_secret_name : Package → NamespacedName
pull_secret_name bundle = record {
  namespace = bundle.namespace;
  name = application_collection_image_pull_secret;
}

-- `version`, or the default where it is empty
abbrev pub version_of : Package → Text → Text
version_of bundle version = if is_empty version then bundle.default_version else version

-- The version of the release's chart where it states one, else the version asked for.
unfoldable pub installed_version : Text → Option Release → Text
installed_version version none = version
installed_version version (some release) = elim release.chart [
  | none ↦ version
  | some chart ↦ elim chart.metadata [
    | none ↦ version
    | some metadata ↦ if is_empty metadata.version then version else metadata.version
  ]
]

-- `hasBundledTraefik`
unfoldable pub has_bundled_traefik : Text → Bool
has_bundled_traefik k8s_version =
    contains k8s_version (codes "+k3s") || contains k8s_version (codes "+rke2")

-- `loadBalancerComponentStatus`
unfoldable pub load_balancer_component_status : Option LoadBalancerComponent → ComponentStatus
load_balancer_component_status none = skipping message_component_not_set
load_balancer_component_status (some spec) =
    if text_eq spec.type load_balancer_type_none
    then skipping (codes "type is none; user-provided load balancer")
    else if text_eq spec.type load_balancer_type_cloud
    then record (pending message_load_balancer_cloud) { ready = true }
    else pending message_not_implemented

-- `isComponentDone`
unfoldable pub is_component_done : ComponentStatus → Bool
is_component_done s = s.ready || s.skipped

module _ (env : Env) where
  open env use {quote}

  -- The body that `reconcileCertManager` and `reconcileIngress` share, from the test of the
  -- credentials on.
  unfoldable pub install_component :
      KubeconfigRestClientGetter → Package → Text → OciCredentials → M ComponentStatus
  install_component getter bundle spec_version creds = body do
    exit_if (is_empty creds.username || is_empty creds.password)
        (return (pending message_missing_creds))
    let version = version_of bundle spec_version
    attempt
        (ensure_image_pull_secret env getter (pull_secret_name bundle)
          application_collection_registry creds.username creds.password)
        (λ e. return (pending (codes "image-pull Secret: " ++ e.message)))
    chart ←
        attempt (load_chart_from_oci env bundle.chart_ref version creds)
          λ e. return (pending (codes "loading chart: " ++ e.message))
    release ←
        attempt
          (install_or_upgrade env getter (record {
            release_name = bundle.release_name;
            namespace = bundle.namespace;
            create_namespace = true;
            chart = chart;
            values = bundle.values;
            timeout = 0;
          }))
          (λ e. return (pending (codes "helm: " ++ e.message)))
    perform (
        return (record {
          ready = true;
          skipped = false;
          installed_version = installed_version version release;
          message = bundle.message;
        }))

  -- `reconcileCertManager`
  unfoldable pub reconcile_cert_manager :
      KubeconfigRestClientGetter → Option CertManagerComponent → OciCredentials → M ComponentStatus
  reconcile_cert_manager getter given creds = body do
    spec ← require given (return (skipping message_component_not_set))
    exit_if (not spec.enabled) (return (skipping message_component_disabled))
    perform (install_component getter cert_manager_package spec.version creds)

  -- `reconcileIngress`. A mode that is none of the three goes on to the installation.
  unfoldable pub reconcile_ingress :
      KubeconfigRestClientGetter
      → Option IngressComponent
      → Text
      → OciCredentials
      → M ComponentStatus
  reconcile_ingress getter given k8s_version creds = body do
    spec ← require given (return (skipping message_component_not_set))
    exit_if (not spec.enabled) (return (skipping message_component_disabled))
    let mode : IngressBundledMode =
        if is_empty spec.use_bundled then ingress_bundled_mode_auto else spec.use_bundled
    exit_if (text_eq mode ingress_bundled_mode_use) (
        return
          (record (skipping
            (codes "using the cluster-bundled ingress controller (spec.ingress.useBundled=use)")) {
              ready = true;
            }))
    exit_if (text_eq mode ingress_bundled_mode_auto && has_bundled_traefik k8s_version) (
        return (record {
          ready = true;
          skipped = true;
          installed_version = k8s_version;
          message =
              codes "using bundled Traefik (Kubernetes version "
              ++ (quote k8s_version ++ codes " matches K3s/RKE2)");
        }))
    perform (install_component getter traefik_package spec.version creds)
