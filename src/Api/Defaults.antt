-- ===== src/Api/Defaults.antt =====
-- The defaults in the `+kubebuilder:default` markers of api/v1alpha1, which the API server fills in for
-- a field that is left out, where a reconciler reads the field.
use rancher_operator.Common.{Bool, true, false, Option, [], get_or, none, some, if◌then◌else◌}
use rancher_operator.Common.Text.{Text, codes, is_empty}
use rancher_operator.Api.TargetCluster.{KubeconfigSecretRef, TargetCluster}
use rancher_operator.Api.ClusterPrerequisites.{
  IngressComponent, IngressType, IngressBundledMode, ingress_type_traefik,
  ingress_bundled_mode_auto,
}

abbrev default : Text → Text → Text
default value s = if is_empty s then value else s

unfoldable pub default_kubeconfig_secret_ref : KubeconfigSecretRef → KubeconfigSecretRef
default_kubeconfig_secret_ref ref = record ref { key = default (codes "kubeconfig") ref.key }

-- In the BYO spec, if there is one.
unfoldable pub default_target_cluster : TargetCluster → TargetCluster
unfolding default_kubeconfig_secret_ref
default_target_cluster tc = record tc {
  spec = record tc.spec {
    byo = elim tc.spec.byo [
      | none ↦ none
      | some byo ↦ some (record {
        kubeconfig_secret_ref = default_kubeconfig_secret_ref byo.kubeconfig_secret_ref;
      })
    ];
  };
}

-- An ingress as it is submitted, where a field may be left out.
pub record SubmittedIngress : Type 0 where
  pub enabled : Option Bool
  pub type : Option IngressType
  pub use_bundled : Option IngressBundledMode
  pub version : Option Text

-- The struct that is decoded from it with no defaults filled in: the zero values of Go.
unfoldable pub decoded_ingress_component : SubmittedIngress → IngressComponent
decoded_ingress_component submitted = record {
  enabled = get_or submitted.enabled false;
  type = get_or submitted.type [];
  use_bundled = get_or submitted.use_bundled [];
  version = get_or submitted.version [];
}

-- The struct that is decoded behind the API server, with the default of each field that is left out.
unfoldable pub default_ingress_component : SubmittedIngress → IngressComponent
default_ingress_component submitted = record {
  enabled = get_or submitted.enabled true;
  type = get_or submitted.type ingress_type_traefik;
  use_bundled = get_or submitted.use_bundled ingress_bundled_mode_auto;
  version = get_or submitted.version [];
}
