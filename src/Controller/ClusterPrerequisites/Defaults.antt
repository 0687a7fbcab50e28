-- ===== src/Controller/ClusterPrerequisites/Defaults.antt =====
-- The fallbacks in the code are the defaults of the API.
use rancher_operator.Common.{
  ◌≡◌, refl, inl, inr, true, get_or, Option-cases, Option, none, some, [], ◌∷◌,
}
use rancher_operator.Common.Text.{Text}
use rancher_operator.Api.TargetCluster.{TargetCluster, ByoSpec}
use rancher_operator.Api.ClusterPrerequisites.{IngressComponent}
use rancher_operator.Api.Defaults.{
  default_target_cluster, SubmittedIngress, decoded_ingress_component, default_ingress_component,
}
use rancher_operator.Runtime.{Env, Log}
use rancher_operator.Helm.Getter.{KubeconfigRestClientGetter}
use rancher_operator.Helm.Installer.{OciCredentials}
use rancher_operator.Controller.Components.{skipping, message_component_disabled, reconcile_ingress}
use rancher_operator.Controller.Components.Completion.{mode_of}
use rancher_operator.Controller.ClusterPrerequisites.{resolve_target_kubeconfig}

-- An ingress that is installed unless its spec says that it is not.
abbrev pub enabled_by_default : SubmittedIngress → IngressComponent
enabled_by_default submitted = record (decoded_ingress_component submitted) {
  enabled = get_or submitted.enabled true;
}

mode_of-default :
    (submitted : SubmittedIngress)
    → mode_of (default_ingress_component submitted) ≡ mode_of (enabled_by_default submitted)
unfolding default_ingress_component decoded_ingress_component
mode_of-default submitted = elim (Option-cases submitted.use_bundled) [
  | inl absent ↦ rw absent refl
  | inr (mode, present) ↦ rw present refl
]

module _ (env : Env) where
  resolve-default :
      (tc : TargetCluster) (log : Log)
      → resolve_target_kubeconfig env (default_target_cluster tc) log
        ≡ resolve_target_kubeconfig env tc log
  unfolding resolve_target_kubeconfig default_target_cluster
  resolve-default tc log = by_byo tc.spec.byo
    where
      with_byo : Option ByoSpec → TargetCluster
      with_byo o = record tc { spec = record tc.spec { byo = o } }

      with_key : Text → Text → ByoSpec
      with_key name key = record { kubeconfig_secret_ref = record { name = name; key = key } }

      by_key :
          (name key : Text)
          → resolve_target_kubeconfig env
              (default_target_cluster (with_byo (some (with_key name key))))
              log
            ≡ resolve_target_kubeconfig env (with_byo (some (with_key name key))) log
      by_key name [] = refl
      by_key name (c ∷ key) = refl

      by_byo :
          (o : Option ByoSpec)
          → resolve_target_kubeconfig env (default_target_cluster (with_byo o)) log
            ≡ resolve_target_kubeconfig env (with_byo o) log
      by_byo none = refl
      by_byo (some byo) = by_key byo.kubeconfig_secret_ref.name byo.kubeconfig_secret_ref.key

  ingress-default :
      (getter : KubeconfigRestClientGetter) (submitted : SubmittedIngress) (k8s_version : Text)
      (creds : OciCredentials) (log : Log)
      → reconcile_ingress env getter
          (some (default_ingress_component submitted))
          k8s_version
          creds
          log
        ≡ reconcile_ingress env getter (some (enabled_by_default submitted)) k8s_version creds log
  unfolding reconcile_ingress default_ingress_component decoded_ingress_component
  ingress-default getter submitted k8s_version creds log = rw (mode_of-default submitted) refl

  -- The defaults of the API for a kubeconfig's key do not change how the kubeconfig of a target is
  -- resolved. For an ingress, with the defaults of all its fields filled in, what is done is the same
  -- as with the default of `enabled` alone: the code falls back on the same values for the other
  -- fields. For `enabled` it does not: without the defaults, an ingress that leaves it out would be
  -- skipped with no call.
  pub defaults_agree :
      (tc : TargetCluster) (getter : KubeconfigRestClientGetter) (submitted : SubmittedIngress)
      (k8s_version : Text) (creds : OciCredentials) (log : Log)
      → (resolve_target_kubeconfig env (default_target_cluster tc) log
          ≡ resolve_target_kubeconfig env tc log)
        × (reconcile_ingress env getter
              (some (default_ingress_component submitted))
              k8s_version
              creds
              log
            ≡ reconcile_ingress env getter
                (some (enabled_by_default submitted))
                k8s_version
                creds
                log)
        × (reconcile_ingress env getter
              (some (decoded_ingress_component (record submitted { enabled = none })))
              k8s_version
              creds
              log
            ≡ (skipping message_component_disabled, log))
  unfolding reconcile_ingress decoded_ingress_component
  defaults_agree tc getter submitted k8s_version creds log =
      (resolve-default tc log, ingress-default getter submitted k8s_version creds log, refl)
