-- ===== src/Controller/Components/Refusal.antt =====
-- A component whose image-pull Secret is there with another type.
use rancher_operator.Common.{true, ℕ, zero, suc, ◌≡◌, ◌∙◌, ap, refl, false, ◌||◌, ◌++◌, some, ok}
use rancher_operator.Common.Text.{Text, codes, Bytes, is_empty, text_eq}
use rancher_operator.Api.Meta.{Secret}
use rancher_operator.Api.ClusterPrerequisites.{ComponentStatus}
use rancher_operator.Runtime.{Env, Log, RestConfig, Clientset}
use rancher_operator.Helm.Getter.{KubeconfigRestClientGetter, to_rest_config}
use rancher_operator.Helm.PullSecret.{dockerconfigjson, secret_type_docker_config_json}
use rancher_operator.Helm.Installer.{OciCredentials}
use rancher_operator.Helm.Server.{is_label, Cluster, Serves, behind}
use rancher_operator.Helm.Server.Repetition.{ensure_image_pull_secret_retyped}
use rancher_operator.Controller.Components.{
  application_collection_image_pull_secret, Package, pull_secret_name,
  application_collection_registry, pending, is_component_done, install_component,
}

-- The calls behind a number of runs, one directly after the other.
abbrev pub after_runs :
    Env → KubeconfigRestClientGetter → Package → Text → OciCredentials → ℕ → Log → Log
after_runs env getter bundle spec_version creds zero log = log
after_runs env getter bundle spec_version creds (suc k) log =
    (install_component env getter bundle spec_version creds
      (after_runs env getter bundle spec_version creds k log)).1

module _ (env : Env) (initial : Cluster) (getter : KubeconfigRestClientGetter) (bundle : Package)
    (spec_version : Text) (creds : OciCredentials) (connection : RestConfig) (clientset : Clientset)
    (desired : Bytes) (serves : Serves env application_collection_image_pull_secret initial)
    (connected : to_rest_config env getter ≡ ok connection)
    (built : env.new_clientset connection ≡ ok clientset)
    (given : (is_empty creds.username || is_empty creds.password) ≡ false)
    (printed : dockerconfigjson application_collection_registry creds.username creds.password
      ≡ ok desired)
    (label : is_label 63 bundle.namespace ≡ true) (old : Secret)
    (other : text_eq old.type secret_type_docker_config_json ≡ false) where
  -- The component is not brought about, and the next run finds the same Secrets.
  install_component_retyped :
      (log : Log)
      → (behind initial log).secrets (pull_secret_name bundle) ≡ some old
      → (status : ComponentStatus) × (after : Log) × (install_component env getter bundle
            spec_version creds log
          ≡ (status, after))
        × (is_component_done status ≡ false)
        × ((behind initial after).secrets ≡ (behind initial log).secrets)
  unfolding install_component is_component_done
  install_component_retyped log found =
      let (e, after, failed, same) =
        ensure_image_pull_secret_retyped env initial getter connection clientset
          (pull_secret_name bundle) application_collection_registry creds.username creds.password
          desired serves connected built printed label log old found other in
      (
        pending (codes "image-pull Secret: " ++ e.message),
        after,
        rw (given, failed) refl,
        refl,
        same,
      )

  same_secrets_after :
      (k : ℕ) (log : Log)
      → (behind initial log).secrets (pull_secret_name bundle) ≡ some old
      → (behind initial (after_runs env getter bundle spec_version creds k log)).secrets
        ≡ (behind initial log).secrets
  same_secrets_after zero log found = refl
  same_secrets_after (suc k) log found =
      let kept = same_secrets_after k log found in
      let (status, after, ran, _, same) =
        install_component_retyped (after_runs env getter bundle spec_version creds k log)
          (ap (λ f. f (pull_secret_name bundle)) kept ∙ found) in
      ap (λ p. (behind initial p.1).secrets) ran ∙ same ∙ kept

  -- On a cluster that serves the operator, with credentials, a namespace of a valid name and a
  -- kubeconfig from which a client can be built: when the image-pull Secret of a component is there
  -- with another type, no number of runs brings the component about, since each one asks for an
  -- update that changes the type, which the API server refuses.
  pub install_component_stuck :
      (log : Log) (k : ℕ)
      → (behind initial log).secrets (pull_secret_name bundle) ≡ some old
      → (is_component_done
            (install_component env getter bundle spec_version creds
              (after_runs env getter bundle spec_version creds k log)).0
          ≡ false)
        × ((behind initial (after_runs env getter bundle spec_version creds k log)).secrets
              (pull_secret_name bundle)
            ≡ some old)
  install_component_stuck log k found =
      let still = ap (λ f. f (pull_secret_name bundle)) (same_secrets_after k log found) ∙ found in
      let (status, after, ran, not_done, _) =
        install_component_retyped (after_runs env getter bundle spec_version creds k log) still in
      (ap (λ p. is_component_done p.0) ran ∙ not_done, still)
