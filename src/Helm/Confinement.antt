-- ===== src/Helm/Confinement.antt =====
-- The functions of internal/helm call the target cluster and the registry only: no call goes to
-- the management cluster.
use rancher_operator.Common.{◌≡◌, arith}
use rancher_operator.Common.Text.{Text, Bytes}
use rancher_operator.Api.Meta.{NamespacedName}
use rancher_operator.Runtime.{Env, Log, Clientset, management}
use rancher_operator.Helm.Getter.{KubeconfigRestClientGetter}
use rancher_operator.Helm.PullSecret.{
  ensure_namespace, create_if_missing, update_if_different, ensure_secret, ensure_image_pull_secret,
}
use rancher_operator.Helm.Installer.{
  OciCredentials, log_in, load_chart_from_oci, InstallOrUpgradeOptions, run_install, run_upgrade,
  install_or_upgrade,
}

module _ (env : Env) where
  management-ensure_namespace :
      (clientset : Clientset) (name : Text) (log : Log)
      → management (ensure_namespace env clientset name log).1 ≡ management log
  unfolding ensure_namespace
  management-ensure_namespace clientset name log = ground arith

  management-ensure_secret :
      (clientset : Clientset) (name : NamespacedName) (desired : Bytes) (log : Log)
      → management (ensure_secret env clientset name desired log).1 ≡ management log
  unfolding ensure_secret create_if_missing update_if_different
  management-ensure_secret clientset name desired log = ground arith

  pub management-ensure_image_pull_secret :
      (getter : KubeconfigRestClientGetter) (name : NamespacedName) (host username password : Text)
      (log : Log)
      → management (ensure_image_pull_secret env getter name host username password log).1
        ≡ management log
  unfolding ensure_image_pull_secret
  management-ensure_image_pull_secret getter name host username password log =
      grind (arith, management-ensure_namespace, management-ensure_secret)

  management-log_in :
      (host : Text) (creds : OciCredentials) (log : Log)
      → management (log_in env host creds log).1 ≡ management log
  unfolding log_in
  management-log_in host creds log = ground arith

  pub management-load_chart_from_oci :
      (ref version : Text) (creds : OciCredentials) (log : Log)
      → management (load_chart_from_oci env ref version creds log).1 ≡ management log
  unfolding load_chart_from_oci
  management-load_chart_from_oci ref version creds log = grind (arith, management-log_in)

  pub management-install_or_upgrade :
      (getter : KubeconfigRestClientGetter) (opts : InstallOrUpgradeOptions) (log : Log)
      → management (install_or_upgrade env getter opts log).1 ≡ management log
  unfolding install_or_upgrade run_install run_upgrade
  management-install_or_upgrade getter opts log = ground arith
