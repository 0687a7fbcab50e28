-- ===== src/Controller/ClusterPrerequisites/Credentials.antt =====
-- What becomes of an error on the credentials of the SUSE Application Collection.
use rancher_operator.Common.{◌≡◌, ◌||◌, true, some, Error, arith}
use rancher_operator.Common.Text.{is_empty}
use rancher_operator.Api.ClusterPrerequisites.{ClusterPrerequisites, CertManagerComponent}
use rancher_operator.Runtime.{Env, Log}
use rancher_operator.Helm.Getter.{KubeconfigRestClientGetter}
use rancher_operator.Helm.Installer.{OciCredentials}
use rancher_operator.Controller.Components.{
  pending, message_missing_creds, reconcile_cert_manager, cert_manager_package,
}
use rancher_operator.Controller.Components.Laws.{install_component_without_creds}
use rancher_operator.Controller.ClusterPrerequisites.{load_application_collection_credentials}

module _ (env : Env) (cp : ClusterPrerequisites) (before after : Log) (creds : OciCredentials)
    (e : Error) where
  load_error_empties :
      load_application_collection_credentials env cp before ≡ ((creds, some e), after)
      → (is_empty creds.username || is_empty creds.password) ≡ true
  unfolding load_application_collection_credentials
  load_error_empties h = ground arith

  -- When the credentials cannot be loaded, whatever the error, an enabled cert-manager waits with the
  -- message that the reference to the Secret is required; no call is made for it.
  pub reconcile_cert_manager_of_load_error :
      (getter : KubeconfigRestClientGetter) (spec : CertManagerComponent)
      → load_application_collection_credentials env cp before ≡ ((creds, some e), after)
      → spec.enabled ≡ true
      → reconcile_cert_manager env getter (some spec) creds after
        ≡ (pending message_missing_creds, after)
  unfolding reconcile_cert_manager
  reconcile_cert_manager_of_load_error getter spec failed enabled = rw (
    enabled,
    install_component_without_creds env getter cert_manager_package spec.version creds after
        (load_error_empties failed),
  )
