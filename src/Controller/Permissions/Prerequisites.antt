-- ===== src/Controller/Permissions/Prerequisites.antt =====
-- What the ClusterPrerequisites reconciler needs of the role.
use rancher_operator.Common.{
  ◌≡◌, refl, sym, ap, ◌∙◌, true, List, [], ◌∷◌, ◌++◌, Result, Error, Option, arith,
}
use rancher_operator.Common.Text.{Text, Bytes, codes, text_eq}
use rancher_operator.Api.Meta.{NamespacedName, Secret}
use rancher_operator.Api.TargetCluster.{TargetCluster}
use rancher_operator.Api.ClusterPrerequisites.{
  ClusterPrerequisites, ComponentStatuses, CertManagerComponent, IngressComponent,
}
use rancher_operator.Runtime.{
  Env, Log, management, got_target_cluster, got_cluster_prerequisites, got_secret,
  updated_cluster_prerequisites_status,
}
use rancher_operator.Helm.Getter.{KubeconfigRestClientGetter}
use rancher_operator.Helm.Installer.{OciCredentials}
use rancher_operator.Controller.Components.{reconcile_cert_manager, reconcile_ingress}
use rancher_operator.Controller.Components.Laws.{
  management-reconcile_cert_manager, management-reconcile_ingress,
}
use rancher_operator.Controller.ClusterPrerequisites.{
  unavailable, load_application_collection_credentials, resolve_target_kubeconfig, report,
  reconcile_components, target_lost, reconcile_found, reconcile,
}
use rancher_operator.Controller.Permissions.{
  Rule, reading, cluster_prerequisites_rules, has_verb, allows, covers, covers_all,
}
use rancher_operator.Controller.Permissions.Laws.{covers_all-management}

-- Its own markers, and the one above the TargetCluster reconciler that is on Secrets.
unfoldable pub needed_rules : List Rule
unfolding cluster_prerequisites_rules
needed_rules =
    cluster_prerequisites_rules
    ++ (record { group = []; resource = codes "secrets"; verbs = reading } ∷ [])

module _ (env : Env) where
  covered_get :
      (name : NamespacedName) (r : Result ClusterPrerequisites)
      → covers needed_rules (got_cluster_prerequisites name r) ≡ true
  unfolding covers allows has_verb needed_rules text_eq
  covered_get name r = refl

  covered_target :
      (name : NamespacedName) (r : Result TargetCluster)
      → covers needed_rules (got_target_cluster name r) ≡ true
  unfolding covers allows has_verb needed_rules text_eq
  covered_target name r = refl

  covered_secret :
      (name : NamespacedName) (r : Result Secret) → covers needed_rules (got_secret name r) ≡ true
  unfolding covers allows has_verb needed_rules text_eq
  covered_secret name r = refl

  covered_update :
      (cp : ClusterPrerequisites) (r : Result (Unit {0}))
      → covers needed_rules (updated_cluster_prerequisites_status cp r) ≡ true
  unfolding covers allows has_verb needed_rules text_eq
  covered_update cp r = refl

  covered-unavailable :
      (cp : ClusterPrerequisites) (reason message : Text) (log : Log)
      → covers_all needed_rules (unavailable env cp reason message log).1
        ≡ covers_all needed_rules log
  unfolding unavailable
  covered-unavailable cp reason message log = grind (arith, covered_update)

  covered-target_lost :
      (cp : ClusterPrerequisites) (e : Error) (log : Log)
      → covers_all needed_rules (target_lost env cp e log).1 ≡ covers_all needed_rules log
  unfolding target_lost
  covered-target_lost cp e log = grind (arith, covered-unavailable)

  covered-resolve :
      (tc : TargetCluster) (log : Log)
      → covers_all needed_rules (resolve_target_kubeconfig env tc log).1
        ≡ covers_all needed_rules log
  unfolding resolve_target_kubeconfig
  covered-resolve tc log = grind (arith, covered_secret)

  covered-load :
      (cp : ClusterPrerequisites) (log : Log)
      → covers_all needed_rules (load_application_collection_credentials env cp log).1
        ≡ covers_all needed_rules log
  unfolding load_application_collection_credentials
  covered-load cp log = grind (arith, covered_secret)

  covered-report :
      (cp : ClusterPrerequisites) (c : ComponentStatuses) (log : Log)
      → covers_all needed_rules (report env cp c log).1 ≡ covers_all needed_rules log
  unfolding report
  covered-report cp c log = grind (arith, covered_update)

  covered_of_management :
      (after log : Log)
      → management after ≡ management log
      → covers_all needed_rules after ≡ covers_all needed_rules log
  covered_of_management after log e =
      sym (covers_all-management needed_rules after)
      ∙ (ap (covers_all needed_rules) e ∙ covers_all-management needed_rules log)

  covered-reconcile_cert_manager :
      (getter : KubeconfigRestClientGetter) (given : Option CertManagerComponent)
      (creds : OciCredentials) (log : Log)
      → covers_all needed_rules (reconcile_cert_manager env getter given creds log).1
        ≡ covers_all needed_rules log
  covered-reconcile_cert_manager getter given creds log =
      covered_of_management _ log (management-reconcile_cert_manager env getter given creds log)

  covered-reconcile_ingress :
      (getter : KubeconfigRestClientGetter) (given : Option IngressComponent) (version : Text)
      (creds : OciCredentials) (log : Log)
      → covers_all needed_rules (reconcile_ingress env getter given version creds log).1
        ≡ covers_all needed_rules log
  covered-reconcile_ingress getter given version creds log =
      covered_of_management _ log (management-reconcile_ingress env getter given version creds log)

  covered-reconcile_components :
      (cp : ClusterPrerequisites) (tc : TargetCluster) (kubeconfig : Bytes) (log : Log)
      → covers_all needed_rules (reconcile_components env cp tc kubeconfig log).1
        ≡ covers_all needed_rules log
  unfolding reconcile_components
  covered-reconcile_components cp tc kubeconfig log = grind (
    arith, covered-load, covered-reconcile_cert_manager, covered-reconcile_ingress, covered-report,
  )

  covered-reconcile_found :
      (cp : ClusterPrerequisites) (log : Log)
      → covers_all needed_rules (reconcile_found env cp log).1 ≡ covers_all needed_rules log
  unfolding reconcile_found
  covered-reconcile_found cp log = grind (
    arith, covered_target, covered-target_lost, covered-unavailable, covered-resolve,
    covered-reconcile_components,
  )

  -- A run calls nothing on the management cluster but what the markers above it allow and, for the
  -- Secrets, a marker above the other reconciler: each of its reads with get, list and watch, and its
  -- updates of a status.
  pub reconcile-covered_prerequisites :
      (req : NamespacedName) (log : Log)
      → covers_all needed_rules (reconcile env req log).1 ≡ covers_all needed_rules log
  unfolding reconcile
  reconcile-covered_prerequisites req log = grind (arith, covered-reconcile_found, covered_get)
