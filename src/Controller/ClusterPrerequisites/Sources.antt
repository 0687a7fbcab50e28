-- ===== src/Controller/ClusterPrerequisites/Sources.antt =====
-- What a run reads on the management cluster, when it is all there.
use rancher_operator.Common.{◌≡◌, ◌≢◌, refl, true, false, ◌||◌, none, some, [], ◌∷◌, ok, arith}
use rancher_operator.Common.Text.{Bytes, codes, is_empty, text_eq}
use rancher_operator.Common.Text.Laws.{text_eq_iff}
use rancher_operator.Api.Meta.{Secret, secret_value, LocalObjectReference}
use rancher_operator.Api.TargetCluster.{TargetCluster, ByoSpec, target_cluster_type_byo}
use rancher_operator.Api.ClusterPrerequisites.{ClusterPrerequisites}
use rancher_operator.Runtime.{Env, Log, got_secret, got_target_cluster}
use rancher_operator.Helm.Installer.{OciCredentials}
use rancher_operator.Controller.TargetCluster.{kubeconfig_key, nonempty}
use rancher_operator.Controller.TargetCluster.Readiness.{secret_name}
use rancher_operator.Controller.ClusterPrerequisites.{
  target_key, load_application_collection_credentials, resolve_target_kubeconfig,
  reconcile_components, reconcile_found,
}

-- The Secret of the registry can be read and holds a user name and a password.
pub record Credited (env : Env) (cp : ClusterPrerequisites) (creds : OciCredentials) : Type 0 where
  pub ref : LocalObjectReference
  pub secret : Secret
  pub referred : cp.spec.application_collection_credentials_secret_ref ≡ some ref
  pub readable :
      (log : Log)
      → env.get_secret log (record { namespace = cp.meta.namespace; name = ref.name }) ≡ ok secret
  pub username : secret_value secret (codes "username") ≡ some creds.username
  pub password : secret_value secret (codes "password") ≡ some creds.password

-- The target cluster of the resource is ready, and its kubeconfig can be read.
pub record Targeted (env : Env) (cp : ClusterPrerequisites) (tc : TargetCluster)
    (kubeconfig : Bytes) : Type 0 where
  pub byo : ByoSpec
  pub secret : Secret
  pub found : (log : Log) → env.get_target_cluster log (target_key cp) ≡ ok tc
  pub ready : tc.status.ready ≡ true
  pub is_byo : tc.spec.type ≡ target_cluster_type_byo
  pub has_spec : tc.spec.byo ≡ some byo
  pub readable : (log : Log) → env.get_secret log (secret_name tc byo) ≡ ok secret
  pub holds : secret_value secret (kubeconfig_key byo.kubeconfig_secret_ref) ≡ some kubeconfig
  pub filled : kubeconfig ≢ []

pub load_run :
    (env : Env) (cp : ClusterPrerequisites) (creds : OciCredentials) (log : Log)
    → (is_empty creds.username || is_empty creds.password) ≡ false
    → (c : Credited env cp creds)
    → load_application_collection_credentials env cp log ≡ (
      (creds, none),
      got_secret (record { namespace = cp.meta.namespace; name = c.ref.name }) (ok c.secret) ∷ log,
    )
unfolding load_application_collection_credentials
load_run env cp creds log given c =
    ground (arith, given, c.referred, c.readable log, c.username, c.password)

resolve_run :
    (env : Env) (cp : ClusterPrerequisites) (tc : TargetCluster) (kubeconfig : Bytes) (log : Log)
    → (t : Targeted env cp tc kubeconfig)
    → resolve_target_kubeconfig env tc log
      ≡ (ok kubeconfig, got_secret (secret_name tc t.byo) (ok t.secret) ∷ log)
unfolding resolve_target_kubeconfig
resolve_run env cp tc kubeconfig log t =
    let same : text_eq tc.spec.type target_cluster_type_byo ≡ true =
      (text_eq_iff tc.spec.type target_cluster_type_byo).1 t.is_byo in
    let given : nonempty (secret_value t.secret (kubeconfig_key t.byo.kubeconfig_secret_ref))
        ≡ some kubeconfig =
      ground (arith, t.holds, t.filled) in
    rw (same, t.has_spec, t.readable log, given)

pub reconcile_found_run :
    (env : Env) (cp : ClusterPrerequisites) (tc : TargetCluster) (kubeconfig : Bytes) (log : Log)
    → (t : Targeted env cp tc kubeconfig)
    → reconcile_found env cp log
      ≡ reconcile_components env cp tc kubeconfig (
          got_secret (secret_name tc t.byo) (ok t.secret)
          ∷ got_target_cluster (target_key cp) (ok tc)
          ∷ log)
unfolding reconcile_found
reconcile_found_run env cp tc kubeconfig log t =
    let looked = got_target_cluster (target_key cp) (ok tc) ∷ log in
    simp (t.found log, t.ready, resolve_run env cp tc kubeconfig looked t) refl
