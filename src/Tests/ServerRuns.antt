-- ===== src/Tests/ServerRuns.antt =====
-- Runs against an API server that keeps what it is given.
use rancher_operator.Common.{
  ◌≡◌, refl, true, false, Option, none, some, [], ◌∷◌, ok, err, new_error, Result, if◌then◌else◌,
  arith, ap, sym, get_or,
}
use rancher_operator.Common.Text.{Text, codes, text_eq, contains, has_prefix, Bytes}
use rancher_operator.Api.Meta.{NamespacedName, Secret}
use rancher_operator.Api.TargetCluster.{TargetCluster}
use rancher_operator.Api.ClusterPrerequisites.{ComponentStatus}
use rancher_operator.Runtime.{Env, Log, RestConfig, Clientset, Configuration, Releaser, release_v1}
use rancher_operator.Helm.Getter.{KubeconfigRestClientGetter, to_rest_config}
use rancher_operator.Helm.PullSecret.{
  secret_type_docker_config_json, docker_config_json_key, dockerconfigjson,
}
use rancher_operator.Helm.Installer.{OciCredentials, is_release_not_found}
use rancher_operator.Helm.Server.{helm_secret_prefix, Cluster, Deployment, Serves, behind}
use rancher_operator.Helm.Server.Published.{IsUsable}
use rancher_operator.Controller.Components.{
  application_collection_image_pull_secret, pull_secret_name, cert_manager_package,
  application_collection_registry, install_component,
}
use rancher_operator.Controller.Components.Deployment.{
  Supplies, Installs, install_component-Installs,
}
use rancher_operator.Tests.World.{world, gone, chart, ready_cluster}

abbrev pub found_or_gone {ℓ} : {A : Type ℓ} → Option A → Result A
found_or_gone none = err gone
found_or_gone (some a) = ok a

abbrev found_release : Option Deployment → Result Releaser
found_release none = err (new_error (codes "release: not found"))
found_release (some d) = ok (release_v1 none)

abbrev release_key : Configuration → Text → NamespacedName
release_key config name = record { namespace = config.namespace; name = name }

-- The type of a Secret is immutable.
abbrev pub updated_secret : Option Secret → Secret → Result (Unit {0})
updated_secret none s = err gone
updated_secret (some old) s =
    if text_eq s.type old.type then ok tt else err (new_error (codes "type: field is immutable"))

-- The answers of a cluster that keeps what it is given, from a first state on.
abbrev pub server : TargetCluster → Cluster → Env
server tc initial = record world {
  get_target_cluster = λ log name. ok tc;
  get_namespace = λ log c n. if (behind initial log).namespaces n then ok tt else err gone;
  get_remote_secret = λ log c n. found_or_gone ((behind initial log).secrets n);
  update_remote_secret = λ log c n s. updated_secret ((behind initial log).secrets n) s;
  get_release =
      λ log config name. found_release ((behind initial log).releases (release_key config name));
}

pub not_found_lem : is_release_not_found (new_error (codes "release: not found")) ≡ true
unfolding is_release_not_found contains
not_found_lem = refl

pub own_name_lem : has_prefix application_collection_image_pull_secret helm_secret_prefix ≡ false
unfolding has_prefix
own_name_lem = refl

abbrev pub serving :
    (tc : TargetCluster) (initial : Cluster)
    → Serves (server tc initial) application_collection_image_pull_secret initial
serving tc initial = record {
  brings = λ c v. true;
  own_label = refl;
  own_name = own_name_lem;
  namespace_found = λ log c n h. rw h refl;
  namespace_missing = λ log c n label h. (gone, rw h refl, refl);
  namespace_created = λ log c n label h. refl;
  secret_found = λ log c n s named h. rw h refl;
  secret_missing = λ log c n named there h. (gone, rw h refl, refl);
  secret_created = λ log c n s named valid there h. refl;
  secret_updated = λ log c n s old named valid h same. rw (h, same) refl;
  secret_type_kept = λ log c n s old named h different.
      (new_error (codes "type: field is immutable"), rw (h, different) refl);
  release_found = λ log config name d h. (release_v1 none, rw h refl);
  release_missing =
      λ log config name label h. (new_error (codes "release: not found"), rw h refl, not_found_lem);
  release_installed = λ log config request label takes there h. (_, refl);
  release_upgraded = λ log config request d takes h. (_, refl);
}

-- The namespace is there, with an image-pull Secret of other credentials in it, and no release.
abbrev old_secret : Secret
old_secret = record {
  type = secret_type_docker_config_json;
  contents = some ((docker_config_json_key, codes "{}") ∷ (codes "note", codes "n") ∷ []);
}

abbrev pub half_done : Cluster
half_done = record {
  namespaces = λ n. text_eq n (codes "cert-manager");
  secrets = λ n. if text_eq n.name (codes "application-collection") then some old_secret else none;
  releases = λ n. none;
}

abbrev pub empty : Cluster
empty = record { namespaces = λ n. false; secrets = λ n. none; releases = λ n. none }

abbrev pub getter : KubeconfigRestClientGetter
getter = record { parsed = ok (record { kubeconfig = codes "k" }) }

abbrev pub creds : OciCredentials
creds = record { username = codes "u"; password = codes "p" }

abbrev pub connection : RestConfig
connection = record { connection = codes "k"; timeout = 0 }

abbrev pub clientset : Clientset
clientset = record { config = connection }

abbrev config : Configuration
config = record { cluster = getter.parsed; namespace = codes "cert-manager" }

abbrev pub desired : Bytes
desired = elim (dockerconfigjson application_collection_registry creds.username creds.password) [
  | ok bytes ↦ bytes
  | err _ ↦ []
]

pub connected :
    (initial : Cluster) → to_rest_config (server ready_cluster initial) getter ≡ ok connection
unfolding to_rest_config
connected initial = refl

pub printed :
    dockerconfigjson application_collection_registry creds.username creds.password ≡ ok desired
unfolding dockerconfigjson
printed = refl

supplied :
    (initial : Cluster)
    → Supplies
        (server ready_cluster initial)
        cert_manager_package.chart_ref
        (codes "v1.18.0")
        creds
        chart
supplied initial = record {
  rest = codes "dp.apps.rancher.io/charts/cert-manager";
  archive = codes "tgz";
  reference = refl;
  reachable = refl;
  lets_in = λ log. refl;
  carries = λ log. refl;
  filled = λ h. ground arith;
  readable = refl;
}

pub half_done-IsUsable : IsUsable (pull_secret_name cert_manager_package) half_done
unfolding text_eq
half_done-IsUsable old found = ap (λ o. (get_or o old).type) (sym found)

install_component-Installs_example :
    (status : ComponentStatus) × (after : Log) × (install_component
        (server ready_cluster empty)
        getter
        cert_manager_package
        (codes "v1.18.0")
        creds
        []
      ≡ (status, after))
    × (status.ready ≡ true)
    × Installs cert_manager_package chart config desired empty (behind empty after)
install_component-Installs_example =
    install_component-Installs (server ready_cluster empty) empty getter cert_manager_package
      (codes "v1.18.0") creds [] connection clientset config chart desired
      (serving ready_cluster empty) (connected empty) refl refl refl printed (supplied empty) refl
      refl refl λ old found. ground arith
