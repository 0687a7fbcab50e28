-- ===== src/Controller/Components/Deployment.antt =====
-- A component on a cluster that serves the operator, from its credentials to its release.
use rancher_operator.Common.{
  ◌≡◌, ◌≢◌, ◌∙◌, ap, refl, true, false, ◌&&◌, ◌||◌, some, [], ◌∷◌, ◌++◌, ok, arith,
}
use rancher_operator.Common.Text.{Text, Bytes, is_empty, before}
use rancher_operator.Api.ClusterPrerequisites.{ComponentStatus}
use rancher_operator.Runtime.{
  Env, Log, Chart, chart_v2, RestConfig, Clientset, Configuration, pulled, logged_in,
}
use rancher_operator.Helm.Getter.{KubeconfigRestClientGetter, to_rest_config}
use rancher_operator.Common.Text.Laws.{has_prefix-append, trim_prefix-append}
use rancher_operator.Helm.PullSecret.{dockerconfigjson}
use rancher_operator.Helm.Installer.{
  OciCredentials, oci_scheme, log_in, as_chart_v2, chart_data, load_chart_from_oci,
}
use rancher_operator.Helm.Server.{is_label, Cluster, Serves, behind}
use rancher_operator.Helm.Server.Published.{Published, IsUsable}
use rancher_operator.Helm.Server.Publication.{ensure_image_pull_secret-Published}
use rancher_operator.Helm.Server.Rollout.{deployed, install_or_upgrade-deployed}
use rancher_operator.Controller.Components.{
  application_collection_image_pull_secret, Package, pull_secret_name, release_options, version_of,
  application_collection_registry, installed_version, install_component,
}

-- The registry lets the credentials in, and has the chart under the reference and the version.
pub record Supplies (env : Env) (oci_ref version : Text) (creds : OciCredentials) (chart : Chart)
    : Type 0 where
  pub rest : Text
  pub archive : Bytes
  pub reference : oci_ref ≡ oci_scheme ++ rest
  pub reachable : env.new_registry_client ≡ ok tt
  pub lets_in : (log : Log) → env.login log (before b'/' rest) creds.username creds.password ≡ ok tt
  pub carries :
      (log : Log) → env.pull log (rest ++ (b':' ∷ version)) ≡ ok (record { chart = some archive })
  pub filled : archive ≢ []
  pub readable : env.load_archive archive ≡ ok (chart_v2 (some chart))

chart_data_lem :
    (archive : Bytes) → archive ≢ [] → chart_data (record { chart = some archive }) ≡ some archive
chart_data_lem [] h = absurd (h refl)
chart_data_lem (b ∷ bs) h = refl

module _ (env : Env) (initial : Cluster) where
  load_chart_from_oci_run :
      (oci_ref version : Text) (creds : OciCredentials) (chart : Chart) (log : Log)
      → (is_empty creds.username || is_empty creds.password) ≡ false
      → Supplies env oci_ref version creds chart
      → (after : Log) × (load_chart_from_oci env oci_ref version creds log
          ≡ (ok (some chart), after))
        × (behind initial after ≡ behind initial log)
  unfolding load_chart_from_oci log_in as_chart_v2
  load_chart_from_oci_run oci_ref version creds chart log given s =
      let entered = logged_in (before b'/' s.rest) creds.username creds.password (ok tt) ∷ log in
      let both : (is_empty creds.username && is_empty creds.password) ≡ false = ground arith in
      (
        pulled (s.rest ++ (b':' ∷ version)) (ok (record { chart = some s.archive })) ∷ entered,
        rw
            (
              s.reference,
              has_prefix-append oci_scheme s.rest,
              trim_prefix-append oci_scheme s.rest,
              s.reachable,
              both,
              s.lets_in log,
              s.carries entered,
              chart_data_lem s.archive s.filled,
              s.readable,
            )
            refl,
        refl,
      )

-- What the operator does to the namespaces, the image-pull Secrets and the releases of a target cluster
-- when it installs a component: it publishes the Secret, then it deploys the release.
pub record Installs (bundle : Package) (chart : Chart) (config : Configuration) (desired : Bytes)
    (before after : Cluster) : Type 0 where
  pub middle : Cluster
  pub published : Published (pull_secret_name bundle) desired before middle
  pub released : after ≡ deployed (release_options bundle (some chart)) chart config middle

-- With a user name and a password, a kubeconfig from which clients can be built, and a registry that
-- supplies the chart, on a cluster that serves the operator and on which Helm brings the chart about,
-- with valid names of the namespace and the release, where the image-pull Secret, if it is there, has
-- the type of one: whether the namespace, the Secret and the release are there already or not, the
-- run ends with the status ready, and what it has done to the namespaces, the image-pull Secrets and
-- the releases is to publish the Secret and to deploy the release with this chart.
pub install_component-Installs :
    (env : Env) (initial : Cluster) (getter : KubeconfigRestClientGetter) (bundle : Package)
    (spec_version : Text) (creds : OciCredentials) (log : Log) (connection : RestConfig)
    (clientset : Clientset) (config : Configuration) (chart : Chart) (desired : Bytes)
    → (serves : Serves env application_collection_image_pull_secret initial)
    → to_rest_config env getter ≡ ok connection
    → env.new_clientset connection ≡ ok clientset
    → env.init_configuration getter.parsed bundle.namespace ≡ ok config
    → (is_empty creds.username || is_empty creds.password) ≡ false
    → dockerconfigjson application_collection_registry creds.username creds.password ≡ ok desired
    → Supplies env bundle.chart_ref (version_of bundle spec_version) creds chart
    → is_label 63 bundle.namespace ≡ true
    → is_label 53 bundle.release_name ≡ true
    → serves.brings chart bundle.values ≡ true
    → IsUsable (pull_secret_name bundle) (behind initial log)
    → (status : ComponentStatus) × (after : Log) × (install_component env getter bundle spec_version
          creds log
        ≡ (status, after))
      × (status.ready ≡ true)
      × Installs bundle chart config desired (behind initial log) (behind initial after)
unfolding install_component
install_component-Installs env initial getter bundle spec_version creds log connection clientset
      config chart desired serves connected built configured given printed supplied label
      release_label takes usable =
    let (ensured_log, ensured, published) =
      ensure_image_pull_secret-Published env initial getter connection clientset
        (pull_secret_name bundle) application_collection_registry creds.username creds.password
        desired log serves connected built printed label usable in
    let (chart_log, loaded, same) =
      load_chart_from_oci_run env initial bundle.chart_ref (version_of bundle spec_version) creds
        chart ensured_log given supplied in
    let (release, after, released, changed) =
      install_or_upgrade-deployed env application_collection_image_pull_secret initial serves getter
        (release_options bundle (some chart)) chart config chart_log refl configured release_label
        takes (rw same published.namespace_there) in
    let status : ComponentStatus = record {
      ready = true;
      skipped = false;
      installed_version = installed_version (version_of bundle spec_version) release;
      message = bundle.message;
    } in
    (
      status,
      after,
      rw (given, ensured, loaded, released) refl,
      refl,
      record {
        middle = behind initial ensured_log;
        published = published;
        released = changed ∙ ap (deployed (release_options bundle (some chart)) chart config) same;
      },
    )
