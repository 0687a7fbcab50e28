-- ===== src/Helm/Server/Rollout.antt =====
-- A Helm release on a cluster that serves the operator.
use rancher_operator.Common.{◌≡◌, refl, true, Option, none, some, ◌∷◌, ok, err}
use rancher_operator.Common.Text.{Text}
use rancher_operator.Api.Meta.{NamespacedName}
use rancher_operator.Runtime.{
  Env, Log, Chart, Configuration, InstallRequest, UpgradeRequest, Release, got_release, installed,
  upgraded, release_v1,
}
use rancher_operator.Helm.Getter.{KubeconfigRestClientGetter}
use rancher_operator.Helm.Installer.{
  InstallOrUpgradeOptions, with_timeout, as_release_v1, run_install, run_upgrade,
  install_or_upgrade,
}
use rancher_operator.Helm.Server.{is_label, Cluster, Deployment, Serves, behind, put}

abbrev release_name : InstallOrUpgradeOptions → Configuration → NamespacedName
release_name opts config = record { namespace = config.namespace; name = opts.release_name }

-- The specification: the release is there with this chart and these values, and no other release, no
-- namespace and no Secret of the operator's has changed.
abbrev pub deployed : InstallOrUpgradeOptions → Chart → Configuration → Cluster → Cluster
deployed opts chart config before = record before {
  releases =
      put (release_name opts config) (record { chart = chart; values = opts.values })
        before.releases;
}

module _ (env : Env) (own : Text) (initial : Cluster) (serves : Serves env own initial)
    (getter : KubeconfigRestClientGetter) (opts : InstallOrUpgradeOptions) (chart : Chart)
    (config : Configuration) (log : Log) (given : opts.chart ≡ some chart)
    (configured : env.init_configuration getter.parsed opts.namespace ≡ ok config)
    (label : is_label 53 opts.release_name ≡ true) (takes : serves.brings chart opts.values ≡ true)
    (there : (behind initial log).namespaces opts.namespace ≡ true) where
  upgrade_run :
      (d : Deployment)
      → (behind initial log).releases (release_name opts config) ≡ some d
      → (r : Option Release) × (after : Log) × (install_or_upgrade env getter opts log
          ≡ (ok r, after))
        × (behind initial after ≡ deployed opts chart config (behind initial log))
  unfolding install_or_upgrade run_upgrade as_release_v1
  upgrade_run d found =
      let (old, got) = serves.release_found log config opts.release_name d found in
      let looked = got_release config opts.release_name (ok old) ∷ log in
      let request : UpgradeRequest = record {
        release_name = opts.release_name;
        namespace = opts.namespace;
        timeout = (with_timeout env opts).timeout;
        chart = chart;
        values = opts.values;
      } in
      let (r, done) = serves.release_upgraded looked config request d takes found in
      (
        r,
        upgraded config request (ok (release_v1 r)) ∷ looked,
        rw (given, configured, got, done) refl,
        refl,
      )

  install_run :
      (behind initial log).releases (release_name opts config) ≡ none
      → (r : Option Release) × (after : Log) × (install_or_upgrade env getter opts log
          ≡ (ok r, after))
        × (behind initial after ≡ deployed opts chart config (behind initial log))
  unfolding install_or_upgrade run_install as_release_v1
  install_run absent =
      let (e, lost, missing) = serves.release_missing log config opts.release_name label absent in
      let looked = got_release config opts.release_name (err e) ∷ log in
      let request : InstallRequest = record {
        release_name = opts.release_name;
        namespace = opts.namespace;
        create_namespace = opts.create_namespace;
        timeout = (with_timeout env opts).timeout;
        chart = chart;
        values = opts.values;
      } in
      let (r, done) = serves.release_installed looked config request label takes there absent in
      (
        r,
        installed config request (ok (release_v1 r)) ∷ looked,
        rw (given, configured, lost, missing, done) refl,
        refl,
      )

  -- On a cluster that serves the operator and has the namespace, with a chart and a configuration, a
  -- valid name, and values that Helm brings about, the function succeeds, whether the release was
  -- there or not, and what it does is to deploy the release.
  pub install_or_upgrade-deployed :
      (r : Option Release) × (after : Log) × (install_or_upgrade env getter opts log
        ≡ (ok r, after))
      × (behind initial after ≡ deployed opts chart config (behind initial log))
  install_or_upgrade-deployed =
      by_release ((behind initial log).releases (release_name opts config)) refl
    where
      by_release :
          (o : Option Deployment)
          → (behind initial log).releases (release_name opts config) ≡ o
          → (r : Option Release) × (after : Log) × (install_or_upgrade env getter opts log
              ≡ (ok r, after))
            × (behind initial after ≡ deployed opts chart config (behind initial log))
      by_release none h = install_run h
      by_release (some d) h = upgrade_run d h
