-- ===== src/Controller/Components/Laws.antt =====
-- What the component functions call, and what a finished component rests on.
use rancher_operator.Common.{
  ◌≡◌, ◌⊎◌, ◌↔◌, inl, inr, refl, subst, true, ◌||◌, Option, ◌++◌, ok, Bool-cases, arith,
}
use rancher_operator.Common.Text.{Text, codes, contains, is_empty}
use rancher_operator.Common.Text.Laws.{contains_iff, contains-split}
use rancher_operator.Api.ClusterPrerequisites.{
  CertManagerComponent, IngressComponent, ComponentStatus,
}
use rancher_operator.Runtime.{Env, Log, management, exit_if-rule, Chart, Release, attempt-rule}
use rancher_operator.Helm.Getter.{KubeconfigRestClientGetter}
use rancher_operator.Helm.PullSecret.{ensure_image_pull_secret}
use rancher_operator.Helm.Installer.{OciCredentials, load_chart_from_oci, install_or_upgrade}
use rancher_operator.Helm.Confinement.{
  management-ensure_image_pull_secret, management-load_chart_from_oci,
  management-install_or_upgrade,
}
use rancher_operator.Controller.Components.{
  Package, pull_secret_name, release_options, version_of, application_collection_registry,
  installed_version, has_bundled_traefik, install_component, reconcile_cert_manager,
  reconcile_ingress, message_missing_creds, pending,
}

module _ (env : Env) (getter : KubeconfigRestClientGetter) where
  management-install_component :
      (bundle : Package) (version : Text) (creds : OciCredentials) (log : Log)
      → management (install_component env getter bundle version creds log).1 ≡ management log
  unfolding install_component
  management-install_component bundle version creds log = grind (
    arith, management-ensure_image_pull_secret, management-load_chart_from_oci,
    management-install_or_upgrade,
  )

  pub management-reconcile_cert_manager :
      (given : Option CertManagerComponent) (creds : OciCredentials) (log : Log)
      → management (reconcile_cert_manager env getter given creds log).1 ≡ management log
  unfolding reconcile_cert_manager
  management-reconcile_cert_manager given creds log = grind (arith, management-install_component)

  pub management-reconcile_ingress :
      (given : Option IngressComponent) (k8s_version : Text) (creds : OciCredentials) (log : Log)
      → management (reconcile_ingress env getter given k8s_version creds log).1 ≡ management log
  unfolding reconcile_ingress
  management-reconcile_ingress given k8s_version creds log =
      grind (arith, management-install_component)

  -- Without a user name or without a password nothing is called, and the component waits with the
  -- message on missing credentials.
  pub install_component_without_creds :
      (bundle : Package) (version : Text) (creds : OciCredentials) (log : Log)
      → (is_empty creds.username || is_empty creds.password) ≡ true
      → install_component env getter bundle version creds log ≡ (pending message_missing_creds, log)
  unfolding install_component
  install_component_without_creds bundle version creds log h = rw h

  -- A status that says `Ready` rests on three steps in this order: the image-pull Secret was ensured,
  -- the chart of the version was loaded, and Helm installed or upgraded the release with that chart.
  pub record IsInstalled (bundle : Package) (spec_version : Text) (creds : OciCredentials)
      (before : Log) (p : ComponentStatus × Log) : Type 0 where
    pub chart : Option Chart
    pub release : Option Release
    pub secret_log : Log
    pub chart_log : Log
    pub ensured :
        ensure_image_pull_secret env getter
          (pull_secret_name bundle)
          application_collection_registry
          creds.username
          creds.password
          before
        ≡ (ok tt, secret_log)
    pub loaded :
        load_chart_from_oci env bundle.chart_ref (version_of bundle spec_version) creds secret_log
        ≡ (ok chart, chart_log)
    pub released :
        install_or_upgrade env getter (release_options bundle chart) chart_log ≡ (ok release, p.1)
    pub version : p.0.installed_version ≡ installed_version (version_of bundle spec_version) release

  pub IsInstalled-when_ready :
      (bundle : Package) (spec_version : Text) (creds : OciCredentials) (log : Log)
      → let p = install_component env getter bundle spec_version creds log in
        p.0.ready ≡ true → IsInstalled bundle spec_version creds log p
  unfolding install_component
  IsInstalled-when_ready bundle spec_version creds log =
      let P : ComponentStatus × Log → Type 0 =
        λ p. p.0.ready ≡ true → IsInstalled bundle spec_version creds log p in
      exit_if-rule P (is_empty creds.username || is_empty creds.password) log _ _ (λ _ h. cc)
        λ _.
          attempt-rule P (ensure_image_pull_secret env getter _ _ _ _ log) _ _ (λ _ _ _ h. cc)
            λ _ secret_log ensured.
              attempt-rule P (load_chart_from_oci env _ _ creds secret_log) _ _ (λ _ _ _ h. cc)
                λ chart chart_log loaded.
                  attempt-rule P (install_or_upgrade env getter _ chart_log) _ _ (λ _ _ _ h. cc)
                    λ release after released. λ _. record {
                      chart = chart;
                      release = release;
                      secret_log = secret_log;
                      chart_log = chart_log;
                      ensured = ensured;
                      loaded = loaded;
                      released = released;
                      version = refl;
                    }

  -- A component that a run reports as ready was installed in this run, in three steps: its image-pull
  -- Secret was ensured, then its chart was loaded, then Helm installed or upgraded its release.
  pub install_component-IsInstalled :
      (bundle : Package) (spec_version : Text) (creds : OciCredentials) (log : Log)
      (status : ComponentStatus) (after : Log)
      → install_component env getter bundle spec_version creds log ≡ (status, after)
      → status.ready ≡ true
      → IsInstalled bundle spec_version creds log (status, after)
  install_component-IsInstalled bundle spec_version creds log status after h =
      subst (λ p. p.0.ready ≡ true → IsInstalled bundle spec_version creds log p) h
        (IsInstalled-when_ready bundle spec_version creds log)

-- Traefik counts as bundled exactly when the version string holds one of the two marks, wherever it
-- stands.
pub has_bundled_traefik_iff :
    (v : Text)
    → (has_bundled_traefik v ≡ true) ↔ (
        ((left right : Text) × (v ≡ left ++ codes "+k3s" ++ right))
        ⊎ ((left right : Text) × (v ≡ left ++ codes "+rke2" ++ right)))
unfolding has_bundled_traefik
has_bundled_traefik_iff v = (
  λ h. elim (Bool-cases (contains v (codes "+k3s"))) [
    | inl k3s ↦ inl (contains-split v (codes "+k3s") k3s)
    | inr other ↦ inr (contains-split v (codes "+rke2") (ground arith))
  ],
  λ h. elim h [
    | inl parts ↦ let k3s = (contains_iff v (codes "+k3s")).1 parts in ground arith
    | inr parts ↦ let rke2 = (contains_iff v (codes "+rke2")).1 parts in ground arith
  ],
)
