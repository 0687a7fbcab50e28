-- ===== src/Controller/Components/Rollout.antt =====
-- What the functions of the components do to a cluster that serves the operator.
use rancher_operator.Common.{
  ◌≡◌, refl, sym, subst, true, false, not, ◌&&◌, ◌||◌, Option, none, some, ok, arith,
}
use rancher_operator.Common.Text.{Text, Bytes, is_empty, text_eq}
use rancher_operator.Common.Text.Laws.{text_eq_iff}
use rancher_operator.Api.ClusterPrerequisites.{
  CertManagerComponent, IngressComponent, ComponentStatus, ingress_bundled_mode_auto,
  ingress_bundled_mode_use,
}
use rancher_operator.Runtime.{
  Env, Log, Chart, exit_if-rule, some_or_exit-rule, RestConfig, Clientset, Configuration,
}
use rancher_operator.Helm.Getter.{KubeconfigRestClientGetter, to_rest_config}
use rancher_operator.Helm.PullSecret.{dockerconfigjson}
use rancher_operator.Helm.Installer.{OciCredentials}
use rancher_operator.Api.Meta.{NamespacedName}
use rancher_operator.Helm.Server.{is_label, Cluster, Serves, behind}
use rancher_operator.Helm.Server.Published.{IsUsable, IsUsable-of_Published}
use rancher_operator.Controller.Components.{
  application_collection_image_pull_secret, pull_secret_name, Package, version_of,
  application_collection_registry, install_component, is_component_done, cert_manager_package,
  traefik_package, reconcile_cert_manager, reconcile_ingress, has_bundled_traefik,
}
use rancher_operator.Controller.Components.Completion.{mode_of}
use rancher_operator.Controller.Components.Deployment.{
  Supplies, Installs, install_component-Installs,
}

-- The target cluster serves the operator, clients for it can be built, and there are credentials.
pub record Prepared (env : Env) (initial : Cluster) (getter : KubeconfigRestClientGetter)
    (creds : OciCredentials) : Type 0 where
  pub connection : RestConfig
  pub clientset : Clientset
  pub configuration : Text → Configuration
  pub desired : Bytes
  pub serves : Serves env application_collection_image_pull_secret initial
  pub connected : to_rest_config env getter ≡ ok connection
  pub built : env.new_clientset connection ≡ ok clientset
  pub configured :
      (namespace : Text)
      → env.init_configuration getter.parsed namespace ≡ ok (configuration namespace)
  pub given : (is_empty creds.username || is_empty creds.password) ≡ false
  pub printed :
      dockerconfigjson application_collection_registry creds.username creds.password ≡ ok desired

module _ (env : Env) (initial : Cluster) (getter : KubeconfigRestClientGetter)
    (creds : OciCredentials) (target : Prepared env initial getter creds) where
  -- The installation of a package with this chart.
  abbrev pub Brings : Package → Chart → Cluster → Cluster → Type 0
  Brings bundle chart = Installs bundle chart (target.configuration bundle.namespace) target.desired

  -- A run of a component ends with a status that counts as done, and has changed the cluster by `Q`.
  pub record Finishes (Q : Cluster → Cluster → Type 0) (log : Log) (p : ComponentStatus × Log)
      : Type 0 where
    pub finished : is_component_done p.0 ≡ true
    pub changed : Q (behind initial log) (behind initial p.1)

  Finishes-map :
      (Q Q' : Cluster → Cluster → Type 0)
      → ((before after : Cluster) → Q before after → Q' before after)
      → (log : Log) (p : ComponentStatus × Log) → Finishes Q log p
      → Finishes Q' log p
  Finishes-map Q Q' f log p h = record { finished = h.finished; changed = f _ _ h.changed }

  install_component-Finishes :
      (bundle : Package) (version : Text) (chart : Chart) (log : Log)
      → Supplies env bundle.chart_ref (version_of bundle version) creds chart
      → is_label 63 bundle.namespace ≡ true
      → is_label 53 bundle.release_name ≡ true
      → target.serves.brings chart bundle.values ≡ true
      → IsUsable (pull_secret_name bundle) (behind initial log)
      → Finishes (Brings bundle chart) log (install_component env getter bundle version creds log)
  unfolding is_component_done
  install_component-Finishes bundle version chart log supplied label release_label takes usable =
      let (status, after, ran, ready, installs) =
        install_component-Installs env initial getter bundle version creds log target.connection
          target.clientset (target.configuration bundle.namespace) chart target.desired
          target.serves target.connected target.built (target.configured bundle.namespace)
          target.given target.printed supplied label release_label takes usable in
      subst (Finishes (Brings bundle chart) log) (sym ran)
        (record { finished = rw ready refl; changed = installs })

  pub data CertManagerChange (given : Option CertManagerComponent) (chart : Chart)
      (before after : Cluster) : Type 0 where
    not_requested : given ≡ none → after ≡ before → CertManagerChange given chart before after
    disabled :
        (spec : CertManagerComponent)
        → given ≡ some spec
        → spec.enabled ≡ false
        → after ≡ before
        → CertManagerChange given chart before after
    brought :
        (spec : CertManagerComponent)
        → given ≡ some spec
        → spec.enabled ≡ true
        → Brings cert_manager_package chart before after
        → CertManagerChange given chart before after

  pub reconcile_cert_manager-Finishes :
      (given : Option CertManagerComponent) (chart : Chart) (log : Log)
      → ((spec : CertManagerComponent)
          → given ≡ some spec
          → Supplies env cert_manager_package.chart_ref
              (version_of cert_manager_package spec.version)
              creds
              chart)
      → target.serves.brings chart cert_manager_package.values ≡ true
      → IsUsable (pull_secret_name cert_manager_package) (behind initial log)
      → Finishes
          (CertManagerChange given chart)
          log
          (reconcile_cert_manager env getter given creds log)
  unfolding reconcile_cert_manager is_component_done
  reconcile_cert_manager-Finishes given chart log supplied takes usable =
      let Q = CertManagerChange given chart in
      let P = Finishes Q log in
      some_or_exit-rule P given log _ _
        (λ absent. record {
          finished = refl;
          changed = CertManagerChange.not_requested absent refl;
        })
        λ spec present.
          exit_if-rule P (not spec.enabled) log _ _
            (λ off. record {
              finished = refl;
              changed = CertManagerChange.disabled spec present (ground arith) refl;
            })
            λ on.
              Finishes-map (Brings cert_manager_package chart) Q
                (λ _ _. CertManagerChange.brought spec present (ground arith)) log _
                (install_component-Finishes cert_manager_package spec.version chart log
                  (supplied spec present) refl refl takes usable)

  -- A usable Secret of any name stays usable.
  pub CertManagerChange-IsUsable :
      (given : Option CertManagerComponent) (chart : Chart) (before after : Cluster)
      (m : NamespacedName)
      → CertManagerChange given chart before after
      → IsUsable m before
      → IsUsable m after
  CertManagerChange-IsUsable given chart before after m (not_requested _ same) usable =
      subst (IsUsable m) (sym same) usable
  CertManagerChange-IsUsable given chart before after m (disabled _ _ _ same) usable =
      subst (IsUsable m) (sym same) usable
  CertManagerChange-IsUsable given chart before after m (brought _ _ _ installs) usable =
      subst (IsUsable m) (sym installs.released) (
        IsUsable-of_Published (pull_secret_name cert_manager_package) m target.desired before
          installs.middle installs.published usable)

  -- The reasons for which the ingress is left alone.
  pub data IsLeftAlone (given : Option IngressComponent) (k8s_version : Text) : Type 0 where
    not_requested : given ≡ none → IsLeftAlone given k8s_version
    disabled :
        (spec : IngressComponent)
        → given ≡ some spec
        → spec.enabled ≡ false
        → IsLeftAlone given k8s_version
    trusted :
        (spec : IngressComponent)
        → given ≡ some spec
        → mode_of spec ≡ ingress_bundled_mode_use
        → IsLeftAlone given k8s_version
    bundled :
        (spec : IngressComponent)
        → given ≡ some spec
        → mode_of spec ≡ ingress_bundled_mode_auto
        → has_bundled_traefik k8s_version ≡ true
        → IsLeftAlone given k8s_version

  pub data IngressChange (given : Option IngressComponent) (k8s_version : Text) (chart : Chart)
      (before after : Cluster) : Type 0 where
    left_alone :
        IsLeftAlone given k8s_version
        → after ≡ before
        → IngressChange given k8s_version chart before after
    brought :
        (spec : IngressComponent)
        → given ≡ some spec
        → spec.enabled ≡ true
        → Brings traefik_package chart before after
        → IngressChange given k8s_version chart before after

  pub IngressChange-IsUsable :
      (given : Option IngressComponent) (k8s_version : Text) (chart : Chart)
      (before after : Cluster) (m : NamespacedName)
      → IngressChange given k8s_version chart before after
      → IsUsable m before
      → IsUsable m after
  IngressChange-IsUsable given k8s_version chart before after m (left_alone _ same) usable =
      subst (IsUsable m) (sym same) usable
  IngressChange-IsUsable given k8s_version chart before after m (brought _ _ _ installs) usable =
      subst (IsUsable m) (sym installs.released) (
        IsUsable-of_Published (pull_secret_name traefik_package) m target.desired before
          installs.middle installs.published usable)

  pub reconcile_ingress-Finishes :
      (given : Option IngressComponent) (k8s_version : Text) (chart : Chart) (log : Log)
      → ((spec : IngressComponent)
          → given ≡ some spec
          → Supplies env traefik_package.chart_ref
              (version_of traefik_package spec.version)
              creds
              chart)
      → target.serves.brings chart traefik_package.values ≡ true
      → IsUsable (pull_secret_name traefik_package) (behind initial log)
      → Finishes
          (IngressChange given k8s_version chart)
          log
          (reconcile_ingress env getter given k8s_version creds log)
  unfolding reconcile_ingress is_component_done
  reconcile_ingress-Finishes given k8s_version chart log supplied takes usable =
      let Q = IngressChange given k8s_version chart in
      let P = Finishes Q log in
      some_or_exit-rule P given log _ _
        (λ absent. record {
          finished = refl;
          changed = left_alone (IsLeftAlone.not_requested absent) refl;
        })
        λ spec present.
          exit_if-rule P (not spec.enabled) log _ _
            (λ off. record {
              finished = refl;
              changed = left_alone (IsLeftAlone.disabled spec present (ground arith)) refl;
            })
            λ on.
              exit_if-rule P (text_eq (mode_of spec) ingress_bundled_mode_use) log _ _
                (λ same. record {
                  finished = refl;
                  changed =
                      left_alone
                        (IsLeftAlone.trusted spec present
                          ((text_eq_iff (mode_of spec) ingress_bundled_mode_use).0 same))
                        refl;
                })
                λ _.
                  exit_if-rule P
                    (text_eq (mode_of spec) ingress_bundled_mode_auto
                      && has_bundled_traefik k8s_version)
                    log _ _
                    (λ both. record {
                      finished = refl;
                      changed =
                          left_alone
                            (IsLeftAlone.bundled spec present
                              (ground (arith, text_eq_iff (mode_of spec) ingress_bundled_mode_auto))
                              (ground arith))
                            refl;
                    })
                    λ _.
                      Finishes-map (Brings traefik_package chart) Q
                        (λ _ _. IngressChange.brought spec present (ground arith)) log _
                        (install_component-Finishes traefik_package spec.version chart log
                          (supplied spec present) refl refl takes usable)
