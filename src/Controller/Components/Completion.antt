-- ===== src/Controller/Components/Completion.antt =====
-- Why a component does not hold up readiness: the reasons that `isComponentDone` stands for.
use rancher_operator.Common.{
  ◌≡◌, ◌⊎◌, ◌↔◌, inl, inr, not, refl, subst, true, false, ◌&&◌, Option, none, some, arith,
  if◌then◌else◌,
}
use rancher_operator.Common.Text.{Text, is_empty, text_eq}
use rancher_operator.Common.Text.Laws.{text_eq_iff}
use rancher_operator.Api.ClusterPrerequisites.{
  CertManagerComponent, IngressComponent, LoadBalancerComponent, ComponentStatus,
  IngressBundledMode, load_balancer_type_cloud, load_balancer_type_none, ingress_bundled_mode_use,
  ingress_bundled_mode_auto,
}
use rancher_operator.Runtime.{Env, Log, exit_if-rule, some_or_exit-rule}
use rancher_operator.Helm.Getter.{KubeconfigRestClientGetter}
use rancher_operator.Helm.Installer.{OciCredentials}
use rancher_operator.Controller.Components.{
  Package, has_bundled_traefik, load_balancer_component_status, install_component,
  reconcile_cert_manager, reconcile_ingress, is_component_done, cert_manager_package,
  traefik_package,
}
use rancher_operator.Controller.Components.Laws.{IsInstalled, IsInstalled-when_ready}

-- The mode of the ingress, with the default.
abbrev pub mode_of : IngressComponent → IngressBundledMode
mode_of spec = if is_empty spec.use_bundled then ingress_bundled_mode_auto else spec.use_bundled

-- A load balancer is done when it is not requested, is the user's own, or is the cloud's.
pub load_balancer_done_iff :
    (given : Option LoadBalancerComponent)
    → (is_component_done (load_balancer_component_status given) ≡ true) ↔ (
        (given ≡ none)
        ⊎ ((spec : LoadBalancerComponent) × (given ≡ some spec)
            × ((spec.type ≡ load_balancer_type_none) ⊎ (spec.type ≡ load_balancer_type_cloud))))
unfolding load_balancer_component_status is_component_done
load_balancer_done_iff none = (λ _. inl refl, λ _. refl)
load_balancer_done_iff (some spec) =
    let is_none = text_eq_iff spec.type load_balancer_type_none in
    let is_cloud = text_eq_iff spec.type load_balancer_type_cloud in
    (
      λ done. inr (spec, refl, ground (arith, is_none, is_cloud)),
      λ why. elim why [
        | inl absent ↦ cc
        | inr (spec', same, kinds) ↦ ground (arith, is_none, is_cloud)
      ],
    )

module _ (env : Env) (getter : KubeconfigRestClientGetter) where
  skipped-install_component :
      (bundle : Package) (version : Text) (creds : OciCredentials) (log : Log)
      → (install_component env getter bundle version creds log).0.skipped ≡ false
  unfolding install_component
  skipped-install_component bundle version creds log = ground arith

  -- A component that came from the installer is done only if it is installed.
  install_component_done :
      (bundle : Package) (version : Text) (creds : OciCredentials) (log : Log)
      → let p = install_component env getter bundle version creds log in
        is_component_done p.0 ≡ true → IsInstalled env getter bundle version creds log p
  unfolding is_component_done
  install_component_done bundle version creds log done =
      IsInstalled-when_ready env getter bundle version creds log
        (ground (arith, skipped-install_component bundle version creds log))

  pub data CertManagerDone (given : Option CertManagerComponent) (creds : OciCredentials)
      (before : Log) (p : ComponentStatus × Log) : Type 0 where
    not_requested : given ≡ none → CertManagerDone given creds before p
    disabled :
        (spec : CertManagerComponent)
        → given ≡ some spec
        → spec.enabled ≡ false
        → CertManagerDone given creds before p
    deployed :
        (spec : CertManagerComponent)
        → given ≡ some spec
        → IsInstalled env getter cert_manager_package spec.version creds before p
        → CertManagerDone given creds before p

  cert_manager_done :
      (given : Option CertManagerComponent) (creds : OciCredentials) (log : Log)
      → let p = reconcile_cert_manager env getter given creds log in
        is_component_done p.0 ≡ true → CertManagerDone given creds log p
  unfolding reconcile_cert_manager
  cert_manager_done given creds log =
      let P : ComponentStatus × Log → Type 0 =
        λ p. is_component_done p.0 ≡ true → CertManagerDone given creds log p in
      some_or_exit-rule P given log _ _ (λ absent _. CertManagerDone.not_requested absent)
        λ spec present.
          exit_if-rule P (not spec.enabled) log _ _
            (λ off _. CertManagerDone.disabled spec present (ground arith))
            λ _ done.
              CertManagerDone.deployed spec present
                (install_component_done cert_manager_package spec.version creds log done)

  -- A run for cert-manager that counts as done found it not requested or disabled, or installed it.
  pub reconcile_cert_manager_done :
      (given : Option CertManagerComponent) (creds : OciCredentials) (log : Log)
      (status : ComponentStatus) (after : Log)
      → reconcile_cert_manager env getter given creds log ≡ (status, after)
      → is_component_done status ≡ true
      → CertManagerDone given creds log (status, after)
  reconcile_cert_manager_done given creds log status after h =
      subst (λ p. is_component_done p.0 ≡ true → CertManagerDone given creds log p) h
        (cert_manager_done given creds log)

  pub data IngressDone (given : Option IngressComponent) (k8s_version : Text)
      (creds : OciCredentials) (before : Log) (p : ComponentStatus × Log) : Type 0 where
    not_requested : given ≡ none → IngressDone given k8s_version creds before p
    disabled :
        (spec : IngressComponent)
        → given ≡ some spec
        → spec.enabled ≡ false
        → IngressDone given k8s_version creds before p
    trusted :
        (spec : IngressComponent)
        → given ≡ some spec
        → mode_of spec ≡ ingress_bundled_mode_use
        → IngressDone given k8s_version creds before p
    bundled :
        (spec : IngressComponent)
        → given ≡ some spec
        → mode_of spec ≡ ingress_bundled_mode_auto
        → has_bundled_traefik k8s_version ≡ true
        → IngressDone given k8s_version creds before p
    deployed :
        (spec : IngressComponent)
        → given ≡ some spec
        → IsInstalled env getter traefik_package spec.version creds before p
        → IngressDone given k8s_version creds before p

  ingress_done :
      (given : Option IngressComponent) (k8s_version : Text) (creds : OciCredentials) (log : Log)
      → let p = reconcile_ingress env getter given k8s_version creds log in
        is_component_done p.0 ≡ true → IngressDone given k8s_version creds log p
  unfolding reconcile_ingress
  ingress_done given k8s_version creds log =
      let P : ComponentStatus × Log → Type 0 =
        λ p. is_component_done p.0 ≡ true → IngressDone given k8s_version creds log p in
      some_or_exit-rule P given log _ _ (λ absent _. IngressDone.not_requested absent)
        λ spec present.
          exit_if-rule P (not spec.enabled) log _ _
            (λ off _. IngressDone.disabled spec present (ground arith))
            λ _.
              exit_if-rule P (text_eq (mode_of spec) ingress_bundled_mode_use) log _ _
                (λ same _.
                  IngressDone.trusted spec present
                    ((text_eq_iff (mode_of spec) ingress_bundled_mode_use).0 same))
                λ _.
                  exit_if-rule P
                    (text_eq (mode_of spec) ingress_bundled_mode_auto
                      && has_bundled_traefik k8s_version)
                    log _ _
                    (λ both _.
                      IngressDone.bundled spec present
                        (ground (arith, text_eq_iff (mode_of spec) ingress_bundled_mode_auto))
                        (ground arith))
                    λ _ done.
                      IngressDone.deployed spec present
                        (install_component_done traefik_package spec.version creds log done)

  -- A run for the ingress that counts as done found it not requested, disabled, trusted to be there,
  -- or bundled with the Kubernetes version in the mode `auto`, or installed it.
  pub reconcile_ingress_done :
      (given : Option IngressComponent) (k8s_version : Text) (creds : OciCredentials) (log : Log)
      (status : ComponentStatus) (after : Log)
      → reconcile_ingress env getter given k8s_version creds log ≡ (status, after)
      → is_component_done status ≡ true
      → IngressDone given k8s_version creds log (status, after)
  reconcile_ingress_done given k8s_version creds log status after h =
      subst (λ p. is_component_done p.0 ≡ true → IngressDone given k8s_version creds log p) h
        (ingress_done given k8s_version creds log)
