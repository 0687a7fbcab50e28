-- ===== src/Controller/ClusterPrerequisites/Readiness.antt =====
-- When the ClusterPrerequisites reconciler reports readiness.
use rancher_operator.Common.{
  ◌≡◌, ◌⊎◌, inl, inr, not, refl, sym, subst, true, [], ◌∷◌, Option, some, none, Result, ok, Error,
  is_not_found, Bool-cases, arith,
}
use rancher_operator.Common.Text.{Text, Bytes}
use rancher_operator.Api.Meta.{NamespacedName}
use rancher_operator.Api.TargetCluster.{TargetCluster}
use rancher_operator.Api.ClusterPrerequisites.{
  ClusterPrerequisites, ComponentStatuses, LoadBalancerComponent, load_balancer_type_none,
  load_balancer_type_cloud,
}
use rancher_operator.Runtime.{
  Env, Log, updated_cluster_prerequisites_status, got_target_cluster, got_cluster_prerequisites,
  exit_if-rule, or_exit-rule, attempt-rule,
}
use rancher_operator.Helm.Getter.{new_getter}
use rancher_operator.Helm.Installer.{OciCredentials}
use rancher_operator.Controller.Outcome.{Outcome}
use rancher_operator.Controller.Components.{
  reconcile_cert_manager, reconcile_ingress, load_balancer_component_status,
}
use rancher_operator.Controller.Components.Completion.{
  CertManagerDone, IngressDone, reconcile_cert_manager_done, reconcile_ingress_done,
  load_balancer_done_iff,
}
use rancher_operator.Controller.ClusterPrerequisites.{
  are_all_done, target_key, mark_components, unavailable, report,
  load_application_collection_credentials, resolve_target_kubeconfig, reconcile_components,
  target_lost, reconcile_found, reconcile,
}
use rancher_operator.Controller.ClusterPrerequisites.Status.{reconcile_of_found}

-- What holds of a report of readiness that ends the log.
abbrev WhenReady : (ClusterPrerequisites → Log → Type 0) → Outcome × Log → Type 0
WhenReady Q (o, []) = Unit
WhenReady Q (o, updated_cluster_prerequisites_status cp' _ ∷ after) =
    cp'.status.ready ≡ true → Q cp' after
WhenReady Q (o, _ ∷ _) = Unit

WhenReady-map :
    (Q Q' : ClusterPrerequisites → Log → Type 0)
    → ((cp' : ClusterPrerequisites) (after : Log) → Q cp' after → Q' cp' after)
    → (p : Outcome × Log) → WhenReady Q p
    → WhenReady Q' p
WhenReady-map Q Q' f (o, []) h = tt
WhenReady-map Q Q' f (o, updated_cluster_prerequisites_status cp' _ ∷ after) h =
    λ r. f cp' after (h r)
WhenReady-map Q Q' f (o, _ ∷ _) h = tt

-- The components of the status are those that this run found behind `before`, one after the other
-- with the credentials that it loaded first, and every one is done for a reason.
pub record ComponentsDone (env : Env) (cp cp' : ClusterPrerequisites) (k8s_version : Text)
    (kubeconfig : Bytes) (before after : Log) : Type 0 where
  pub creds : OciCredentials
  pub load_error : Option Error
  pub loaded_log : Log
  pub cert_manager_log : Log
  pub loaded :
      load_application_collection_credentials env cp before ≡ ((creds, load_error), loaded_log)
  pub cert_manager_run :
      reconcile_cert_manager env (new_getter env kubeconfig) cp.spec.cert_manager creds loaded_log
      ≡ (cp'.status.components.cert_manager, cert_manager_log)
  pub ingress_run :
      reconcile_ingress env
        (new_getter env kubeconfig)
        cp.spec.ingress
        k8s_version
        creds
        cert_manager_log
      ≡ (cp'.status.components.ingress, after)
  pub cert_manager :
      CertManagerDone env
        (new_getter env kubeconfig)
        cp.spec.cert_manager
        creds
        loaded_log
        (cp'.status.components.cert_manager, cert_manager_log)
  pub ingress :
      IngressDone env
        (new_getter env kubeconfig)
        cp.spec.ingress
        k8s_version
        creds
        cert_manager_log
        (cp'.status.components.ingress, after)
  pub load_balancer :
      (cp.spec.load_balancer ≡ none)
      ⊎ ((spec : LoadBalancerComponent) × (cp.spec.load_balancer ≡ some spec)
          × ((spec.type ≡ load_balancer_type_none) ⊎ (spec.type ≡ load_balancer_type_cloud)))

-- The target was read behind `before`, was ready, and its kubeconfig was found.
pub record IsOpen (env : Env) (cp : ClusterPrerequisites) (before : Log) : Type 0 where
  pub tc : TargetCluster
  pub kubeconfig : Bytes
  pub resolved_log : Log
  pub target : env.get_target_cluster before (target_key cp) ≡ ok tc
  pub target_ready : tc.status.ready ≡ true
  pub resolved :
      resolve_target_kubeconfig env tc (got_target_cluster (target_key cp) (ok tc) ∷ before)
      ≡ (ok kubeconfig, resolved_log)

-- The run found its way to the target cluster, and the components are done on it.
pub record Completion (env : Env) (cp cp' : ClusterPrerequisites) (before after : Log)
    : Type 0 where
  pub opened : IsOpen env cp before
  pub components :
      ComponentsDone env cp cp' opened.tc.status.kubernetes_version opened.kubeconfig
        opened.resolved_log after

unavailable-WhenReady :
    (env : Env) (Q : ClusterPrerequisites → Log → Type 0) (cp : ClusterPrerequisites)
    (reason message : Text) (log : Log)
    → WhenReady Q (unavailable env cp reason message log)
unfolding unavailable
unavailable-WhenReady env Q cp reason message log h = cc

module _ (env : Env) (cp : ClusterPrerequisites) where
  report-WhenReady :
      (Q : ClusterPrerequisites → Log → Type 0) (components : ComponentStatuses) (log : Log)
      → (are_all_done components ≡ true → Q (mark_components env cp components log).0 log)
      → WhenReady Q (report env cp components log)
  unfolding report
  report-WhenReady Q components log shown =
      or_exit-rule (WhenReady Q)
        (env.update_cluster_prerequisites_status log (mark_components env cp components log).0) _ _
        _ (λ e _ r. shown r) (λ _ _ r. shown r)

  reconcile_components-WhenReady :
      (tc : TargetCluster) (kubeconfig : Bytes) (log : Log)
      → WhenReady
          (λ cp' after. ComponentsDone env cp cp' tc.status.kubernetes_version kubeconfig log after)
          (reconcile_components env cp tc kubeconfig log)
  unfolding reconcile_components mark_components are_all_done
  reconcile_components-WhenReady tc kubeconfig log =
      let getter = new_getter env kubeconfig in
      let (loaded, first) = load_application_collection_credentials env cp log in
      let (cert_manager, second) =
        reconcile_cert_manager env getter cp.spec.cert_manager loaded.0 first in
      let (ingress, third) =
        reconcile_ingress env getter cp.spec.ingress tc.status.kubernetes_version loaded.0 second in
      let components : ComponentStatuses = record {
        cert_manager = cert_manager;
        ingress = ingress;
        load_balancer = load_balancer_component_status cp.spec.load_balancer;
      } in
      report-WhenReady
        (λ cp' after. ComponentsDone env cp cp' tc.status.kubernetes_version kubeconfig log after)
        components third
        λ all_done. record {
          creds = loaded.0;
          load_error = loaded.1;
          loaded_log = first;
          cert_manager_log = second;
          loaded = refl;
          cert_manager_run = refl;
          ingress_run = refl;
          cert_manager = reconcile_cert_manager_done env getter _ _ first _ _ refl (ground arith);
          ingress = reconcile_ingress_done env getter _ _ _ second _ _ refl (ground arith);
          load_balancer = (load_balancer_done_iff cp.spec.load_balancer).0 (ground arith);
        }

  target_lost-WhenReady :
      (Q : ClusterPrerequisites → Log → Type 0) (e : Error) (name : NamespacedName)
      (r : Result TargetCluster) (log : Log)
      → WhenReady Q (target_lost env cp e (got_target_cluster name r ∷ log))
  unfolding target_lost
  target_lost-WhenReady Q e name r log = elim (Bool-cases (is_not_found e)) [
    | inl missing ↦ rw missing (unavailable-WhenReady env Q cp _ _ _)
    | inr different ↦ rw different tt
  ]

  reconcile_found-WhenReady :
      (before : Log)
      → WhenReady (λ cp' after. Completion env cp cp' before after) (reconcile_found env cp before)
  unfolding reconcile_found
  reconcile_found-WhenReady before =
      let Q : ClusterPrerequisites → Log → Type 0 =
        λ cp' after. Completion env cp cp' before after in
      let P = WhenReady Q in
      or_exit-rule P (env.get_target_cluster before (target_key cp)) _ _ _
        (λ e _. target_lost-WhenReady Q e _ _ before)
        λ tc target.
          exit_if-rule P (not tc.status.ready) _ _ _ (λ _. unavailable-WhenReady env Q cp _ _ _)
            λ target_ready.
              attempt-rule P (resolve_target_kubeconfig env tc _) _ _
                (λ e after _. unavailable-WhenReady env Q cp _ _ after)
                λ kubeconfig resolved_log resolved.
                  WhenReady-map
                    (λ cp' after.
                      ComponentsDone env cp cp' tc.status.kubernetes_version kubeconfig resolved_log
                        after)
                    Q
                    (λ cp' after components. record {
                      opened = record {
                        tc = tc;
                        kubeconfig = kubeconfig;
                        resolved_log = resolved_log;
                        target = target;
                        target_ready = ground arith;
                        resolved = rw (← target) resolved;
                      };
                      components = components;
                    })
                    (reconcile_components env cp tc kubeconfig resolved_log)
                    (reconcile_components-WhenReady tc kubeconfig resolved_log)

  -- A run that finds the resource and ends by writing `Ready` has this evidence for it: the
  -- TargetCluster was read and ready, its kubeconfig was found, and each component that this run
  -- looked at is done, cert-manager and the ingress with the credentials that it loaded.
  pub reconcile_ready-Completion :
      (req : NamespacedName) (cp' : ClusterPrerequisites) (log after : Log)
      (written : Result (Unit {0}))
      → env.get_cluster_prerequisites log req ≡ ok cp
      → (reconcile env req log).1 ≡ updated_cluster_prerequisites_status cp' written ∷ after
      → cp'.status.ready ≡ true
      → Completion env cp cp' (got_cluster_prerequisites req (ok cp) ∷ log) after
  reconcile_ready-Completion req cp' log after written found ends =
      let before = got_cluster_prerequisites req (ok cp) ∷ log in
      let Q : ClusterPrerequisites → Log → Type 0 =
        λ cp' after. Completion env cp cp' before after in
      subst (λ l. WhenReady Q ((reconcile env req log).0, l)) ends
        (subst (WhenReady Q) (sym (reconcile_of_found env req cp log found))
          (reconcile_found-WhenReady before))
