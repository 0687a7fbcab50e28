-- ===== src/Controller/ClusterPrerequisites/Status.antt =====
-- What a run of the ClusterPrerequisites reconciler writes.
use rancher_operator.Common.{
  ℕ, ◌≡◌, ◌⊎◌, inl, inr, not, refl, sym, ap, ◌∙◌, subst, Bool, true, false, List, [], ◌∷◌, some,
  Result, ok, Error, error_of, is_not_found, Bool-cases, arith,
}
use rancher_operator.Common.Text.{Text, Bytes, text_eq}
use rancher_operator.Api.Meta.{Condition, NamespacedName}
use rancher_operator.Api.TargetCluster.{TargetCluster}
use rancher_operator.Api.ClusterPrerequisites.{ClusterPrerequisites, ComponentStatuses}
use rancher_operator.Runtime.{
  Env, Log, prerequisites_writes, prerequisites_writes-management, management,
  updated_cluster_prerequisites_status, got_cluster_prerequisites, exit_if-rule, or_exit-rule,
  attempt-rule,
}
use rancher_operator.Helm.Getter.{new_getter}
use rancher_operator.Controller.Outcome.{Outcome, failed, condition_type_available}
use rancher_operator.Controller.Conditions.{
  SetsConditions, find_condition, status_of, status_at, status_at-set, kept_or_available,
}
use rancher_operator.Controller.Components.{
  load_balancer_component_status, reconcile_cert_manager, reconcile_ingress,
}
use rancher_operator.Controller.Components.Laws.{
  management-reconcile_cert_manager, management-reconcile_ingress,
}
use rancher_operator.Controller.ClusterPrerequisites.{
  mark_unavailable, unavailable, load_application_collection_credentials, resolve_target_kubeconfig,
  are_all_done, components_condition, target_key, reason_kubeconfig_missing, mark_components,
  report, reconcile_components, target_lost, reconcile_found, reconcile,
}

-- The status of `cp'` is a report on the generation of `cp`, in which `Ready` and the condition
-- `Available` agree; nothing but the status has changed, nor any condition of another type.
pub record IsReport (cp cp' : ClusterPrerequisites) : Type 0 where
  pub same_meta : cp'.meta ≡ cp.meta
  pub same_spec : cp'.spec ≡ cp.spec
  pub current : cp'.status.observed_generation ≡ cp.meta.generation
  pub agrees :
      status_at (find_condition condition_type_available cp'.status.conditions)
      ≡ some (status_of cp'.status.ready)
  pub others :
      (t : Text)
      → (text_eq condition_type_available t ≡ true)
        ⊎ (find_condition t cp'.status.conditions ≡ find_condition t cp.status.conditions)

-- The last call of the run wrote a report on `cp`, with no write since those of `ws`, and the
-- outcome has the error of that call.
abbrev pub Reports : ClusterPrerequisites → List ClusterPrerequisites → Outcome × Log → Type 0
Reports cp ws (o, []) = ⊥
Reports cp ws (o, updated_cluster_prerequisites_status cp' r ∷ log) =
    IsReport cp cp' × (prerequisites_writes log ≡ ws) × (o.error ≡ error_of r)
Reports cp ws (o, _ ∷ _) = ⊥

-- Either the run reported on `cp`, or it wrote nothing and returned an error.
abbrev pub Concludes : ClusterPrerequisites → List ClusterPrerequisites → Outcome × Log → Type 0
Concludes cp ws p =
    Reports cp ws p ⊎ ((prerequisites_writes p.1 ≡ ws) × ((e : Error) × (p.0 ≡ failed e)))

-- A part of the program that leaves the management cluster alone writes nothing there.
same_writes :
    (log log' : Log)
    → management log ≡ management log'
    → prerequisites_writes log ≡ prerequisites_writes log'
same_writes log log' e =
    sym (prerequisites_writes-management log)
    ∙ (ap prerequisites_writes e ∙ prerequisites_writes-management log')

module _ (env : Env) where
  pub reconcile_of_found :
      (req : NamespacedName) (cp : ClusterPrerequisites) (log : Log)
      → env.get_cluster_prerequisites log req ≡ ok cp
      → reconcile env req log ≡ reconcile_found env cp (got_cluster_prerequisites req (ok cp) ∷ log)
  unfolding reconcile
  reconcile_of_found req cp log found = rw found

  writes-load_credentials :
      (cp : ClusterPrerequisites) (log : Log)
      → prerequisites_writes (load_application_collection_credentials env cp log).1
        ≡ prerequisites_writes log
  unfolding load_application_collection_credentials
  writes-load_credentials cp log = ground arith

  writes-resolve :
      (tc : TargetCluster) (log : Log)
      → prerequisites_writes (resolve_target_kubeconfig env tc log).1 ≡ prerequisites_writes log
  unfolding resolve_target_kubeconfig
  writes-resolve tc log = ground arith

  writes_resolved :
      (tc : TargetCluster) (log : Log) (r : Result Bytes) (after : Log)
      → resolve_target_kubeconfig env tc log ≡ (r, after)
      → prerequisites_writes after ≡ prerequisites_writes log
  writes_resolved tc log r after p =
      sym (ap (λ (q : Result Bytes × Log). prerequisites_writes q.1) p) ∙ writes-resolve tc log

module _ (env : Env) (laws : SetsConditions env) (cp : ClusterPrerequisites) where
  mark_unavailable-IsReport :
      (reason message : Text) (log : Log)
      → IsReport cp (mark_unavailable env cp reason message log).0
  unfolding mark_unavailable
  mark_unavailable-IsReport reason message log = record {
    same_meta = refl;
    same_spec = refl;
    current = refl;
    agrees = status_at-set env laws _ _ _ _ _ _;
    others = λ t. kept_or_available env laws _ _ _ _ _ _ t;
  }

  status_at-components_condition :
      (all_ready : Bool) (log : Log) (cs : List Condition) (generation : ℕ)
      → status_at (
          find_condition condition_type_available
            (env.set_status_condition log cs (components_condition all_ready generation)))
        ≡ some (status_of all_ready)
  unfolding components_condition
  status_at-components_condition true log cs generation = status_at-set env laws log cs _ _ _ _
  status_at-components_condition false log cs generation = status_at-set env laws log cs _ _ _ _

  kept-components_condition :
      (all_ready : Bool) (log : Log) (cs : List Condition) (generation : ℕ) (t : Text)
      → (text_eq condition_type_available t ≡ true)
        ⊎ (find_condition t
              (env.set_status_condition log cs (components_condition all_ready generation))
            ≡ find_condition t cs)
  unfolding components_condition
  kept-components_condition true log cs generation t = kept_or_available env laws log cs _ _ _ _ t
  kept-components_condition false log cs generation t = kept_or_available env laws log cs _ _ _ _ t

  mark_components-IsReport :
      (components : ComponentStatuses) (log : Log)
      → IsReport cp (mark_components env cp components log).0
  unfolding mark_components
  mark_components-IsReport components log = record {
    same_meta = refl;
    same_spec = refl;
    current = refl;
    agrees = status_at-components_condition (are_all_done components) log _ _;
    others = kept-components_condition (are_all_done components) log _ _;
  }

  unavailable-Reports :
      (reason message : Text) (log : Log)
      → Reports cp (prerequisites_writes log) (unavailable env cp reason message log)
  unfolding unavailable
  unavailable-Reports reason message log =
      (mark_unavailable-IsReport reason message log, refl, refl)

  report-Reports :
      (components : ComponentStatuses) (log : Log)
      → Reports cp (prerequisites_writes log) (report env cp components log)
  unfolding report
  report-Reports components log = ground (arith, mark_components-IsReport components log)

  reconcile_components-Reports :
      (tc : TargetCluster) (kubeconfig : Bytes) (log : Log)
      → Reports cp (prerequisites_writes log) (reconcile_components env cp tc kubeconfig log)
  unfolding reconcile_components
  reconcile_components-Reports tc kubeconfig log =
      let getter = new_getter env kubeconfig in
      let (loaded, first) = load_application_collection_credentials env cp log in
      let (cert_manager, second) =
        reconcile_cert_manager env getter cp.spec.cert_manager loaded.0 first in
      let (ingress, third) =
        reconcile_ingress env getter cp.spec.ingress tc.status.kubernetes_version loaded.0 second in
      let unwritten : prerequisites_writes third ≡ prerequisites_writes log =
        same_writes third second (management-reconcile_ingress env getter _ _ _ second)
        ∙ (same_writes second first (management-reconcile_cert_manager env getter _ _ first)
            ∙ writes-load_credentials env cp log) in
      let components : ComponentStatuses = record {
        cert_manager = cert_manager;
        ingress = ingress;
        load_balancer = load_balancer_component_status cp.spec.load_balancer;
      } in
      subst (λ ws. Reports cp ws (report env cp components third)) unwritten
        (report-Reports components third)

  target_lost-Concludes :
      (e : Error) (log : Log) → Concludes cp (prerequisites_writes log) (target_lost env cp e log)
  unfolding target_lost
  target_lost-Concludes e log = elim (Bool-cases (is_not_found e)) [
    | inl missing ↦ rw missing (inl (unavailable-Reports _ _ log))
    | inr different ↦ rw different (inr (refl, (_, refl)))
  ]

  reconcile_found-Concludes :
      (log : Log) → Concludes cp (prerequisites_writes log) (reconcile_found env cp log)
  unfolding reconcile_found
  reconcile_found-Concludes log =
      let P = Concludes cp (prerequisites_writes log) in
      or_exit-rule P (env.get_target_cluster log (target_key cp)) _ _ _
        (λ e _. target_lost-Concludes e _)
        λ tc _.
          exit_if-rule P (not tc.status.ready) _ _ _ (λ _. inl (unavailable-Reports _ _ _))
            λ _.
              attempt-rule P (resolve_target_kubeconfig env tc _) _ _
                (λ e after p.
                  subst
                    (λ ws.
                      Concludes cp ws
                        (unavailable env cp reason_kubeconfig_missing e.message after))
                    (writes_resolved env tc _ _ after p) (inl (unavailable-Reports _ _ after)))
                λ kubeconfig after p.
                  subst (λ ws. Concludes cp ws (reconcile_components env cp tc kubeconfig after))
                    (writes_resolved env tc _ _ after p)
                    (inl (reconcile_components-Reports tc kubeconfig after))

  -- When the resource is found and conditions are set as documented, the run writes exactly one
  -- report on it as its last call, whose error it returns, or it writes nothing and returns an
  -- error. A report leaves all but the status alone, is on the current generation, and its `Ready`
  -- agrees with the condition `Available`; conditions of other types stay.
  pub reconcile-Concludes :
      (req : NamespacedName) (log : Log)
      → env.get_cluster_prerequisites log req ≡ ok cp
      → Concludes cp (prerequisites_writes log) (reconcile env req log)
  reconcile-Concludes req log found =
      subst (Concludes cp (prerequisites_writes log))
        (sym (reconcile_of_found env req cp log found))
        (reconcile_found-Concludes (got_cluster_prerequisites req (ok cp) ∷ log))
