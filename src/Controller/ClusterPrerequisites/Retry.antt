-- ===== src/Controller/ClusterPrerequisites/Retry.antt =====
-- When the ClusterPrerequisites reconciler runs again.
use rancher_operator.Common.{◌≡◌, inl, inr, refl, not, some, Error, is_not_found, Bool-cases}
use rancher_operator.Common.Text.{Text, Bytes}
use rancher_operator.Api.TargetCluster.{TargetCluster}
use rancher_operator.Api.ClusterPrerequisites.{ClusterPrerequisites, ComponentStatuses}
use rancher_operator.Runtime.{Env, Log, exit_if-rule, or_exit-rule, attempt-rule}
use rancher_operator.Controller.Outcome.{Outcome, requeue_after_success, requeue_after_error}
use rancher_operator.Controller.ClusterPrerequisites.{
  unavailable, report, reconcile_components, target_lost, target_key, resolve_target_kubeconfig,
  reconcile_found, mark_components,
}

-- controller-runtime runs again on an error, or else after the time that the outcome states.
pub data IsScheduled (o : Outcome) : Type 0 where
  on_error : (e : Error) → o.error ≡ some e → IsScheduled o
  soon : o.requeue_after ≡ requeue_after_error → IsScheduled o
  later : o.requeue_after ≡ requeue_after_success → IsScheduled o

module _ (env : Env) (cp : ClusterPrerequisites) where
  unavailable-IsScheduled :
      (reason message : Text) (log : Log) → IsScheduled (unavailable env cp reason message log).0
  unfolding unavailable
  unavailable-IsScheduled reason message log = IsScheduled.soon refl

  report-IsScheduled :
      (components : ComponentStatuses) (log : Log) → IsScheduled (report env cp components log).0
  unfolding report
  report-IsScheduled components log =
      let P : Outcome × Log → Type 0 = λ p. IsScheduled p.0 in
      or_exit-rule P
        (env.update_cluster_prerequisites_status log (mark_components env cp components log).0) _ _
        _ (λ e _. IsScheduled.on_error e refl) λ _ _. IsScheduled.later refl

  reconcile_components-IsScheduled :
      (tc : TargetCluster) (kubeconfig : Bytes) (log : Log)
      → IsScheduled (reconcile_components env cp tc kubeconfig log).0
  unfolding reconcile_components
  reconcile_components-IsScheduled tc kubeconfig log = report-IsScheduled _ _

  target_lost-IsScheduled : (e : Error) (log : Log) → IsScheduled (target_lost env cp e log).0
  unfolding target_lost
  target_lost-IsScheduled e log = elim (Bool-cases (is_not_found e)) [
    | inl missing ↦ rw missing (unavailable-IsScheduled _ _ log)
    | inr different ↦ rw different (IsScheduled.on_error _ refl)
  ]

  -- Every run on a resource that was found leads to another: on the error that it returns, or after
  -- 30 seconds or five minutes.
  pub reconcile_found-IsScheduled : (log : Log) → IsScheduled (reconcile_found env cp log).0
  unfolding reconcile_found
  reconcile_found-IsScheduled log =
      let P : Outcome × Log → Type 0 = λ p. IsScheduled p.0 in
      or_exit-rule P (env.get_target_cluster log (target_key cp)) _ _ _
        (λ e _. target_lost-IsScheduled e _)
        λ tc _.
          exit_if-rule P (not tc.status.ready) _ _ _ (λ _. unavailable-IsScheduled _ _ _)
            λ _.
              attempt-rule P (resolve_target_kubeconfig env tc _) _ _
                (λ e after _. unavailable-IsScheduled _ _ after)
                λ kubeconfig after _. reconcile_components-IsScheduled tc kubeconfig after
