-- ===== src/Controller/ClusterPrerequisites/Isolation.antt =====
-- When the ClusterPrerequisites reconciler leaves the target cluster and the registry alone.
use rancher_operator.Common.{
  ◌≡◌, ◌⊎◌, inl, inr, not, refl, sym, ap, ◌∙◌, subst, ◌∷◌, Result, ok, Error, arith,
}
use rancher_operator.Common.Text.{Text, Bytes}
use rancher_operator.Api.Meta.{NamespacedName}
use rancher_operator.Api.TargetCluster.{TargetCluster}
use rancher_operator.Api.ClusterPrerequisites.{ClusterPrerequisites}
use rancher_operator.Runtime.{
  Env, Log, remote, got_cluster_prerequisites, exit_if-rule, or_exit-rule, attempt-rule,
}
use rancher_operator.Controller.Outcome.{Outcome}
use rancher_operator.Controller.ClusterPrerequisites.{
  target_key, unavailable, resolve_target_kubeconfig, target_lost, reconcile_found, reconcile,
}
use rancher_operator.Controller.ClusterPrerequisites.Status.{reconcile_of_found}
use rancher_operator.Controller.ClusterPrerequisites.Readiness.{IsOpen}

module _ (env : Env) (cp : ClusterPrerequisites) where
  remote-unavailable :
      (reason message : Text) (log : Log)
      → remote (unavailable env cp reason message log).1 ≡ remote log
  unfolding unavailable
  remote-unavailable reason message log = refl

  remote-target_lost : (e : Error) (log : Log) → remote (target_lost env cp e log).1 ≡ remote log
  unfolding target_lost
  remote-target_lost e log = grind (arith, remote-unavailable)

  remote-resolve :
      (tc : TargetCluster) (log : Log)
      → remote (resolve_target_kubeconfig env tc log).1 ≡ remote log
  unfolding resolve_target_kubeconfig
  remote-resolve tc log = ground arith

  reconcile_found-IsOpen :
      (before : Log)
      → (remote (reconcile_found env cp before).1 ≡ remote before) ⊎ IsOpen env cp before
  unfolding reconcile_found
  reconcile_found-IsOpen before =
      let P : Outcome × Log → Type 0 = λ p. (remote p.1 ≡ remote before) ⊎ IsOpen env cp before in
      or_exit-rule P (env.get_target_cluster before (target_key cp)) _ _ _
        (λ e _. inl (remote-target_lost e _))
        λ tc target.
          exit_if-rule P (not tc.status.ready) _ _ _ (λ _. inl (remote-unavailable _ _ _))
            λ target_ready.
              attempt-rule P (resolve_target_kubeconfig env tc _) _ _
                (λ e after p. inl (
                  remote-unavailable _ _ after
                  ∙ (sym (ap (λ (q : Result Bytes × Log). remote q.1) p) ∙ remote-resolve tc _)))
                λ kubeconfig resolved_log resolved. inr (record {
                  tc = tc;
                  kubeconfig = kubeconfig;
                  resolved_log = resolved_log;
                  target = target;
                  target_ready = ground arith;
                  resolved = rw (← target) resolved;
                })

  -- A run that finds the resource makes no call to the target cluster, to the registry or to Helm,
  -- unless the TargetCluster was read and ready and its kubeconfig was found.
  pub reconcile-IsOpen :
      (req : NamespacedName) (log : Log)
      → env.get_cluster_prerequisites log req ≡ ok cp
      → (remote (reconcile env req log).1 ≡ remote log)
        ⊎ IsOpen env cp (got_cluster_prerequisites req (ok cp) ∷ log)
  reconcile-IsOpen req log found =
      let before = got_cluster_prerequisites req (ok cp) ∷ log in
      subst (λ (p : Outcome × Log). (remote p.1 ≡ remote log) ⊎ IsOpen env cp before)
        (sym (reconcile_of_found env req cp log found)) (reconcile_found-IsOpen before)
