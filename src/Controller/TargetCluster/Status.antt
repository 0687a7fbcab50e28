-- ===== src/Controller/TargetCluster/Status.antt =====
-- What a run of the TargetCluster reconciler writes.
use rancher_operator.Common.{
  ℕ, ◌≡◌, sym, subst, ◌⊎◌, inl, inr, not, refl, true, some, List, [], ◌∷◌, ok, Error, is_not_found,
  Bool-cases, error_of, arith, length,
}
use rancher_operator.Common.Text.{Text, Bytes, text_eq}
use rancher_operator.Api.Meta.{secret_value, NamespacedName}
use rancher_operator.Api.TargetCluster.{TargetCluster, target_cluster_type_byo}
use rancher_operator.Runtime.{
  target_cluster_writes, Env, Log, got_target_cluster, updated_target_cluster_status, or_exit-rule,
  exit_if-rule, some_or_exit-rule,
}
use rancher_operator.Controller.Outcome.{failed, Outcome, condition_type_available}
use rancher_operator.Controller.Conditions.{
  status_of, SetsConditions, find_condition, status_at, status_at-set, kept_or_available,
}
use rancher_operator.Controller.TargetCluster.{
  lookup_failed, nonempty, mark_unavailable, mark_available, unavailable, available, probe,
  reconcile_found, reconcile,
}

-- The status of `tc'` is a report on the generation of `tc`, in which `Ready` and the condition
-- `Available` agree; nothing but the status has changed, nor any condition of another type.
pub record IsReport (tc tc' : TargetCluster) : Type 0 where
  pub same_meta : tc'.meta ≡ tc.meta
  pub same_spec : tc'.spec ≡ tc.spec
  pub current : tc'.status.observed_generation ≡ tc.meta.generation
  pub agrees :
      status_at (find_condition condition_type_available tc'.status.conditions)
      ≡ some (status_of tc'.status.ready)
  pub others :
      (t : Text)
      → (text_eq condition_type_available t ≡ true)
        ⊎ (find_condition t tc'.status.conditions ≡ find_condition t tc.status.conditions)

-- The last call of the run wrote a report on `tc`, with no write since those of `ws`, and the
-- outcome has the error of that call.
abbrev pub Reports : TargetCluster → List TargetCluster → Outcome × Log → Type 0
Reports tc ws (o, []) = ⊥
Reports tc ws (o, updated_target_cluster_status tc' r ∷ log) =
    IsReport tc tc' × (target_cluster_writes log ≡ ws) × (o.error ≡ error_of r)
Reports tc ws (o, _ ∷ _) = ⊥

-- Either the run reported on `tc`, or it wrote nothing and returned an error.
abbrev pub Settles : TargetCluster → List TargetCluster → Outcome × Log → Type 0
Settles tc ws p =
    Reports tc ws p ⊎ ((target_cluster_writes p.1 ≡ ws) × ((e : Error) × (p.0 ≡ failed e)))

module _ (env : Env) where
  pub reconcile_of_found :
      (req : NamespacedName) (tc : TargetCluster) (log : Log)
      → env.get_target_cluster log req ≡ ok tc
      → reconcile env req log ≡ reconcile_found env tc (got_target_cluster req (ok tc) ∷ log)
  unfolding reconcile
  reconcile_of_found req tc log found = rw found

module _ (env : Env) (laws : SetsConditions env) where
  mark_unavailable-IsReport :
      (tc : TargetCluster) (reason message : Text) (log : Log)
      → IsReport tc (mark_unavailable env tc reason message log).0
  unfolding mark_unavailable
  mark_unavailable-IsReport tc reason message log = record {
    same_meta = refl;
    same_spec = refl;
    current = refl;
    agrees = status_at-set env laws _ _ _ _ _ _;
    others = λ t. kept_or_available env laws _ _ _ _ _ _ t;
  }

  mark_available-IsReport :
      (tc : TargetCluster) (version : Text) (nodes : ℕ) (log : Log)
      → IsReport tc (mark_available env tc version nodes log).0
  unfolding mark_available
  mark_available-IsReport tc version nodes log = record {
    same_meta = refl;
    same_spec = refl;
    current = refl;
    agrees = status_at-set env laws _ _ _ _ _ _;
    others = λ t. kept_or_available env laws _ _ _ _ _ _ t;
  }

  unavailable-Reports :
      (tc : TargetCluster) (reason message : Text) (t : ℕ) (log : Log)
      → Reports tc (target_cluster_writes log) (unavailable env tc reason message t log)
  unfolding unavailable
  unavailable-Reports tc reason message t log =
      (mark_unavailable-IsReport tc reason message log, refl, refl)

  available-Reports :
      (tc : TargetCluster) (version : Text) (nodes : ℕ) (log : Log)
      → Reports tc (target_cluster_writes log) (available env tc version nodes log)
  unfolding available
  available-Reports tc version nodes log =
      ground (arith, mark_available-IsReport tc version nodes log)

  probe-Reports :
      (tc : TargetCluster) (kubeconfig : Bytes) (log : Log)
      → Reports tc (target_cluster_writes log) (probe env tc kubeconfig log)
  unfolding probe
  probe-Reports tc kubeconfig log =
      or_exit-rule (Reports tc (target_cluster_writes log))
        (env.rest_config_from_kubeconfig kubeconfig) log _ _
        (λ e _. unavailable-Reports tc _ _ _ log)
        λ config _.
          or_exit-rule (Reports tc (target_cluster_writes log)) (env.new_clientset _) log _ _
            (λ e _. unavailable-Reports tc _ _ _ log)
            λ clientset _.
              or_exit-rule (Reports tc (target_cluster_writes log))
                (env.server_version log clientset) _ _ _ (λ e _. unavailable-Reports tc _ _ _ _)
                λ version _.
                  or_exit-rule (Reports tc (target_cluster_writes log)) (env.list_nodes _ clientset)
                    _ _ _ (λ e _. unavailable-Reports tc _ _ _ _)
                    λ nodes _. available-Reports tc version (length nodes) _

  lookup-Settles :
      (tc : TargetCluster) (ref : Text) (e : Error) (log : Log)
      → Settles tc (target_cluster_writes log) (lookup_failed env tc ref e log)
  unfolding lookup_failed
  lookup-Settles tc ref e log = elim (Bool-cases (is_not_found e)) [
    | inl missing ↦ rw missing (inl (unavailable-Reports tc _ _ _ log))
    | inr other ↦ rw other (inr (refl, (_, refl)))
  ]

  reconcile_found-Settles :
      (tc : TargetCluster) (log : Log)
      → Settles tc (target_cluster_writes log) (reconcile_found env tc log)
  unfolding reconcile_found
  reconcile_found-Settles tc log =
      let P = Settles tc (target_cluster_writes log) in
      exit_if-rule P (not (text_eq tc.spec.type target_cluster_type_byo)) log _ _
        (λ _. inl (unavailable-Reports tc _ _ _ log))
        λ _.
          some_or_exit-rule P tc.spec.byo log _ _ (λ _. inl (unavailable-Reports tc _ _ _ log))
            λ byo _.
              let name : NamespacedName = record {
                namespace = tc.meta.namespace;
                name = byo.kubeconfig_secret_ref.name;
              } in
              or_exit-rule P (env.get_secret log name) _ _ _ (λ e _. lookup-Settles tc _ e _)
                λ secret _.
                  some_or_exit-rule P (nonempty (secret_value secret _)) _ _ _
                    (λ _. inl (unavailable-Reports tc _ _ _ _))
                    λ kubeconfig _. inl (probe-Reports tc kubeconfig _)

  -- When the resource is found and conditions are set as documented, the run writes exactly one
  -- report on it as its last call, whose error it returns, or it writes nothing and returns an
  -- error. A report leaves all but the status alone, is on the current generation, and its `Ready`
  -- agrees with the condition `Available`; conditions of other types stay.
  pub reconcile-Settles :
      (req : NamespacedName) (tc : TargetCluster) (log : Log)
      → env.get_target_cluster log req ≡ ok tc
      → Settles tc (target_cluster_writes log) (reconcile env req log)
  reconcile-Settles req tc log found =
      subst (Settles tc (target_cluster_writes log)) (sym (reconcile_of_found env req tc log found))
        (reconcile_found-Settles tc (got_target_cluster req (ok tc) ∷ log))
