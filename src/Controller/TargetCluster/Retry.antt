-- ===== src/Controller/TargetCluster/Retry.antt =====
-- When the TargetCluster reconciler is not scheduled again.
use rancher_operator.Common.{
  ℕ, ◌≡◌, ◌⊎◌, inl, inr, not, false, some, none, ok, err, Error, Result, ap, refl, ◌∷◌, arith,
  length,
}
use rancher_operator.Common.Text.{Text, Bytes, text_eq}
use rancher_operator.Common.Text.Laws.{text_eq_iff}
use rancher_operator.Api.Meta.{Secret, secret_value}
use rancher_operator.Api.TargetCluster.{TargetCluster, ByoSpec, target_cluster_type_byo}
use rancher_operator.Runtime.{
  updated_target_cluster_status, got_secret, Env, Log, RestConfig, or_exit-rule, exit_if-rule,
  some_or_exit-rule,
}
use rancher_operator.Controller.Outcome.{Outcome, done, after_write, requeue_after_error}
use rancher_operator.Controller.TargetCluster.{
  reason_invalid_kubeconfig, lookup_failed, probe_timeout, kubeconfig_key, nonempty, unavailable,
  available, probe, reconcile_found,
}
use rancher_operator.Controller.TargetCluster.Readiness.{secret_name}

-- The kubeconfig does not parse, or no client can be built from it.
abbrev pub IsRejected : Env → Bytes → Type 0
IsRejected env kubeconfig =
    ((e : Error) × (env.rest_config_from_kubeconfig kubeconfig ≡ err e))
    ⊎ ((config : RestConfig) × (e : Error) × (env.rest_config_from_kubeconfig kubeconfig
          ≡ ok config)
        × (env.new_clientset (record config { timeout = probe_timeout }) ≡ err e))

-- What only another spec, or another kubeconfig in the Secret, can mend.
pub data Hopeless (env : Env) (tc : TargetCluster) (before : Log) : Type 0 where
  unsupported : text_eq tc.spec.type target_cluster_type_byo ≡ false → Hopeless env tc before
  unspecified : tc.spec.byo ≡ none → Hopeless env tc before
  rejected :
      (byo : ByoSpec) (secret : Secret) (kubeconfig : Bytes)
      → tc.spec.byo ≡ some byo
      → env.get_secret before (secret_name tc byo) ≡ ok secret
      → nonempty (secret_value secret (kubeconfig_key byo.kubeconfig_secret_ref)) ≡ some kubeconfig
      → IsRejected env kubeconfig
      → Hopeless env tc before

-- The run behind `before` writes the resource as not ready. It ends with the error of this write, if it
-- has one, and with no delay: if the write succeeds, the run asks for no other one.
pub record GivesUp (before : Log) (p : Outcome × Log) : Type 0 where
  pub tc' : TargetCluster
  pub written : Result (Unit {0})
  pub calls : p.1 ≡ updated_target_cluster_status tc' written ∷ before
  pub not_ready : tc'.status.ready ≡ false
  pub outcome : p.0 ≡ after_write 0 written
  pub settled : written ≡ ok tt → p.0 ≡ done

unavailable-GivesUp :
    (env : Env) (tc : TargetCluster) (reason message : Text) (log : Log)
    → GivesUp log (unavailable env tc reason message 0 log)
unfolding unavailable
unavailable-GivesUp env tc reason message log = record {
  tc' = _;
  written = _;
  calls = refl;
  not_ready = refl;
  outcome = refl;
  settled = ap (after_write 0);
}

probe-GivesUp :
    (env : Env) (tc : TargetCluster) (kubeconfig : Bytes) (log : Log)
    → IsRejected env kubeconfig
    → GivesUp log (probe env tc kubeconfig log)
unfolding probe
probe-GivesUp env tc kubeconfig log (inl (e, bad)) =
    rw bad (unavailable-GivesUp env tc reason_invalid_kubeconfig _ log)
probe-GivesUp env tc kubeconfig log (inr (config, e, parsed, bad)) =
    rw (parsed, bad) (unavailable-GivesUp env tc reason_invalid_kubeconfig _ log)

module _ (env : Env) (tc : TargetCluster) where
  available-ne-done :
      (version : Text) (nodes : ℕ) (log : Log) → ¬ ((available env tc version nodes log).0 ≡ done)
  unfolding available
  available-ne-done version nodes log h = ground arith

  unavailable_later-ne-done :
      (reason message : Text) (log : Log)
      → ¬ ((unavailable env tc reason message requeue_after_error log).0 ≡ done)
  unfolding unavailable
  unavailable_later-ne-done reason message log h = ground arith

  lookup_failed-ne-done :
      (ref : Text) (e : Error) (log : Log) → ¬ ((lookup_failed env tc ref e log).0 ≡ done)
  unfolding lookup_failed unavailable
  lookup_failed-ne-done ref e log h = ground arith

  probe-done :
      (kubeconfig : Bytes) (log : Log)
      → (probe env tc kubeconfig log).0 ≡ done
      → IsRejected env kubeconfig
  unfolding probe
  probe-done kubeconfig log =
      let P : Outcome × Log → Type 0 = λ p. p.0 ≡ done → IsRejected env kubeconfig in
      or_exit-rule P (env.rest_config_from_kubeconfig kubeconfig) log _ _ (λ e bad _. inl (e, bad))
        λ config parsed.
          or_exit-rule P (env.new_clientset _) log _ _ (λ e bad _. inr (config, e, parsed, bad))
            λ clientset _.
              or_exit-rule P (env.server_version log clientset) _ _ _
                (λ e _ h. absurd (unavailable_later-ne-done _ _ _ h))
                λ version _.
                  or_exit-rule P (env.list_nodes _ clientset) _ _ _
                    (λ e _ h. absurd (unavailable_later-ne-done _ _ _ h))
                    λ nodes _ h. absurd (available-ne-done version (length nodes) _ h)

  -- A run on a resource ends with no error and is not scheduled again only if the type is not
  -- supported, the BYO spec is missing, or the kubeconfig in the Secret was rejected.
  pub reconcile_found-Hopeless :
      (before : Log) → (reconcile_found env tc before).0 ≡ done → Hopeless env tc before
  unfolding reconcile_found
  reconcile_found-Hopeless before =
      let P : Outcome × Log → Type 0 = λ p. p.0 ≡ done → Hopeless env tc before in
      exit_if-rule P (not (text_eq tc.spec.type target_cluster_type_byo)) before _ _
        (λ other _. Hopeless.unsupported (ground arith))
        λ _.
          some_or_exit-rule P tc.spec.byo before _ _ (λ absent _. Hopeless.unspecified absent)
            λ byo present.
              or_exit-rule P (env.get_secret before (secret_name tc byo)) _ _ _
                (λ e _ h. absurd (lookup_failed-ne-done _ e _ h))
                λ secret got.
                  some_or_exit-rule P (nonempty (secret_value secret _)) _ _ _
                    (λ _ h. absurd (unavailable_later-ne-done _ _ _ h))
                    λ kubeconfig found h.
                      Hopeless.rejected byo secret kubeconfig present got found
                        (probe-done kubeconfig _ h)

  -- When the resource is in BYO mode, its Secret is read, and the kubeconfig that this holds is
  -- rejected, then the run writes the resource as not ready, asks for no other run by a delay, and ends
  -- with no error but that of this write; if the write succeeds it thus asks for no other run at all,
  -- although another kubeconfig in the Secret would help.
  pub reconcile_found_rejected :
      (before : Log) (byo : ByoSpec) (secret : Secret) (kubeconfig : Bytes)
      → tc.spec.type ≡ target_cluster_type_byo
      → tc.spec.byo ≡ some byo
      → env.get_secret before (secret_name tc byo) ≡ ok secret
      → nonempty (secret_value secret (kubeconfig_key byo.kubeconfig_secret_ref)) ≡ some kubeconfig
      → IsRejected env kubeconfig
      → GivesUp
          (got_secret (secret_name tc byo) (ok secret) ∷ before)
          (reconcile_found env tc before)
  unfolding reconcile_found
  reconcile_found_rejected before byo secret kubeconfig is_byo present got found bad =
      let same = (text_eq_iff tc.spec.type target_cluster_type_byo).1 is_byo in
      rw (same, present, got, found) (probe-GivesUp env _ kubeconfig _ bad)
