-- ===== src/Controller/TargetCluster/Convergence.antt =====
-- Repeated runs of the TargetCluster reconciler against an unchanged world.
use rancher_operator.Common.{
  ℕ, ◌≡◌, inl, inr, not, refl, ◌++◌, subst, Bool-cases, Option, some, none, [], ◌∷◌, Result, Error,
  is_not_found, arith,
}
use rancher_operator.Common.Text.{codes, Text, Bytes, text_eq, decimal}
use rancher_operator.Api.Meta.{
  condition_true, condition_false, NamespacedName, Secret, secret_value,
}
use rancher_operator.Api.TargetCluster.{TargetCluster, TargetClusterStatus, target_cluster_type_byo}
use rancher_operator.Runtime.{
  Env, Log, Clientset, updated_target_cluster_status, or_exit-pair, exit_if-pair, some_or_exit-pair,
  got_secret,
}
use rancher_operator.Controller.Outcome.{Outcome}
use rancher_operator.Controller.Conditions.{SetsConditions, available_condition}
use rancher_operator.Controller.TargetCluster.{
  reason_available, mark_available, write_status, lookup_failed, probe_timeout, kubeconfig_key,
  nonempty, unavailable, available, probe, reconcile_found,
}

-- The Secrets and the target clusters answer alike at any time.
pub record IsSteady (env : Env) : Type 0 where
  pub secret :
      (log later : Log) (name : NamespacedName)
      → env.get_secret log name ≡ env.get_secret later name
  pub version :
      (log later : Log) (c : Clientset) → env.server_version log c ≡ env.server_version later c
  pub nodes : (log later : Log) (c : Clientset) → env.list_nodes log c ≡ env.list_nodes later c

-- The object whose status the last call wrote.
abbrev pub written : Outcome × Log → Option TargetCluster
written (o, []) = none
written (o, updated_target_cluster_status tc _ ∷ log) = some tc
written (o, _ ∷ log) = none

-- The first run changes no more than the status of `tc`; if `s` is the status that it wrote, then the
-- second run writes the same object.
record Repeats (tc : TargetCluster) (s : TargetClusterStatus) (p q : Outcome × Log) : Type 0 where
  only_status :
      (tc' : TargetCluster) → written p ≡ some tc' → record tc { status = tc'.status } ≡ tc'
  again_written :
      (tc' : TargetCluster) → written p ≡ some tc' → s ≡ tc'.status → written q ≡ some tc'

available-writes :
    (env : Env) (tc : TargetCluster) (version : Text) (n : ℕ) (log : Log)
    → written (available env tc version n log) ≡ some (mark_available env tc version n log).0
unfolding available write_status
available-writes env tc version n log = ground arith

module _ (env : Env) (laws : SetsConditions env) (tc : TargetCluster)
    (s : TargetClusterStatus) where
  abbrev again : TargetCluster
  again = record tc { status = s }

  unavailable-Repeats :
      (reason message : Text) (t : ℕ) (log later : Log)
      → Repeats tc s
          (unavailable env tc reason message t log)
          (unavailable env again reason message t later)
  unfolding unavailable
  unavailable-Repeats reason message t log later = record {
    only_status = λ tc' h. ground arith;
    again_written = λ tc' h same. ground (
      arith,
      laws.settled log later tc.status.conditions
          (available_condition condition_false tc.meta.generation reason message),
    );
  }

  available-Repeats :
      (version : Text) (n : ℕ) (log later : Log)
      → Repeats tc s (available env tc version n log) (available env again version n later)
  unfolding mark_available
  available-Repeats version n log later = record {
    only_status = λ tc' h. ground (arith, available-writes env tc version n log);
    again_written = λ tc' h same.
        let c = available_condition condition_true tc.meta.generation reason_available (
          codes "target cluster reachable ("
          ++ (decimal n ++ (codes " nodes, " ++ (version ++ codes ")")))) in
        ground (
          arith,
          available-writes env tc version n log,
          available-writes env again version n later,
          laws.settled log later tc.status.conditions c,
        );
  }

  lookup_failed-Repeats :
      (name : Text) (e : Error) (r r' : Result Secret) (at : NamespacedName) (log later : Log)
      → Repeats tc s
          (lookup_failed env tc name e (got_secret at r ∷ log))
          (lookup_failed env again name e (got_secret at r' ∷ later))
  unfolding lookup_failed
  lookup_failed-Repeats name e r r' at log later = elim (Bool-cases (is_not_found e)) [
    | inl missing ↦ rw missing (unavailable-Repeats _ _ _ _ _)
    | inr other ↦ rw other (record { only_status = λ tc' h. cc; again_written = λ tc' h. cc })
  ]

  module _ (steady : IsSteady env) where
    probe-Repeats :
        (kubeconfig : Bytes) (log later : Log)
        → Repeats tc s (probe env tc kubeconfig log) (probe env again kubeconfig later)
    unfolding probe
    probe-Repeats kubeconfig log later =
        let r = env.rest_config_from_kubeconfig kubeconfig in
        or_exit-pair (Repeats tc s) r r log later _ _ _ _ refl
          (λ e. unavailable-Repeats _ _ _ log later)
          λ config.
            let r = env.new_clientset (record config { timeout = probe_timeout }) in
            or_exit-pair (Repeats tc s) r r log later _ _ _ _ refl
              (λ e. unavailable-Repeats _ _ _ log later)
              λ c.
                or_exit-pair (Repeats tc s) (env.server_version log c) (env.server_version later c)
                  _ _ _ _ _ _ (steady.version later log c) (λ e. unavailable-Repeats _ _ _ _ _)
                  λ version.
                    or_exit-pair (Repeats tc s) (env.list_nodes _ c) (env.list_nodes _ c) _ _ _ _ _
                      _ (steady.nodes _ _ c) (λ e. unavailable-Repeats _ _ _ _ _)
                      λ nodes. available-Repeats _ _ _ _

    reconcile_found-Repeats :
        (log later : Log)
        → Repeats tc s (reconcile_found env tc log) (reconcile_found env again later)
    unfolding reconcile_found
    reconcile_found-Repeats log later =
        exit_if-pair (Repeats tc s) (not (text_eq tc.spec.type target_cluster_type_byo)) log later _
          _ _ _ (unavailable-Repeats _ _ _ log later)
          (some_or_exit-pair (Repeats tc s) tc.spec.byo log later _ _ _ _
            (unavailable-Repeats _ _ _ log later)
            λ byo.
              let name : NamespacedName = record {
                namespace = tc.meta.namespace;
                name = byo.kubeconfig_secret_ref.name;
              } in
              or_exit-pair (Repeats tc s) (env.get_secret log name) (env.get_secret later name)
                (got_secret name (env.get_secret log name) ∷ log)
                (got_secret name (env.get_secret later name) ∷ later) _ _ _ _
                (steady.secret later log name) (λ e. lookup_failed-Repeats _ e _ _ _ log later)
                λ secret.
                  some_or_exit-pair (Repeats tc s)
                    (nonempty (secret_value secret (kubeconfig_key byo.kubeconfig_secret_ref))) _ _
                    _ _ _ _ (unavailable-Repeats _ _ _ _ _)
                    λ kubeconfig. probe-Repeats kubeconfig _ _)

-- While the Secrets and the target cluster answer alike and conditions are set as documented, a run
-- on an object that a run has written writes the same object again: nothing in its status changes,
-- not even the time of a transition.
pub reconcile_found-repeats :
    (env : Env)
    → SetsConditions env
    → IsSteady env
    → (tc tc' : TargetCluster) (log later : Log) → written (reconcile_found env tc log) ≡ some tc'
    → written (reconcile_found env tc' later) ≡ some tc'
reconcile_found-repeats env laws steady tc tc' log later h =
    let repeats = reconcile_found-Repeats env laws tc tc'.status steady log later in
    subst (λ x. written (reconcile_found env x later) ≡ some tc') (repeats.only_status tc' h)
      (repeats.again_written tc' h refl)
