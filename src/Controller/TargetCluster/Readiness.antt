-- ===== src/Controller/TargetCluster/Readiness.antt =====
-- When the TargetCluster reconciler reports a cluster as ready, and when it gives up.
use rancher_operator.Common.{
  ℕ, ◌≡◌, sym, subst, ◌≢◌, inl, inr, not, refl, true, Option, none, some, List, [], ◌∷◌, Result, ok,
  Error, is_not_found, Bool-cases, arith, length, int32,
}
use rancher_operator.Common.Text.{Text, Bytes, text_eq}
use rancher_operator.Common.Text.Laws.{text_eq_iff}
use rancher_operator.Api.Meta.{Secret, secret_value, NamespacedName}
use rancher_operator.Api.TargetCluster.{TargetCluster, ByoSpec, target_cluster_type_byo}
use rancher_operator.Runtime.{
  Env, Log, got_target_cluster, Clientset, RestConfig, got_server_version, listed_nodes, got_secret,
  updated_target_cluster_status, or_exit-rule, exit_if-rule, some_or_exit-rule,
}
use rancher_operator.Controller.Outcome.{Outcome}
use rancher_operator.Controller.TargetCluster.{
  lookup_failed, probe_timeout, kubeconfig_key, nonempty, mark_available, unavailable, available,
  probe, reconcile_found, reconcile,
}
use rancher_operator.Controller.TargetCluster.Status.{reconcile_of_found}

-- The calls between `before` and `after` show the answers that the status of `tc'` states: the
-- cluster's version and the number of its nodes, asked by a client with the time limit.
pub record Probed (env : Env) (kubeconfig : Bytes) (tc' : TargetCluster) (before after : Log)
    : Type 0 where
  pub config : RestConfig
  pub clientset : Clientset
  pub version : Text
  pub nodes : List Text
  pub parsed : env.rest_config_from_kubeconfig kubeconfig ≡ ok config
  pub built : env.new_clientset (record config { timeout = probe_timeout }) ≡ ok clientset
  pub calls :
      after ≡ listed_nodes clientset (ok nodes) ∷ got_server_version clientset (ok version) ∷ before
  pub version_eq : tc'.status.kubernetes_version ≡ version
  pub node_count_eq : tc'.status.node_count ≡ int32 (length nodes)

-- What holds of a report of readiness that ends the log.
abbrev WhenReady : (TargetCluster → Log → Type 0) → Outcome × Log → Type 0
WhenReady Q (o, []) = Unit
WhenReady Q (o, updated_target_cluster_status tc' _ ∷ after) = tc'.status.ready ≡ true → Q tc' after
WhenReady Q (o, _ ∷ _) = Unit

WhenReady-map :
    (Q Q' : TargetCluster → Log → Type 0)
    → ((tc' : TargetCluster) (after : Log) → Q tc' after → Q' tc' after)
    → (p : Outcome × Log) → WhenReady Q p
    → WhenReady Q' p
WhenReady-map Q Q' f (o, []) h = tt
WhenReady-map Q Q' f (o, updated_target_cluster_status tc' _ ∷ after) h = λ r. f tc' after (h r)
WhenReady-map Q Q' f (o, _ ∷ _) h = tt

abbrev ReadyWhenProbed : Env → Bytes → Log → Outcome × Log → Type 0
ReadyWhenProbed env kubeconfig before =
    WhenReady (λ tc' after. Probed env kubeconfig tc' before after)

unavailable-WhenReady :
    (env : Env) (Q : TargetCluster → Log → Type 0) (tc : TargetCluster) (reason message : Text)
    (t : ℕ) (log : Log)
    → WhenReady Q (unavailable env tc reason message t log)
unfolding unavailable
unavailable-WhenReady env Q tc reason message t log h = cc

module _ (env : Env) (kubeconfig : Bytes) (before : Log) where
  available-ReadyWhenProbed :
      (tc : TargetCluster) (version : Text) (nodes : ℕ) (log : Log)
      → ((tc' : TargetCluster)
          → tc'.status.kubernetes_version ≡ version
          → tc'.status.node_count ≡ int32 nodes
          → Probed env kubeconfig tc' before log)
      → ReadyWhenProbed env kubeconfig before (available env tc version nodes log)
  unfolding available
  available-ReadyWhenProbed tc version nodes log shown =
      or_exit-rule (ReadyWhenProbed env kubeconfig before)
        (env.update_target_cluster_status log (mark_available env tc version nodes log).0) _ _ _
        (λ e _ _. shown _ refl refl) (λ _ _ _. shown _ refl refl)

  probe-ReadyWhenProbed :
      (tc : TargetCluster) → ReadyWhenProbed env kubeconfig before (probe env tc kubeconfig before)
  unfolding probe
  probe-ReadyWhenProbed tc =
      let P = ReadyWhenProbed env kubeconfig before in
      or_exit-rule P (env.rest_config_from_kubeconfig kubeconfig) before _ _
        (λ e _.
          unavailable-WhenReady env (λ tc' after. Probed env kubeconfig tc' before after) tc _ _ _
            _)
        λ config parsed.
          or_exit-rule P (env.new_clientset _) before _ _
            (λ e _.
              unavailable-WhenReady env (λ tc' after. Probed env kubeconfig tc' before after) tc _ _
                _ _)
            λ clientset built.
              or_exit-rule P (env.server_version before clientset) _ _ _
                (λ e _.
                  unavailable-WhenReady env (λ tc' after. Probed env kubeconfig tc' before after) tc
                    _ _ _ _)
                λ version asked.
                  or_exit-rule P (env.list_nodes _ clientset) _ _ _
                    (λ e _.
                      unavailable-WhenReady env
                        (λ tc' after. Probed env kubeconfig tc' before after) tc _ _ _ _)
                    λ nodes listed. available-ReadyWhenProbed tc version (length nodes) _ λ tc' v n.
                      record {
                        config = config;
                        clientset = clientset;
                        version = version;
                        nodes = nodes;
                        parsed = parsed;
                        built = built;
                        calls = rw (← asked, ← listed);
                        version_eq = v;
                        node_count_eq = n;
                      }

-- The name of the Secret that a BYO spec refers to.
abbrev pub secret_name : TargetCluster → ByoSpec → NamespacedName
secret_name tc byo = record { namespace = tc.meta.namespace; name = byo.kubeconfig_secret_ref.name }

-- The resource is in BYO mode, its Secret was read between `before` and `after` and holds a
-- kubeconfig that is not empty, and the cluster that this names was probed behind that.
pub record Evidence (env : Env) (tc tc' : TargetCluster) (before after : Log) : Type 0 where
  pub byo : ByoSpec
  pub secret : Secret
  pub kubeconfig : Bytes
  pub is_byo : tc.spec.type ≡ target_cluster_type_byo
  pub has_spec : tc.spec.byo ≡ some byo
  pub holds : secret_value secret (kubeconfig_key byo.kubeconfig_secret_ref) ≡ some kubeconfig
  pub filled : kubeconfig ≢ []
  pub probed :
      Probed env kubeconfig tc' (got_secret (secret_name tc byo) (ok secret) ∷ before) after

nonempty-eq-some :
    (o : Option Bytes) (bytes : Bytes) → nonempty o ≡ some bytes → (o ≡ some bytes) × (bytes ≢ [])
nonempty-eq-some none bytes h = absurd (ground arith)
nonempty-eq-some (some []) bytes h = absurd (ground arith)
nonempty-eq-some (some (b ∷ bs)) bytes h = ground arith

module _ (env : Env) where
  lookup_failed-WhenReady :
      (Q : TargetCluster → Log → Type 0) (tc : TargetCluster) (ref : Text) (e : Error)
      (name : NamespacedName) (r : Result Secret) (log : Log)
      → WhenReady Q (lookup_failed env tc ref e (got_secret name r ∷ log))
  unfolding lookup_failed
  lookup_failed-WhenReady Q tc ref e name r log = elim (Bool-cases (is_not_found e)) [
    | inl missing ↦ rw missing (unavailable-WhenReady env Q tc _ _ _ _)
    | inr different ↦ rw different tt
  ]

  reconcile_found-WhenReady :
      (tc : TargetCluster) (before : Log)
      → WhenReady (λ tc' after. Evidence env tc tc' before after) (reconcile_found env tc before)
  unfolding reconcile_found
  reconcile_found-WhenReady tc before =
      let Q : TargetCluster → Log → Type 0 = λ tc' after. Evidence env tc tc' before after in
      let P = WhenReady Q in
      exit_if-rule P (not (text_eq tc.spec.type target_cluster_type_byo)) before _ _
        (λ _. unavailable-WhenReady env Q tc _ _ _ _)
        λ is_byo.
          some_or_exit-rule P tc.spec.byo before _ _ (λ _. unavailable-WhenReady env Q tc _ _ _ _)
            λ byo has_spec.
              or_exit-rule P (env.get_secret before (secret_name tc byo)) _ _ _
                (λ e _. lookup_failed-WhenReady Q tc _ e _ _ before)
                λ secret got.
                  some_or_exit-rule P (nonempty (secret_value secret _)) _ _ _
                    (λ _. unavailable-WhenReady env Q tc _ _ _ _)
                    λ kubeconfig found.
                      let (holds, filled) = nonempty-eq-some _ kubeconfig found in
                      WhenReady-map (λ tc' after. Probed env kubeconfig tc' _ after) Q
                        (λ tc' after probed. record {
                          byo = byo;
                          secret = secret;
                          kubeconfig = kubeconfig;
                          is_byo = (text_eq_iff _ _).0 (ground arith);
                          has_spec = has_spec;
                          holds = holds;
                          filled = filled;
                          probed = rw (← got) probed;
                        })
                        (probe env tc kubeconfig (
                          got_secret (secret_name tc byo)
                            (env.get_secret before (secret_name tc byo))
                          ∷ before))
                        (probe-ReadyWhenProbed env kubeconfig _ tc)

  -- A run that finds the resource and ends by writing `Ready` has this evidence for it: the resource
  -- is in BYO mode, its Secret held a kubeconfig that is not empty, and that cluster told the version
  -- and the nodes that the status states, to a client with the time limit of a probe, all in this run.
  pub reconcile_ready-Evidence :
      (req : NamespacedName) (tc tc' : TargetCluster) (log after : Log)
      (written : Result (Unit {0}))
      → env.get_target_cluster log req ≡ ok tc
      → (reconcile env req log).1 ≡ updated_target_cluster_status tc' written ∷ after
      → tc'.status.ready ≡ true
      → Evidence env tc tc' (got_target_cluster req (ok tc) ∷ log) after
  reconcile_ready-Evidence req tc tc' log after written found ends =
      let before = got_target_cluster req (ok tc) ∷ log in
      let Q : TargetCluster → Log → Type 0 = λ tc' after. Evidence env tc tc' before after in
      subst (λ l. WhenReady Q ((reconcile env req log).0, l)) ends
        (subst (WhenReady Q) (sym (reconcile_of_found env req tc log found))
          (reconcile_found-WhenReady tc before))
