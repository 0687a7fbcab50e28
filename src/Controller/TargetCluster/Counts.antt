-- ===== src/Controller/TargetCluster/Counts.antt =====
-- The number of nodes in the status, which `int32(len(nodes.Items))` reduces to 32 bits.
use rancher_operator.Common.{
  ℕ, ℤ, pos, negsuc, ◌^◌, ◌≤◌, ◌<◌, ◌≡◌, ◌⊎◌, inl, inr, subst, sym, true, List, ◌∷◌, Result, ok,
  length, int32, Bool-cases, ltb, int32_of_small, arith,
}
use rancher_operator.Common.Text.{Text}
use rancher_operator.Api.Meta.{NamespacedName}
use rancher_operator.Api.TargetCluster.{TargetCluster}
use rancher_operator.Runtime.{Env, Log, Clientset, listed_nodes, updated_target_cluster_status}
use rancher_operator.Controller.TargetCluster.{reconcile}
use rancher_operator.Controller.TargetCluster.Readiness.{reconcile_ready-Evidence}

-- From -2³¹ to 2³¹ - 1.
abbrev pub IsInt32 : ℤ → Type 0
IsInt32 (pos n) = n < 2 ^ 31
IsInt32 (negsuc n) = n < 2 ^ 31

int32-IsInt32 : (n : ℕ) → IsInt32 (int32 n)
unfolding int32
int32-IsInt32 n = ground arith

-- The last call before `after` ends is a list of nodes, and `count` states its length.
pub record Counts (count : ℤ) (after : Log) : Type 0 where
  pub clientset : Clientset
  pub nodes : List Text
  pub before : Log
  pub listed : after ≡ listed_nodes clientset (ok nodes) ∷ before
  pub bounded : IsInt32 count
  pub exact : (count ≡ pos (length nodes)) ⊎ (2 ^ 31 ≤ length nodes)

exact_lem : (n : ℕ) → (int32 n ≡ pos n) ⊎ (2 ^ 31 ≤ n)
exact_lem n = elim (Bool-cases (ltb n (2 ^ 31))) [
  | inl small ↦ inl (int32_of_small n (ground arith))
  | inr large ↦ inr (ground arith)
]

-- A run that finds the resource and ends by writing `Ready` states a number of nodes within the bounds
-- of an int32, which is the length of the list that the cluster answered in this run, or else that
-- list has 2³¹ nodes or more.
pub reconcile_ready-Counts :
    (env : Env) (req : NamespacedName) (tc tc' : TargetCluster) (log after : Log)
    (written : Result (Unit {0}))
    → env.get_target_cluster log req ≡ ok tc
    → (reconcile env req log).1 ≡ updated_target_cluster_status tc' written ∷ after
    → tc'.status.ready ≡ true
    → Counts tc'.status.node_count after
reconcile_ready-Counts env req tc tc' log after written found ends ready =
    let probed =
      (reconcile_ready-Evidence env req tc tc' log after written found ends ready).probed in
    record {
      clientset = probed.clientset;
      nodes = probed.nodes;
      before = _;
      listed = probed.calls;
      bounded = subst IsInt32 (sym probed.node_count_eq) (int32-IsInt32 (length probed.nodes));
      exact =
          subst (λ c. (c ≡ pos (length probed.nodes)) ⊎ (2 ^ 31 ≤ length probed.nodes))
            (sym probed.node_count_eq) (exact_lem (length probed.nodes));
    }
