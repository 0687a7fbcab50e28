-- ===== src/Tests/TargetClusterRuns.antt =====
-- Runs of the TargetCluster reconciler.
use rancher_operator.Controller.Permissions.{target_cluster_rules, covers_all}
use rancher_operator.Controller.Permissions.Targets.{reconcile-covered_target}
use rancher_operator.Common.{
  ◌≡◌, refl, inl, some, [], ◌∷◌, ok, err, Error, new_error, pos, int32, true,
}
use rancher_operator.Common.Text.{codes, decimal, decimal_onto, text_eq}
use rancher_operator.Api.Meta.{secret_value, lookup, condition_true}
use rancher_operator.Api.TargetCluster.{TargetCluster, ByoSpec}
use rancher_operator.Runtime.{
  Env, Log, got_target_cluster, updated_target_cluster_status, got_secret, got_server_version,
  listed_nodes, Clientset,
}
use rancher_operator.Controller.Conditions.{SetsConditions}
use rancher_operator.Controller.Outcome.{done}
use rancher_operator.Controller.TargetCluster.{
  mark_unavailable, write_status, unavailable, mark_available, available, probe, reconcile_found,
  reconcile, probe_timeout, kubeconfig_key, nonempty,
}
use rancher_operator.Controller.TargetCluster.Status.{Settles, reconcile-Settles}
use rancher_operator.Controller.TargetCluster.Counts.{Counts, reconcile_ready-Counts}
use rancher_operator.Controller.TargetCluster.Readiness.{
  Evidence, secret_name, reconcile_ready-Evidence,
}
use rancher_operator.Controller.TargetCluster.Convergence.{
  IsSteady, written, reconcile_found-repeats,
}
use rancher_operator.Controller.TargetCluster.Retry.{
  Hopeless, reconcile_found-Hopeless, reconcile_found_rejected, GivesUp,
}
use rancher_operator.Controller.TargetCluster.History.{
  Reachable, IsConsistent, Reachable-IsConsistent,
}
use rancher_operator.Tests.World.{
  gone, world, world-SetsConditions, cluster_name, fresh_cluster, kubeconfig_secret,
}

-- The world in which the cluster was not looked at yet.
abbrev pub first_run : Env
first_run = record world { get_target_cluster = λ log name. ok fresh_cluster }

abbrev clientset : Clientset
clientset = record { config = record { connection = codes "k"; timeout = probe_timeout } }

abbrev pub reported : TargetCluster
reported = record fresh_cluster {
  status = record {
    ready = true;
    kubernetes_version = codes "v1.31.4+k3s1";
    node_count = pos 2;
    observed_generation = 3;
    conditions =
        record {
          type = codes "Available";
          status = condition_true;
          observed_generation = 3;
          last_transition_time = 4;
          reason = codes "Reachable";
          message = codes "target cluster reachable (2 nodes, v1.31.4+k3s1)";
        }
        ∷ [];
  };
}

abbrev pub calls_of_first_run : Log
calls_of_first_run =
    listed_nodes clientset (ok (codes "n1" ∷ codes "n2" ∷ []))
    ∷ got_server_version clientset (ok (codes "v1.31.4+k3s1"))
    ∷ got_secret (record { namespace = codes "ops"; name = codes "kc" }) (ok kubeconfig_secret)
    ∷ got_target_cluster cluster_name (ok fresh_cluster)
    ∷ []

pub run_of_first_run :
    (reconcile first_run cluster_name []).1
    ≡ updated_target_cluster_status reported (ok tt) ∷ calls_of_first_run
unfolding reconcile reconcile_found probe available mark_available write_status text_eq secret_value
    lookup decimal decimal_onto int32
run_of_first_run = refl

first_run-SetsConditions : SetsConditions first_run
first_run-SetsConditions = record {
  found = world-SetsConditions.found;
  kept = world-SetsConditions.kept;
  settled = world-SetsConditions.settled;
}

world-IsSteady : IsSteady world
world-IsSteady = record {
  secret = λ log later name. refl;
  version = λ log later c. refl;
  nodes = λ log later c. refl;
}

reconcile-Settles_example : Settles fresh_cluster [] (reconcile first_run cluster_name [])
reconcile-Settles_example =
    reconcile-Settles first_run first_run-SetsConditions cluster_name fresh_cluster [] refl

reconcile_ready-Evidence_example :
    Evidence first_run fresh_cluster reported
      (got_target_cluster cluster_name (ok fresh_cluster) ∷ [])
      calls_of_first_run
reconcile_ready-Evidence_example =
    reconcile_ready-Evidence first_run cluster_name fresh_cluster reported [] calls_of_first_run
      (ok tt) refl run_of_first_run refl

reconcile_ready-Counts_example : Counts reported.status.node_count calls_of_first_run
reconcile_ready-Counts_example =
    reconcile_ready-Counts first_run cluster_name fresh_cluster reported [] calls_of_first_run
      (ok tt) refl run_of_first_run refl

Reachable-IsConsistent_example : IsConsistent reported
Reachable-IsConsistent_example = Reachable-IsConsistent reported (
    Reachable.reconciled first_run first_run-SetsConditions cluster_name fresh_cluster reported
      calls_of_first_run refl run_of_first_run (Reachable.created fresh_cluster refl refl refl))

-- The world without the resource.
abbrev empty_world : Env
empty_world = record world { get_target_cluster = λ log name. err gone }

writes_reported :
    written (
      reconcile_found world fresh_cluster (got_target_cluster cluster_name (ok fresh_cluster) ∷ []))
    ≡ some reported
unfolding reconcile_found probe available mark_available write_status text_eq secret_value lookup
    decimal decimal_onto int32
writes_reported = refl

reconcile_found-repeats_example : written (reconcile_found world reported []) ≡ some reported
reconcile_found-repeats_example =
    reconcile_found-repeats world world-SetsConditions world-IsSteady fresh_cluster reported
      (got_target_cluster cluster_name (ok fresh_cluster) ∷ []) [] writes_reported

-- The world in which the kubeconfig does not parse.
abbrev bad : Error
bad = new_error (codes "bad")

abbrev garbled_world : Env
garbled_world = record world { rest_config_from_kubeconfig = λ kubeconfig. err bad }

abbrev byo : ByoSpec
byo = record { kubeconfig_secret_ref = record { name = codes "kc"; key = [] } }

gives_up : (reconcile_found garbled_world fresh_cluster []).0 ≡ done
unfolding reconcile_found probe unavailable mark_unavailable write_status text_eq secret_value
    lookup
gives_up = refl

reconcile_found-Hopeless_example : Hopeless garbled_world fresh_cluster []
reconcile_found-Hopeless_example = reconcile_found-Hopeless garbled_world fresh_cluster [] gives_up

reads_secret : garbled_world.get_secret [] (secret_name fresh_cluster byo) ≡ ok kubeconfig_secret
unfolding text_eq
reads_secret = refl

holds_kubeconfig :
    nonempty (secret_value kubeconfig_secret (kubeconfig_key byo.kubeconfig_secret_ref))
    ≡ some (codes "k")
unfolding text_eq secret_value lookup
holds_kubeconfig = refl

reconcile_found_rejected_example :
    GivesUp
      (got_secret (secret_name fresh_cluster byo) (ok kubeconfig_secret) ∷ [])
      (reconcile_found garbled_world fresh_cluster [])
reconcile_found_rejected_example =
    reconcile_found_rejected garbled_world fresh_cluster [] byo kubeconfig_secret (codes "k") refl
      refl reads_secret holds_kubeconfig (inl (bad, refl))

reconcile-covered_target_example :
    covers_all target_cluster_rules (reconcile first_run cluster_name []).1 ≡ true
reconcile-covered_target_example = reconcile-covered_target first_run cluster_name []
