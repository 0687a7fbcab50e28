-- ===== src/Tests/RolloutRuns.antt =====
-- A whole run of the ClusterPrerequisites reconciler against an API server that keeps what it is given.
use rancher_operator.Common.{none, ◌∷◌, ◌≡◌, refl, some, [], ok, arith, true}
use rancher_operator.Common.Text.{codes, text_eq}
use rancher_operator.Api.Meta.{secret_value, lookup}
use rancher_operator.Api.TargetCluster.{TargetCluster}
use rancher_operator.Api.ClusterPrerequisites.{CertManagerComponent, IngressComponent}
use rancher_operator.Runtime.{Env}
use rancher_operator.Helm.Getter.{new_getter, to_rest_config}
use rancher_operator.Helm.PullSecret.{dockerconfigjson}
use rancher_operator.Controller.Components.{
  skipping, message_component_disabled, cert_manager_package, traefik_package, version_of,
  is_component_done, load_balancer_component_status,
}
use rancher_operator.Controller.Components.Deployment.{Supplies}
use rancher_operator.Controller.Components.Rollout.{Prepared}
use rancher_operator.Controller.ClusterPrerequisites.{reconcile, resolve_target_kubeconfig}
use rancher_operator.Controller.ClusterPrerequisites.Defaults.{enabled_by_default, defaults_agree}
use rancher_operator.Api.Defaults.{
  default_target_cluster, SubmittedIngress, decoded_ingress_component, default_ingress_component,
}
use rancher_operator.Controller.Components.{reconcile_ingress}
use rancher_operator.Controller.ClusterPrerequisites.Rollout.{
  AreUsable, RollsOut, reconcile-RollsOut,
}
use rancher_operator.Controller.ClusterPrerequisites.Sources.{Credited, Targeted}
use rancher_operator.Controller.ClusterPrerequisites.Pipeline.{both_reconcilers-RollsOut}
use rancher_operator.Controller.TargetCluster.{probe_timeout, reconcile as reconcile_target}
use rancher_operator.Controller.TargetCluster.Reports.{Answers, Reports, reconcile-Reports}
use rancher_operator.Tests.TargetClusterRuns.{
  first_run, reported, calls_of_first_run, run_of_first_run,
}
use rancher_operator.Tests.World.{
  fresh_cluster, chart, cluster_name, credentials_secret, fresh_prerequisites, kubeconfig_secret,
  ready_cluster,
}
use rancher_operator.Tests.ServerRuns.{
  clientset, connection, creds, desired, empty, server, serving,
}

-- A target with no ingress controller of its own.
abbrev pub plain_cluster : TargetCluster
plain_cluster = record ready_cluster {
  status = record ready_cluster.status { kubernetes_version = codes "v1.31.4" };
}

abbrev pub plain_server : Env
plain_server = server plain_cluster empty

unfoldable pub prepared :
    (tc : TargetCluster)
    → Prepared (server tc empty) empty (new_getter (server tc empty) (codes "k")) creds
unfolding new_getter to_rest_config dockerconfigjson
prepared tc = record {
  connection = connection;
  clientset = clientset;
  configuration = λ n. record { cluster = ok (record { kubeconfig = codes "k" }); namespace = n };
  desired = desired;
  serves = serving tc empty;
  connected = refl;
  built = refl;
  configured = λ n. refl;
  given = refl;
  printed = refl;
}

pub credited : (tc : TargetCluster) → Credited (server tc empty) fresh_prerequisites creds
unfolding secret_value lookup text_eq
credited tc = record {
  ref = record { name = codes "ac" };
  secret = credentials_secret;
  referred = refl;
  readable = λ log. refl;
  username = refl;
  password = refl;
}

pub targeted : Targeted plain_server fresh_prerequisites plain_cluster (codes "k")
unfolding secret_value lookup text_eq
targeted = record {
  byo = record { kubeconfig_secret_ref = record { name = codes "kc"; key = [] } };
  secret = kubeconfig_secret;
  found = λ log. refl;
  ready = refl;
  is_byo = refl;
  has_spec = refl;
  readable = λ log. refl;
  holds = refl;
  filled = λ h. ground arith;
}

pub supplied_charts :
    (tc : TargetCluster) (spec : CertManagerComponent)
    → fresh_prerequisites.spec.cert_manager ≡ some spec
    → Supplies
        (server tc empty)
        cert_manager_package.chart_ref
        (version_of cert_manager_package spec.version)
        creds
        chart
supplied_charts tc spec h = record {
  rest = codes "dp.apps.rancher.io/charts/cert-manager";
  archive = codes "tgz";
  reference = refl;
  reachable = refl;
  lets_in = λ log. refl;
  carries = λ log. refl;
  filled = λ e. ground arith;
  readable = refl;
}

pub supplied_traefik :
    (tc : TargetCluster) (spec : IngressComponent)
    → fresh_prerequisites.spec.ingress ≡ some spec
    → Supplies
        (server tc empty)
        traefik_package.chart_ref
        (version_of traefik_package spec.version)
        creds
        chart
supplied_traefik tc spec h = record {
  rest = codes "dp.apps.rancher.io/charts/traefik";
  archive = codes "tgz";
  reference = refl;
  reachable = refl;
  lets_in = λ log. refl;
  carries = λ log. refl;
  filled = λ e. ground arith;
  readable = refl;
}

pub balanced :
    is_component_done (load_balancer_component_status fresh_prerequisites.spec.load_balancer) ≡ true
unfolding is_component_done load_balancer_component_status text_eq
balanced = refl

pub empty-AreUsable : AreUsable empty
empty-AreUsable = (λ old found. ground arith, λ old found. ground arith)

reconcile-RollsOut_example :
    RollsOut plain_server empty fresh_prerequisites plain_cluster
      (codes "k")
      creds
      (prepared plain_cluster)
      chart
      chart
      []
      (reconcile plain_server cluster_name []).1
unfolding prepared
reconcile-RollsOut_example =
    reconcile-RollsOut plain_server empty fresh_prerequisites plain_cluster (codes "k") creds chart
      chart (prepared plain_cluster) (credited plain_cluster) (supplied_charts plain_cluster)
      (supplied_traefik plain_cluster) refl refl balanced cluster_name [] (λ log. refl) targeted
      empty-AreUsable

-- A target cluster whose reference leaves the key out, and an ingress that leaves all out.
abbrev sparse_ingress : SubmittedIngress
sparse_ingress = record { enabled = none; type = none; use_bundled = none; version = none }

defaults_agree_example :
    (resolve_target_kubeconfig plain_server (default_target_cluster plain_cluster) []
      ≡ resolve_target_kubeconfig plain_server plain_cluster [])
    × (reconcile_ingress plain_server
          (new_getter plain_server (codes "k"))
          (some (default_ingress_component sparse_ingress))
          (codes "v1.31.4")
          creds
          []
        ≡ reconcile_ingress plain_server
            (new_getter plain_server (codes "k"))
            (some (enabled_by_default sparse_ingress))
            (codes "v1.31.4")
            creds
            [])
    × (reconcile_ingress plain_server
          (new_getter plain_server (codes "k"))
          (some (decoded_ingress_component sparse_ingress))
          (codes "v1.31.4")
          creds
          []
        ≡ (skipping message_component_disabled, []))
defaults_agree_example =
    defaults_agree plain_server plain_cluster (new_getter plain_server (codes "k")) sparse_ingress
      (codes "v1.31.4") creds []

answers :
    Answers first_run fresh_cluster
      (codes "k")
      (codes "v1.31.4+k3s1")
      (codes "n1" ∷ codes "n2" ∷ [])
unfolding secret_value lookup text_eq
answers = record {
  byo = record { kubeconfig_secret_ref = record { name = codes "kc"; key = [] } };
  secret = kubeconfig_secret;
  config = record { connection = codes "k"; timeout = 0 };
  clientset = record { config = record { connection = codes "k"; timeout = probe_timeout } };
  is_byo = refl;
  has_spec = refl;
  readable = λ log. refl;
  holds = refl;
  filled = λ h. ground arith;
  parsed = refl;
  built = refl;
  version_told = λ log. refl;
  nodes_told = λ log. refl;
}

reconcile-Reports_example :
    Reports fresh_cluster
      (codes "v1.31.4+k3s1")
      (codes "n1" ∷ codes "n2" ∷ [])
      (reconcile_target first_run cluster_name []).1
reconcile-Reports_example =
    reconcile-Reports first_run fresh_cluster (codes "k") (codes "v1.31.4+k3s1")
      (codes "n1" ∷ codes "n2" ∷ []) answers cluster_name [] refl

-- The server from which what the first run wrote is read.
abbrev second_server : Env
second_server = server reported empty

both_reconcilers-RollsOut_example :
    RollsOut second_server empty fresh_prerequisites reported
      (codes "k")
      creds
      (prepared reported)
      chart
      chart
      []
      (reconcile second_server cluster_name []).1
unfolding text_eq answers prepared
both_reconcilers-RollsOut_example =
    both_reconcilers-RollsOut first_run second_server empty fresh_cluster reported
      fresh_prerequisites (codes "k") (codes "v1.31.4+k3s1") (codes "n1" ∷ codes "n2" ∷ []) (ok tt)
      creds chart chart cluster_name cluster_name [] calls_of_first_run [] answers
      (prepared reported) refl run_of_first_run (λ log. refl) (λ log. refl) (λ log. refl)
      (credited reported) (supplied_charts reported) (supplied_traefik reported) refl refl balanced
      empty-AreUsable
