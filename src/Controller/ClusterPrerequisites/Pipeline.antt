-- ===== src/Controller/ClusterPrerequisites/Pipeline.antt =====
-- The two reconcilers one after the other: the first finds the target cluster, the second fills it.
use rancher_operator.Common.{◌≡◌, ap, sym, ◌∙◌, true, some, List, ◌∷◌, Result, ok}
use rancher_operator.Common.Text.{Text, Bytes}
use rancher_operator.Api.Meta.{NamespacedName}
use rancher_operator.Api.TargetCluster.{TargetCluster}
use rancher_operator.Api.ClusterPrerequisites.{
  ClusterPrerequisites, CertManagerComponent, IngressComponent,
}
use rancher_operator.Runtime.{Env, Log, Chart, updated_target_cluster_status}
use rancher_operator.Helm.Getter.{new_getter}
use rancher_operator.Helm.Installer.{OciCredentials}
use rancher_operator.Helm.Server.{Cluster, behind}
use rancher_operator.Controller.TargetCluster.Readiness.{secret_name}
use rancher_operator.Controller.TargetCluster.Reports.{Answers, reconcile-Reports}
use rancher_operator.Controller.Components.{
  cert_manager_package, traefik_package, version_of, is_component_done,
  load_balancer_component_status,
}
use rancher_operator.Controller.Components.Deployment.{Supplies}
use rancher_operator.Controller.Components.Rollout.{Prepared}
use rancher_operator.Controller.ClusterPrerequisites.{target_key, reconcile}
use rancher_operator.Controller.ClusterPrerequisites.Rollout.{
  AreUsable, RollsOut, reconcile-RollsOut,
}
use rancher_operator.Controller.ClusterPrerequisites.Sources.{Credited, Targeted}
use rancher_operator.Controller.TargetCluster.{reconcile as reconcile_target}

-- The object that the newest call wrote, `tc` if it wrote none.
abbrev newest_write : TargetCluster → Log → TargetCluster
newest_write tc (updated_target_cluster_status tc' _ ∷ _) = tc'
newest_write tc _ = tc

-- The object that was written is the target of the second reconciler.
Targeted-written :
    (first second : Env) (tc tc' : TargetCluster) (kubeconfig version : Bytes) (nodes : List Text)
    (written : Result (Unit {0})) (calls : Log) (req : NamespacedName) (log : Log)
    (cp : ClusterPrerequisites) (answers : Answers first tc kubeconfig version nodes)
    → first.get_target_cluster log req ≡ ok tc
    → (reconcile_target first req log).1 ≡ updated_target_cluster_status tc' written ∷ calls
    → ((later : Log) → second.get_target_cluster later (target_key cp) ≡ ok tc')
    → ((later : Log) → second.get_secret later (secret_name tc answers.byo) ≡ ok answers.secret)
    → Targeted second cp tc' kubeconfig
Targeted-written first second tc tc' kubeconfig version nodes written calls req log cp answers found
      ends seen still =
    let r = reconcile-Reports first tc kubeconfig version nodes answers req log found in
    let same : r.tc' ≡ tc' = ap (newest_write tc) (sym r.ends ∙ ends) in
    record {
      byo = answers.byo;
      secret = answers.secret;
      found = seen;
      ready = rw (← same) r.ready;
      is_byo = rw (← same, r.same_spec) answers.is_byo;
      has_spec = rw (← same, r.same_spec) answers.has_spec;
      readable = λ later. rw (← same, r.same_meta) (still later);
      holds = answers.holds;
      filled = answers.filled;
    }

-- Where a target cluster answers a run of the TargetCluster reconciler, the object that this run
-- wrote and the Secret of its kubeconfig are what the ClusterPrerequisites reconciler reads later,
-- and all else that this needs is there (an open target cluster that serves the operator, no
-- image-pull Secret of another type on it, credentials, charts that Helm brings about there, and a
-- load balancer that needs no installation): the second run writes its resource as ready, behind the
-- installation of cert-manager and of the ingress, each one unless it is to be left alone.
pub both_reconcilers-RollsOut :
    (first second : Env) (initial : Cluster) (tc tc' : TargetCluster) (cp : ClusterPrerequisites)
    (kubeconfig version : Bytes) (nodes : List Text) (written : Result (Unit {0}))
    (creds : OciCredentials) (cert_manager_chart ingress_chart : Chart)
    (tc_name cp_name : NamespacedName) (log calls later : Log)
    (answers : Answers first tc kubeconfig version nodes)
    (target : Prepared second initial (new_getter second kubeconfig) creds)
    → first.get_target_cluster log tc_name ≡ ok tc
    → (reconcile_target first tc_name log).1 ≡ updated_target_cluster_status tc' written ∷ calls
    → ((before : Log) → second.get_target_cluster before (target_key cp) ≡ ok tc')
    → ((before : Log) → second.get_secret before (secret_name tc answers.byo) ≡ ok answers.secret)
    → ((before : Log) → second.get_cluster_prerequisites before cp_name ≡ ok cp)
    → Credited second cp creds
    → ((spec : CertManagerComponent)
        → cp.spec.cert_manager ≡ some spec
        → Supplies second cert_manager_package.chart_ref
            (version_of cert_manager_package spec.version)
            creds
            cert_manager_chart)
    → ((spec : IngressComponent)
        → cp.spec.ingress ≡ some spec
        → Supplies second traefik_package.chart_ref
            (version_of traefik_package spec.version)
            creds
            ingress_chart)
    → target.serves.brings cert_manager_chart cert_manager_package.values ≡ true
    → target.serves.brings ingress_chart traefik_package.values ≡ true
    → is_component_done (load_balancer_component_status cp.spec.load_balancer) ≡ true
    → AreUsable (behind initial later)
    → RollsOut second initial cp tc' kubeconfig creds target cert_manager_chart ingress_chart later
        (reconcile second cp_name later).1
both_reconcilers-RollsOut first second initial tc tc' cp kubeconfig version nodes written creds
      cert_manager_chart ingress_chart tc_name cp_name log calls later answers target found ends
      seen still present credited charts traefik takes takes_too balanced usable =
    reconcile-RollsOut second initial cp tc' kubeconfig creds cert_manager_chart ingress_chart
      target credited charts traefik takes takes_too balanced cp_name later present
      (Targeted-written first second tc tc' kubeconfig version nodes written calls tc_name log cp
        answers found ends seen still)
      usable
