-- ===== src/Controller/ClusterPrerequisites/Rollout.antt =====
-- A run from the resource to the target cluster, when everything that the run needs is there.
use rancher_operator.Common.{◌≡◌, refl, subst, true, some, ◌∷◌, Result, ok, arith}
use rancher_operator.Common.Text.{Bytes}
use rancher_operator.Api.Meta.{NamespacedName}
use rancher_operator.Api.TargetCluster.{TargetCluster}
use rancher_operator.Api.ClusterPrerequisites.{
  ClusterPrerequisites, ComponentStatuses, CertManagerComponent, IngressComponent,
}
use rancher_operator.Runtime.{
  Env, Log, Chart, got_secret, got_cluster_prerequisites, updated_cluster_prerequisites_status,
}
use rancher_operator.Helm.Getter.{new_getter}
use rancher_operator.Helm.Installer.{OciCredentials}
use rancher_operator.Helm.Server.{Cluster, behind}
use rancher_operator.Helm.Server.Published.{IsUsable}
use rancher_operator.Controller.Components.{
  pull_secret_name, cert_manager_package, traefik_package, version_of, is_component_done,
  load_balancer_component_status, reconcile_cert_manager, reconcile_ingress,
}
use rancher_operator.Controller.Components.Deployment.{Supplies}
use rancher_operator.Controller.Components.Rollout.{
  Prepared, CertManagerChange, CertManagerChange-IsUsable, IngressChange,
  reconcile_cert_manager-Finishes, reconcile_ingress-Finishes,
}
use rancher_operator.Controller.ClusterPrerequisites.{
  are_all_done, mark_components, report, reconcile_components, reconcile_found, reconcile,
}
use rancher_operator.Controller.ClusterPrerequisites.Sources.{
  Credited, Targeted, load_run, reconcile_found_run,
}

report_calls :
    (env : Env) (cp : ClusterPrerequisites) (components : ComponentStatuses) (log : Log)
    → let cp' = (mark_components env cp components log).0 in
      (report env cp components log).1
      ≡ updated_cluster_prerequisites_status cp' (env.update_cluster_prerequisites_status log cp')
        ∷ log
unfolding report
report_calls env cp components log = ground arith

ready-mark_components :
    (env : Env) (cp : ClusterPrerequisites) (c : ComponentStatuses) (log : Log)
    → is_component_done c.cert_manager ≡ true
    → is_component_done c.ingress ≡ true
    → is_component_done c.load_balancer ≡ true
    → (mark_components env cp c log).0.status.ready ≡ true
unfolding mark_components are_all_done
ready-mark_components env cp c log a b d = rw (a, b, d) refl

kept_meta :
    (env : Env) (cp : ClusterPrerequisites) (c : ComponentStatuses) (log : Log)
    → (mark_components env cp c log).0.meta ≡ cp.meta
unfolding mark_components
kept_meta env cp c log = refl

kept_spec :
    (env : Env) (cp : ClusterPrerequisites) (c : ComponentStatuses) (log : Log)
    → (mark_components env cp c log).0.spec ≡ cp.spec
unfolding mark_components
kept_spec env cp c log = refl

-- The image-pull Secrets of the two components, where they are there, have the type of one.
abbrev pub AreUsable : Cluster → Type 0
AreUsable cluster =
    IsUsable (pull_secret_name cert_manager_package) cluster
    × IsUsable (pull_secret_name traefik_package) cluster

-- What a run has done: the resource was written as ready, its metadata and its spec kept, with the
-- answer `written`, behind two changes of the target cluster, for cert-manager and then for the
-- ingress.
pub record RollsOut (env : Env) (initial : Cluster) (cp : ClusterPrerequisites) (tc : TargetCluster)
    (kubeconfig : Bytes) (creds : OciCredentials)
    (target : Prepared env initial (new_getter env kubeconfig) creds)
    (cert_manager_chart ingress_chart : Chart) (before after : Log) : Type 0 where
  pub cp' : ClusterPrerequisites
  pub written : Result (Unit {0})
  pub calls : Log
  pub middle : Cluster
  pub ends : after ≡ updated_cluster_prerequisites_status cp' written ∷ calls
  pub ready : cp'.status.ready ≡ true
  pub same_meta : cp'.meta ≡ cp.meta
  pub same_spec : cp'.spec ≡ cp.spec
  pub cert_manager :
      CertManagerChange env initial
        (new_getter env kubeconfig)
        creds
        target
        cp.spec.cert_manager
        cert_manager_chart
        (behind initial before)
        middle
  pub ingress :
      IngressChange env initial
        (new_getter env kubeconfig)
        creds
        target
        cp.spec.ingress
        tc.status.kubernetes_version
        ingress_chart
        middle
        (behind initial after)

module _ (env : Env) (initial : Cluster) (cp : ClusterPrerequisites) (tc : TargetCluster)
    (kubeconfig : Bytes) (creds : OciCredentials) (cert_manager_chart ingress_chart : Chart)
    (target : Prepared env initial (new_getter env kubeconfig) creds)
    (credited : Credited env cp creds)
    (has_cert_manager : (spec : CertManagerComponent)
      → cp.spec.cert_manager ≡ some spec
      → Supplies env cert_manager_package.chart_ref
          (version_of cert_manager_package spec.version)
          creds
          cert_manager_chart)
    (has_ingress : (spec : IngressComponent)
      → cp.spec.ingress ≡ some spec
      → Supplies env traefik_package.chart_ref
          (version_of traefik_package spec.version)
          creds
          ingress_chart)
    (takes_cert_manager : target.serves.brings cert_manager_chart cert_manager_package.values
      ≡ true)
    (takes_ingress : target.serves.brings ingress_chart traefik_package.values ≡ true)
    (balanced : is_component_done (load_balancer_component_status cp.spec.load_balancer)
      ≡ true) where
  reconcile_components-RollsOut :
      (log : Log)
      → AreUsable (behind initial log)
      → RollsOut env initial cp tc kubeconfig creds target cert_manager_chart ingress_chart log
          (reconcile_components env cp tc kubeconfig log).1
  unfolding reconcile_components
  reconcile_components-RollsOut log (usable, usable_too) =
      let loaded =
        got_secret (record { namespace = cp.meta.namespace; name = credited.ref.name })
          (ok credited.secret)
        ∷ log in
      let getter = new_getter env kubeconfig in
      let first =
        reconcile_cert_manager-Finishes env initial getter creds target cp.spec.cert_manager
          cert_manager_chart loaded has_cert_manager takes_cert_manager usable in
      let still_usable =
        CertManagerChange-IsUsable env initial getter creds target cp.spec.cert_manager
          cert_manager_chart (behind initial loaded) _ (pull_secret_name traefik_package)
          first.changed usable_too in
      let second =
        reconcile_ingress-Finishes env initial getter creds target cp.spec.ingress
          tc.status.kubernetes_version ingress_chart
          (reconcile_cert_manager env getter cp.spec.cert_manager creds loaded).1 has_ingress
          takes_ingress still_usable in
      let components : ComponentStatuses = record {
        cert_manager = (reconcile_cert_manager env getter cp.spec.cert_manager creds loaded).0;
        ingress =
            (reconcile_ingress env getter cp.spec.ingress tc.status.kubernetes_version creds
              (reconcile_cert_manager env getter cp.spec.cert_manager creds loaded).1).0;
        load_balancer = load_balancer_component_status cp.spec.load_balancer;
      } in
      rw (load_run env cp creds log target.given credited, report_calls env cp components _)
        (record {
          cp' = (mark_components env cp components _).0;
          written = _;
          calls = _;
          middle =
              behind initial
                (reconcile_cert_manager env getter cp.spec.cert_manager creds loaded).1;
          ends = refl;
          same_meta = kept_meta env cp components _;
          same_spec = kept_spec env cp components _;
          ready = ready-mark_components env cp components _ first.finished second.finished balanced;
          cert_manager = first.changed;
          ingress = second.changed;
        })

  -- Calls that leave the cluster alone may come first.
  RollsOut-after :
      (log later after : Log)
      → behind initial later ≡ behind initial log
      → RollsOut env initial cp tc kubeconfig creds target cert_manager_chart ingress_chart later
          after
      → RollsOut env initial cp tc kubeconfig creds target cert_manager_chart ingress_chart log
          after
  RollsOut-after log later after same r = record {
    cp' = r.cp';
    written = r.written;
    calls = r.calls;
    middle = r.middle;
    ends = r.ends;
    ready = r.ready;
    same_meta = r.same_meta;
    same_spec = r.same_spec;
    cert_manager =
        subst
          (λ before.
            CertManagerChange env initial (new_getter env kubeconfig) creds target
              cp.spec.cert_manager cert_manager_chart before r.middle)
          same r.cert_manager;
    ingress = r.ingress;
  }

  pub reconcile_found-RollsOut :
      (log : Log)
      → Targeted env cp tc kubeconfig
      → AreUsable (behind initial log)
      → RollsOut env initial cp tc kubeconfig creds target cert_manager_chart ingress_chart log
          (reconcile_found env cp log).1
  reconcile_found-RollsOut log t usable =
      rw (reconcile_found_run env cp tc kubeconfig log t)
        (RollsOut-after log _ _ refl (reconcile_components-RollsOut _ usable))

  -- Where the resource can be read, its target cluster is ready and serves the operator, the
  -- image-pull Secrets that are there have the type of one, clients for the cluster can be built from
  -- its kubeconfig, the Secret of the registry holds credentials, the registry supplies the charts
  -- that are asked for, Helm brings them about there, and the load balancer needs no installation: a
  -- run writes the resource as ready, and what it has done to the namespaces, the image-pull Secrets
  -- and the releases there is to install cert-manager and then the ingress, each one unless the spec
  -- or the Kubernetes version says that it is to be left alone.
  pub reconcile-RollsOut :
      (req : NamespacedName) (log : Log)
      → ((before : Log) → env.get_cluster_prerequisites before req ≡ ok cp)
      → Targeted env cp tc kubeconfig
      → AreUsable (behind initial log)
      → RollsOut env initial cp tc kubeconfig creds target cert_manager_chart ingress_chart log
          (reconcile env req log).1
  unfolding reconcile
  reconcile-RollsOut req log present t usable = rw (present log) (
      RollsOut-after log (got_cluster_prerequisites req (ok cp) ∷ log) _ refl
        (reconcile_found-RollsOut (got_cluster_prerequisites req (ok cp) ∷ log) t usable))
