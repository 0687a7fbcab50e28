-- ===== src/Controller/ClusterPrerequisites/Repetition.antt =====
-- Runs one after the other, each on the resource that the one before it wrote.
use rancher_operator.Common.{ℕ, zero, suc, ◌≡◌, ◌∙◌, refl, ap, sym, true, some, ◌∷◌}
use rancher_operator.Common.Text.{Bytes}
use rancher_operator.Api.Meta.{NamespacedName}
use rancher_operator.Api.TargetCluster.{TargetCluster}
use rancher_operator.Api.ClusterPrerequisites.{
  ClusterPrerequisites, CertManagerComponent, IngressComponent,
}
use rancher_operator.Runtime.{Env, Log, Chart, updated_cluster_prerequisites_status}
use rancher_operator.Helm.Getter.{new_getter}
use rancher_operator.Helm.Installer.{OciCredentials}
use rancher_operator.Helm.Server.{Cluster, behind}
use rancher_operator.Helm.Server.Published.{IsUsable}
use rancher_operator.Controller.Components.{
  pull_secret_name, cert_manager_package, traefik_package, version_of, is_component_done,
  load_balancer_component_status,
}
use rancher_operator.Controller.Components.Deployment.{Supplies}
use rancher_operator.Controller.Components.Rollout.{
  Prepared, CertManagerChange-IsUsable, IngressChange-IsUsable,
}
use rancher_operator.Controller.ClusterPrerequisites.{reconcile_found}
use rancher_operator.Controller.ClusterPrerequisites.Rollout.{
  AreUsable, RollsOut, reconcile_found-RollsOut,
}
use rancher_operator.Controller.ClusterPrerequisites.Sources.{Credited, Targeted}

-- The object that the newest call wrote, `cp` if it wrote none.
abbrev newest_write : ClusterPrerequisites → Log → ClusterPrerequisites
newest_write cp (updated_cluster_prerequisites_status cp' _ ∷ _) = cp'
newest_write cp _ = cp

-- The resource and the calls behind `k` runs, each on what the one before it wrote.
abbrev pub rerun : Env → ℕ → ClusterPrerequisites × Log → ClusterPrerequisites × Log
rerun env zero p = p
rerun env (suc k) p =
    let (cp, log) = rerun env k p in
    let after = (reconcile_found env cp log).1 in (newest_write cp after, after)

Credited-kept :
    (env : Env) (cp cp' : ClusterPrerequisites) (creds : OciCredentials)
    → cp'.meta ≡ cp.meta
    → cp'.spec ≡ cp.spec
    → Credited env cp creds
    → Credited env cp' creds
Credited-kept env cp cp' creds same_meta same_spec c = record {
  ref = c.ref;
  secret = c.secret;
  referred = ap (λ s. s.application_collection_credentials_secret_ref) same_spec ∙ c.referred;
  readable = λ log. rw same_meta (c.readable log);
  username = c.username;
  password = c.password;
}

Targeted-kept :
    (env : Env) (cp cp' : ClusterPrerequisites) (tc : TargetCluster) (kubeconfig : Bytes)
    → cp'.meta ≡ cp.meta
    → cp'.spec ≡ cp.spec
    → Targeted env cp tc kubeconfig
    → Targeted env cp' tc kubeconfig
Targeted-kept env cp cp' tc kubeconfig same_meta same_spec t = record {
  byo = t.byo;
  secret = t.secret;
  found = λ log. rw (same_meta, same_spec) (t.found log);
  ready = t.ready;
  is_byo = t.is_byo;
  has_spec = t.has_spec;
  readable = t.readable;
  holds = t.holds;
  filled = t.filled;
}

module _ (env : Env) (initial : Cluster) (cp : ClusterPrerequisites) (tc : TargetCluster)
    (kubeconfig : Bytes) (creds : OciCredentials) (cert_manager_chart ingress_chart : Chart)
    (target : Prepared env initial (new_getter env kubeconfig) creds)
    (credited : Credited env cp creds) (targeted : Targeted env cp tc kubeconfig)
    (has_cert_manager : (spec : CertManagerComponent)
      → cp.spec.cert_manager ≡ some spec
      → Supplies env cert_manager_package.chart_ref
          (version_of cert_manager_package spec.version)
          creds
          cert_manager_chart)
    (has_ingress : (spec : IngressComponent)
      → cp.spec.ingress ≡ some spec
      → Supplies env traefik_package.chart_ref
          (version_of traefik_package spec.version)
          creds
          ingress_chart)
    (takes_cert_manager : target.serves.brings cert_manager_chart cert_manager_package.values
      ≡ true)
    (takes_ingress : target.serves.brings ingress_chart traefik_package.values ≡ true)
    (balanced : is_component_done (load_balancer_component_status cp.spec.load_balancer)
      ≡ true) where
  abbrev Rolls : ClusterPrerequisites → Log → Log → Type 0
  Rolls cp' = RollsOut env initial cp' tc kubeconfig creds target cert_manager_chart ingress_chart

  -- What each run leaves for the next.
  record Leaves (p : ClusterPrerequisites × Log) : Type 0 where
    same_meta : p.0.meta ≡ cp.meta
    same_spec : p.0.spec ≡ cp.spec
    usable : AreUsable (behind initial p.1)

  run_again :
      (p : ClusterPrerequisites × Log) → Leaves p → Rolls p.0 p.1 (reconcile_found env p.0 p.1).1
  run_again p l =
      reconcile_found-RollsOut env initial p.0 tc kubeconfig creds cert_manager_chart ingress_chart
        target (Credited-kept env cp p.0 creds l.same_meta l.same_spec credited)
        (λ spec present.
          has_cert_manager spec (ap (λ s. s.cert_manager) (sym l.same_spec) ∙ present))
        (λ spec present. has_ingress spec (ap (λ s. s.ingress) (sym l.same_spec) ∙ present))
        takes_cert_manager takes_ingress
        (ap (λ s. is_component_done (load_balancer_component_status s.load_balancer)) l.same_spec
          ∙ balanced)
        p.1 (Targeted-kept env cp p.0 tc kubeconfig l.same_meta l.same_spec targeted) l.usable

  IsUsable-after :
      (cp' : ClusterPrerequisites) (before after : Log) (m : NamespacedName)
      → Rolls cp' before after
      → IsUsable m (behind initial before)
      → IsUsable m (behind initial after)
  IsUsable-after cp' before after m r usable =
      let getter = new_getter env kubeconfig in
      IngressChange-IsUsable env initial getter creds target cp'.spec.ingress
        tc.status.kubernetes_version ingress_chart r.middle (behind initial after) m r.ingress
        (CertManagerChange-IsUsable env initial getter creds target cp'.spec.cert_manager
          cert_manager_chart (behind initial before) r.middle m r.cert_manager usable)

  Leaves-next :
      (p : ClusterPrerequisites × Log)
      → Leaves p
      → let after = (reconcile_found env p.0 p.1).1 in Leaves (newest_write p.0 after, after)
  Leaves-next p l =
      let r = run_again p l in
      let after = (reconcile_found env p.0 p.1).1 in
      let wrote : newest_write p.0 after ≡ r.cp' = ap (newest_write p.0) r.ends in
      record {
        same_meta = ap (λ c. c.meta) wrote ∙ r.same_meta ∙ l.same_meta;
        same_spec = ap (λ c. c.spec) wrote ∙ r.same_spec ∙ l.same_spec;
        usable = (
          IsUsable-after p.0 p.1 after (pull_secret_name cert_manager_package) r l.usable.0,
          IsUsable-after p.0 p.1 after (pull_secret_name traefik_package) r l.usable.1,
        );
      }

  Leaves-rerun :
      (k : ℕ) (log : Log) → AreUsable (behind initial log) → Leaves (rerun env k (cp, log))
  Leaves-rerun zero log usable = record { same_meta = refl; same_spec = refl; usable = usable }
  Leaves-rerun (suc k) log usable = Leaves-next (rerun env k (cp, log)) (Leaves-rerun k log usable)

  -- Where the target cluster is ready and serves the operator, the image-pull Secrets that are there
  -- have the type of one, clients for the cluster can be built from its kubeconfig, the Secret of the
  -- registry holds credentials, the registry supplies the charts that are asked for, Helm brings them
  -- about there, and the load balancer needs no installation: behind any number of runs, each on the
  -- resource that the one before it wrote and on the cluster that it left, the next run again writes
  -- the resource as ready, its metadata and its spec kept, behind the changes of the target cluster
  -- for cert-manager and for the ingress.
  pub reconcile_found-keeps_rolling :
      (k : ℕ) (log : Log)
      → AreUsable (behind initial log)
      → Rolls
          (rerun env k (cp, log)).0
          (rerun env k (cp, log)).1
          (reconcile_found env (rerun env k (cp, log)).0 (rerun env k (cp, log)).1).1
  reconcile_found-keeps_rolling k log usable =
      run_again (rerun env k (cp, log)) (Leaves-rerun k log usable)
