-- ===== src/Helm/Server/Repetition.antt =====
-- The image-pull Secret on a cluster that has been seen before: a second run behind a first, and any
-- run where the Secret has a type that the operator does not want.
use rancher_operator.Common.{
  true, ◌≡◌, inl, inr, refl, ap, ◌∙◌, false, some, ◌∷◌, ok, err, Error, wrap, arith,
}
use rancher_operator.Common.Text.{Text, Bytes, codes, text_eq}
use rancher_operator.Common.Text.Laws.{text_eq_iff}
use rancher_operator.Api.Meta.{NamespacedName, Secret}
use rancher_operator.Runtime.{
  Env, Log, Clientset, RestConfig, got_namespace, got_remote_secret, updated_remote_secret,
}
use rancher_operator.Helm.Getter.{KubeconfigRestClientGetter, to_rest_config}
use rancher_operator.Helm.PullSecret.{
  at_name, secret_type_docker_config_json, dockerconfigjson, ensure_namespace, ensure_secret,
  update_if_different, ensure_image_pull_secret,
}
use rancher_operator.Helm.PullSecret.Laws.{overwritten, ensure_secret_of_Provides}
use rancher_operator.Helm.Server.{is_label, Cluster, Serves, behind}
use rancher_operator.Helm.Server.Published.{Published, IsUsable, NamespaceChange}
use rancher_operator.Helm.Server.Publication.{
  ensure_namespace_run, ensure_image_pull_secret-Published,
}

-- What a run without a write has called.
abbrev reads : Clientset → NamespacedName → Secret → Log → Log
reads c n secret log = got_remote_secret c n (ok secret) ∷ got_namespace c n.namespace (ok tt) ∷ log

same_secrets :
    (added : Text) (before after : Cluster)
    → NamespaceChange added before after
    → after.secrets ≡ before.secrets
same_secrets added before after (inl same) = ap (λ c. c.secrets) same
same_secrets added before after (inr same) = ap (λ c. c.secrets) same

module _ (env : Env) (initial : Cluster) (getter : KubeconfigRestClientGetter) (config : RestConfig)
    (c : Clientset) (n : NamespacedName) (registry_host username password : Text) (desired : Bytes)
    (serves : Serves env n.name initial) (configured : to_rest_config env getter ≡ ok config)
    (built : env.new_clientset config ≡ ok c)
    (printed : dockerconfigjson registry_host username password ≡ ok desired)
    (label : is_label 63 n.namespace ≡ true) where
  ensure_image_pull_secret_of_Published :
      (earlier : Cluster) (log : Log) (p : Published n desired earlier (behind initial log))
      → ensure_image_pull_secret env getter n registry_host username password log
        ≡ (ok tt, reads c n p.secret log)
  unfolding ensure_image_pull_secret ensure_namespace
  ensure_image_pull_secret_of_Published earlier log p =
      let looked = got_namespace c n.namespace (ok tt) ∷ log in
      let there = serves.namespace_found log c n.namespace p.namespace_there in
      let got = serves.secret_found looked c n p.secret refl p.stored in
      let kept = ensure_secret_of_Provides env c n desired looked p.secret got p.provides in
      rw (configured, built, there, printed, kept) refl

  -- On a cluster that serves the operator, where the Secret, if it is there, has the type of an
  -- image-pull Secret, with a namespace of a valid name, and with a kubeconfig from which a client
  -- can be built: a first run publishes the Secret, and a second run directly behind it succeeds too,
  -- reads the namespace and the Secret, and writes nothing.
  pub ensure_image_pull_secret-repeats :
      (log : Log)
      → IsUsable n (behind initial log)
      → (after : Log) × (secret : Secret) × (ensure_image_pull_secret env getter n registry_host
            username password log
          ≡ (ok tt, after))
        × Published n desired (behind initial log) (behind initial after)
        × (ensure_image_pull_secret env getter n registry_host username password after
            ≡ (ok tt, reads c n secret after))
  ensure_image_pull_secret-repeats log usable =
      let (after, ran, published) =
        ensure_image_pull_secret-Published env initial getter config c n registry_host username
          password desired log serves configured built printed label usable in
      (
        after,
        published.secret,
        ran,
        published,
        ensure_image_pull_secret_of_Published (behind initial log) after published,
      )

  -- The Secret is there with another type.
  ensure_secret_retyped :
      (log : Log) (old : Secret)
      → (behind initial log).secrets n ≡ some old
      → text_eq old.type secret_type_docker_config_json ≡ false
      → (e : Error) × (after : Log) × (ensure_secret env c n desired log ≡ (err e, after))
        × (behind initial after ≡ behind initial log)
  unfolding ensure_secret update_if_different
  ensure_secret_retyped log old found other =
      let got = serves.secret_found log c n old refl found in
      let looked = got_remote_secret c n (ok old) ∷ log in
      let (e, refused) =
        serves.secret_type_kept looked c n (overwritten desired old) old refl found (
          ground (
            arith,
            text_eq_iff secret_type_docker_config_json old.type,
            text_eq_iff old.type secret_type_docker_config_json,
          )) in
      (
        wrap (at_name env (codes "updating image-pull Secret ") n) e,
        updated_remote_secret c n (overwritten desired old) (err e) ∷ looked,
        rw (got, other, refused) refl,
        refl,
      )

  pub ensure_image_pull_secret_retyped :
      (log : Log) (old : Secret)
      → (behind initial log).secrets n ≡ some old
      → text_eq old.type secret_type_docker_config_json ≡ false
      → (e : Error) × (after : Log) × (ensure_image_pull_secret env getter n registry_host username
            password log
          ≡ (err e, after))
        × ((behind initial after).secrets ≡ (behind initial log).secrets)
  unfolding ensure_image_pull_secret
  ensure_image_pull_secret_retyped log old found other =
      let (middle, spaced, change, _) =
        ensure_namespace_run env n.name initial serves c n.namespace log label in
      let same = same_secrets n.namespace (behind initial log) (behind initial middle) change in
      let (e, after, failed, kept) =
        ensure_secret_retyped middle old (ap (λ f. f n) same ∙ found) other in
      (
        e,
        after,
        rw (configured, built, spaced, printed, failed) refl,
        ap (λ s. s.secrets) kept ∙ same,
      )
