-- ===== src/Helm/Server/Publication.antt =====
-- The image-pull Secret on a cluster that serves the operator.
use rancher_operator.Common.{
  ◌≡◌, ◌≢◌, ◌⊎◌, inl, inr, refl, sym, true, ◌&&◌, Bool-cases, Option, none, some, [], ◌∷◌, ok, err,
  get_or,
}
use rancher_operator.Common.Text.{Text, Bytes, text_eq}
use rancher_operator.Common.Text.Laws.{text_eq_iff, text_eq_refl}
use rancher_operator.Api.Meta.{insert, NamespacedName, Secret, secret_value}
use rancher_operator.Runtime.{
  Env, Log, Clientset, RestConfig, got_namespace, created_namespace, got_remote_secret,
  created_remote_secret, updated_remote_secret,
}
use rancher_operator.Helm.Getter.{KubeconfigRestClientGetter, to_rest_config}
use rancher_operator.Helm.PullSecret.{
  secret_type_docker_config_json, docker_config_json_key, bytes_equal, dockerconfigjson,
  ensure_namespace, ensure_secret, create_if_missing, update_if_different, ensure_image_pull_secret,
}
use rancher_operator.Helm.PullSecret.Laws.{
  Provides, created, overwritten, Provides-of_test, created-Provides, overwritten-Provides,
  overwritten-Keeps, ensure_secret_of_Provides,
}
use rancher_operator.Helm.PullSecret.Ensured.{dockerconfigjson-ne-nil}
use rancher_operator.Helm.Server.Published.{
  SecretChange, Published, Published-of_there, Published-of_steps, IsUsable, IsUsable-of_namespaces,
}
use rancher_operator.Helm.Server.{is_label, IsValid, Cluster, Serves, behind, add}

module _ (env : Env) (own : Text) (initial : Cluster) (serves : Serves env own initial)
    (c : Clientset) where
  -- The namespace is there, or is added.
  pub ensure_namespace_run :
      (n : Text) (log : Log)
      → is_label 63 n ≡ true
      → (after : Log) × (ensure_namespace env c n log ≡ (ok tt, after))
        × ((behind initial after ≡ behind initial log)
            ⊎ (behind initial after ≡ record (behind initial log) {
              namespaces = add n (behind initial log).namespaces;
            }))
        × ((behind initial after).namespaces n ≡ true)
  unfolding ensure_namespace
  ensure_namespace_run n log label = elim (Bool-cases ((behind initial log).namespaces n)) [
    | inl there ↦ (
      got_namespace c n (ok tt) ∷ log,
      rw (serves.namespace_found log c n there) refl,
      inl refl,
      there,
    )
    | inr absent ↦
        let (e, lost, missing) = serves.namespace_missing log c n label absent in
        let made = serves.namespace_created (got_namespace c n (err e) ∷ log) c n label absent in
        (
          created_namespace c n (ok tt) ∷ got_namespace c n (err e) ∷ log,
          rw (lost, missing, made) refl,
          inr refl,
          rw (text_eq_refl n) refl,
        )
  ]

  -- The existing Secret is as wanted, or is overwritten.
  update_run :
      (n : NamespacedName) (desired : Bytes) (log : Log) (old : Secret)
      → n.name ≡ own
      → ((s : Secret) → Provides desired s → IsValid s)
      → desired ≢ []
      → (behind initial log).secrets n ≡ some old
      → old.type ≡ secret_type_docker_config_json
      → (after : Log) × (ensure_secret env c n desired log ≡ (ok tt, after))
        × SecretChange n desired (behind initial log) (behind initial after)
  unfolding ensure_secret update_if_different insert
  update_run n desired log old named valid filled found typed =
      let got = serves.secret_found log c n old named found in
      let same =
        text_eq old.type secret_type_docker_config_json
        && bytes_equal (get_or (secret_value old docker_config_json_key) []) desired in
      elim (Bool-cases same) [
        | inl as_wanted ↦
            let provides = Provides-of_test desired old filled as_wanted in
            (
              got_remote_secret c n (ok old) ∷ log,
              ensure_secret_of_Provides env c n desired log old got provides,
              SecretChange.unchanged old found provides refl,
            )
        | inr differs ↦
            let written =
              serves.secret_updated (got_remote_secret c n (ok old) ∷ log) c n
                (overwritten desired old) old named
                (valid (overwritten desired old) (overwritten-Provides desired old)) found
                ((text_eq_iff secret_type_docker_config_json old.type).1 (sym typed)) in
            (
              updated_remote_secret c n (overwritten desired old) (ok tt)
                  ∷ got_remote_secret c n (ok old)
                  ∷ log,
              rw (got, differs, written) refl,
              SecretChange.replaced (overwritten desired old) old found
                  (overwritten-Provides desired old) (overwritten-Keeps desired old) refl,
            )
      ]

  -- Nothing is there, in a namespace that is.
  create_run :
      (n : NamespacedName) (desired : Bytes) (log : Log)
      → n.name ≡ own
      → ((s : Secret) → Provides desired s → IsValid s)
      → (behind initial log).namespaces n.namespace ≡ true
      → (behind initial log).secrets n ≡ none
      → (after : Log) × (ensure_secret env c n desired log ≡ (ok tt, after))
        × SecretChange n desired (behind initial log) (behind initial after)
  unfolding ensure_secret create_if_missing
  create_run n desired log named valid there absent =
      let (e, lost, missing) = serves.secret_missing log c n named there absent in
      let written =
        serves.secret_created (got_remote_secret c n (err e) ∷ log) c n (created desired) named
          (valid (created desired) (created-Provides desired)) there absent in
      (
        created_remote_secret c n (created desired) (ok tt) ∷ got_remote_secret c n (err e) ∷ log,
        rw (lost, missing, written) refl,
        SecretChange.made (created desired) absent (created-Provides desired) refl,
      )

  ensure_secret_run :
      (n : NamespacedName) (desired : Bytes) (log : Log)
      → n.name ≡ own
      → ((s : Secret) → Provides desired s → IsValid s)
      → desired ≢ []
      → (behind initial log).namespaces n.namespace ≡ true
      → IsUsable n (behind initial log)
      → (after : Log) × (ensure_secret env c n desired log ≡ (ok tt, after))
        × SecretChange n desired (behind initial log) (behind initial after)
  ensure_secret_run n desired log named valid filled there usable =
      by_secret ((behind initial log).secrets n) refl (create_run n desired log named valid there)
        λ old found. update_run n desired log old named valid filled found (usable old found)
    where
      by_secret :
          (o : Option Secret)
          → (behind initial log).secrets n ≡ o
          → ((behind initial log).secrets n ≡ none
              → (after : Log) × (ensure_secret env c n desired log ≡ (ok tt, after))
                × SecretChange n desired (behind initial log) (behind initial after))
          → ((old : Secret)
              → (behind initial log).secrets n ≡ some old
              → (after : Log) × (ensure_secret env c n desired log ≡ (ok tt, after))
                × SecretChange n desired (behind initial log) (behind initial after))
          → (after : Log) × (ensure_secret env c n desired log ≡ (ok tt, after))
            × SecretChange n desired (behind initial log) (behind initial after)
      by_secret none h on_none on_some = on_none h
      by_secret (some old) h on_none on_some = on_some old h

-- On a cluster that serves the operator, where the Secret, if it is there, has the type of an
-- image-pull Secret, and with a kubeconfig from which a client can be built: the function succeeds, and
-- what it does to the namespaces, to the Secrets of this name and to the releases is to publish the
-- Secret.
pub ensure_image_pull_secret-Published :
    (env : Env) (initial : Cluster) (getter : KubeconfigRestClientGetter) (config : RestConfig)
    (c : Clientset) (n : NamespacedName) (registry_host username password : Text) (desired : Bytes)
    (log : Log)
    → Serves env n.name initial
    → to_rest_config env getter ≡ ok config
    → env.new_clientset config ≡ ok c
    → dockerconfigjson registry_host username password ≡ ok desired
    → is_label 63 n.namespace ≡ true
    → IsUsable n (behind initial log)
    → (after : Log) × (ensure_image_pull_secret env getter n registry_host username password log
        ≡ (ok tt, after))
      × Published n desired (behind initial log) (behind initial after)
unfolding ensure_image_pull_secret
ensure_image_pull_secret-Published env initial getter config c n registry_host username password
      desired log serves configured built printed label usable =
    let (middle, spaced, change, there) =
      ensure_namespace_run env n.name initial serves c n.namespace log label in
    let (after, ran, secret_change) =
      ensure_secret_run env n.name initial serves c n desired middle refl
        (λ s provides. (registry_host, username, password, desired, printed, provides))
        (dockerconfigjson-ne-nil registry_host username password desired printed) there
        (IsUsable-of_namespaces n n.namespace (behind initial log) (behind initial middle) change
          usable) in
    (
      after,
      rw (configured, built, spaced, printed, ran) refl,
      Published-of_steps n desired (behind initial log) (behind initial middle)
          (behind initial after) change
          (Published-of_there n desired (behind initial middle) (behind initial after) there
            secret_change),
    )
