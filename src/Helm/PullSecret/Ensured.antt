-- ===== src/Helm/PullSecret/Ensured.antt =====
-- `EnsureImagePullSecret` as a whole.
use rancher_operator.Common.{◌≡◌, ◌≢◌, refl, subst, [], Result, ok, arith}
use rancher_operator.Common.Text.{Text, Bytes}
use rancher_operator.Api.Meta.{NamespacedName}
use rancher_operator.Runtime.{Env, Log, Clientset, RestConfig, attempt-rule, or_exit-rule}
use rancher_operator.Helm.Getter.{KubeconfigRestClientGetter, to_rest_config}
use rancher_operator.Helm.PullSecret.{dockerconfigjson, ensure_namespace, ensure_image_pull_secret}
use rancher_operator.Helm.PullSecret.Laws.{Ensures, Ensures-when_ok}

-- The client is the getter's, the namespace was ensured first, and then the Secret, with the bytes
-- that name the registry and the credentials.
pub record IsEnsured (env : Env) (getter : KubeconfigRestClientGetter) (name : NamespacedName)
    (registry_host username password : Text) (before after : Log) : Type 0 where
  pub config : RestConfig
  pub clientset : Clientset
  pub desired : Bytes
  pub middle : Log
  pub configured : to_rest_config env getter ≡ ok config
  pub built : env.new_clientset config ≡ ok clientset
  pub spaced : ensure_namespace env clientset name.namespace before ≡ (ok tt, middle)
  pub printed : dockerconfigjson registry_host username password ≡ ok desired
  pub ensured : Ensures clientset name desired middle after

pub dockerconfigjson-ne-nil :
    (registry_host username password : Text) (desired : Bytes)
    → dockerconfigjson registry_host username password ≡ ok desired
    → desired ≢ []
unfolding dockerconfigjson
dockerconfigjson-ne-nil registry_host username password desired h = ground arith

IsEnsured-when_ok :
    (env : Env) (getter : KubeconfigRestClientGetter) (name : NamespacedName)
    (registry_host username password : Text) (log : Log)
    → let p = ensure_image_pull_secret env getter name registry_host username password log in
      p.0 ≡ ok tt → IsEnsured env getter name registry_host username password log p.1
unfolding ensure_image_pull_secret
IsEnsured-when_ok env getter name registry_host username password log =
    let P : Result (Unit {0}) × Log → Type 0 =
      λ p. p.0 ≡ ok tt → IsEnsured env getter name registry_host username password log p.1 in
    or_exit-rule P (to_rest_config env getter) log _ _ (λ _ _ h. absurd (ground arith))
      λ config configured.
        or_exit-rule P (env.new_clientset config) log _ _ (λ _ _ h. absurd (ground arith))
          λ clientset built.
            attempt-rule P (ensure_namespace env clientset name.namespace log) _ _
              (λ _ _ _ h. absurd (ground arith))
              λ _ middle spaced.
                or_exit-rule P (dockerconfigjson registry_host username password) middle _ _
                  (λ _ _ h. absurd (ground arith))
                  λ desired printed done. record {
                    config = config;
                    clientset = clientset;
                    desired = desired;
                    middle = middle;
                    configured = configured;
                    built = built;
                    spaced = spaced;
                    printed = printed;
                    ensured =
                        Ensures-when_ok env clientset name desired
                          (dockerconfigjson-ne-nil registry_host username password desired printed)
                          middle done;
                  }

-- A successful run had a client of the getter's cluster, ensured the namespace first, and left the
-- Secret behind with the text that names the registry and the credentials.
pub ensure_image_pull_secret-IsEnsured :
    (env : Env) (getter : KubeconfigRestClientGetter) (name : NamespacedName)
    (registry_host username password : Text) (log after : Log)
    → ensure_image_pull_secret env getter name registry_host username password log ≡ (ok tt, after)
    → IsEnsured env getter name registry_host username password log after
ensure_image_pull_secret-IsEnsured env getter name registry_host username password log after h =
    subst (λ p. p.0 ≡ ok tt → IsEnsured env getter name registry_host username password log p.1) h
      (IsEnsured-when_ok env getter name registry_host username password log) refl
