-- ===== src/Helm/PullSecret.antt =====
-- internal/helm/pullsecret.go
pub mod Laws
pub mod Ensured
pub mod Reader
pub mod RoundTrip
use rancher_operator.Common.{
  Bool, true, false, ◌&&◌, some, [], ◌∷◌, ◌++◌, ◌==◌, length, Error, Result, ok, err, wrap,
  is_not_found, is_already_exists, not, get_or, if◌then◌else◌,
}
use rancher_operator.Common.Text.{Text, Bytes, codes, text_eq}
use rancher_operator.Api.Meta.{NamespacedName, Secret, secret_value, insert}
use rancher_operator.Runtime.{
  Env, M, return, call, ◌>>=◌, ◌>>◌, attempt, attempt_pure, unless_ok, exit_if, perform, body,
  Clientset, got_namespace, created_namespace, got_remote_secret, created_remote_secret,
  updated_remote_secret,
}
use rancher_operator.Helm.Getter.{KubeconfigRestClientGetter, to_rest_config}
use rancher_operator.Helm.Base64.{encode}
use rancher_operator.Helm.Json.{marshal_string, member}

-- `corev1.SecretTypeDockerConfigJson`
abbrev pub secret_type_docker_config_json : Text
secret_type_docker_config_json = codes "kubernetes.io/dockerconfigjson"

-- `corev1.DockerConfigJsonKey`
abbrev pub docker_config_json_key : Text
docker_config_json_key = codes ".dockerconfigjson"

-- The loop over the indices of two slices of one length.
unfoldable pub same_items : Bytes → Bytes → Bool
same_items (x ∷ xs) (y ∷ ys) = x == y && same_items xs ys
same_items _ _ = true

-- `bytesEqual`
unfoldable pub bytes_equal : Bytes → Bytes → Bool
unfolding same_items
bytes_equal a b = if length a == length b then same_items a b else false

-- The text of an `authEntry`.
unfoldable pub auth_entry : Text → Text → Text
auth_entry username password =
    b'{'
    ∷ (member (codes "username") (marshal_string username)
        ++ (b','
            ∷ (member (codes "password") (marshal_string password)
                ++ (b','
                    ∷ (member (codes "auth")
                          (marshal_string (encode (username ++ (b':' ∷ password))))
                        ++ b'}' ∷ [])))))

-- `dockerconfigjson`; `json.Marshal` does not fail on strings.
unfoldable pub dockerconfigjson : Text → Text → Text → Result Bytes
dockerconfigjson registry_host username password = ok (
    codes "{\"auths\":{"
    ++ (marshal_string registry_host ++ (b':' ∷ (auth_entry username password ++ codes "}}"))))

module _ (env : Env) where
  open env use {quote}

  -- `ensureNamespace`
  unfoldable pub ensure_namespace : Clientset → Text → M (Result (Unit {0}))
  ensure_namespace clientset name = body do
    lookup_error ←
        unless_ok
          (call (λ log. env.get_namespace log clientset name) (got_namespace clientset name))
          (λ _. return (ok tt))
    exit_if (not (is_not_found lookup_error))
        (return (err (wrap (codes "looking up namespace " ++ quote name) lookup_error)))
    create_error ←
        unless_ok
          (call (λ log. env.create_namespace log clientset name) (created_namespace clientset name))
          (λ _. return (ok tt))
    exit_if (not (is_already_exists create_error))
        (return (err (wrap (codes "creating namespace " ++ quote name) create_error)))
    perform (return (ok tt))

  -- `%s/%s` of a namespace and a name, behind a text
  abbrev pub at_name : Text → NamespacedName → Text
  at_name what name = what ++ (name.namespace ++ (b'/' ∷ name.name))

  -- The cases of the `switch` in which the Secret could not be read.
  unfoldable pub create_if_missing :
      Clientset → NamespacedName → Bytes → Error → M (Result (Unit {0}))
  create_if_missing clientset name desired e = body do
    exit_if (not (is_not_found e))
        (return (err (wrap (at_name (codes "looking up image-pull Secret ") name) e)))
    let secret : Secret = record {
      type = secret_type_docker_config_json;
      contents = some ((docker_config_json_key, desired) ∷ []);
    }
    attempt
        (call (λ log. env.create_remote_secret log clientset name secret)
          (created_remote_secret clientset name secret))
        (λ e'. return (err (wrap (at_name (codes "creating image-pull Secret ") name) e')))
    perform (return (ok tt))

  -- What follows when the Secret exists. An entry is added to a map that is not nil.
  unfoldable pub update_if_different :
      Clientset → NamespacedName → Bytes → Secret → M (Result (Unit {0}))
  update_if_different clientset name desired existing = body do
    exit_if
        (text_eq existing.type secret_type_docker_config_json
          && bytes_equal (get_or (secret_value existing docker_config_json_key) []) desired)
        (return (ok tt))
    let secret : Secret = record {
      type = secret_type_docker_config_json;
      contents = some (insert docker_config_json_key desired (get_or existing.contents []));
    }
    attempt
        (call (λ log. env.update_remote_secret log clientset name secret)
          (updated_remote_secret clientset name secret))
        (λ e. return (err (wrap (at_name (codes "updating image-pull Secret ") name) e)))
    perform (return (ok tt))

  -- `EnsureImagePullSecret`, from the look at the Secret on.
  unfoldable pub ensure_secret : Clientset → NamespacedName → Bytes → M (Result (Unit {0}))
  ensure_secret clientset name desired = body do
    existing ←
        attempt
          (call (λ log. env.get_remote_secret log clientset name)
            (got_remote_secret clientset name))
          (create_if_missing clientset name desired)
    perform (update_if_different clientset name desired existing)

  -- `EnsureImagePullSecret`, with the namespace and the name of the Secret in one.
  unfoldable pub ensure_image_pull_secret :
      KubeconfigRestClientGetter
      → NamespacedName
      → (registry_host username password : Text) → M (Result (Unit {0}))
  ensure_image_pull_secret getter name registry_host username password = body do
    config ←
        attempt_pure (to_rest_config env getter)
          λ e. return (err (wrap (codes "resolving target REST config") e))
    clientset ←
        attempt_pure (env.new_clientset config)
          λ e. return (err (wrap (codes "building target clientset") e))
    attempt (ensure_namespace clientset name.namespace) (λ e. return (err e))
    desired ← attempt_pure (dockerconfigjson registry_host username password) λ e. return (err e)
    perform (ensure_secret clientset name desired)
