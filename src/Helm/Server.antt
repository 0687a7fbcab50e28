-- ===== src/Helm/Server.antt =====
-- A target cluster as a state: its namespaces, its Secrets and its Helm releases, changed by the calls
-- that the operator makes, and what the operator relies on of its API server and of Helm.
pub mod Published
pub mod Publication
pub mod Repetition
pub mod Rollout
use rancher_operator.Helm.PullSecret.{dockerconfigjson}
use rancher_operator.Helm.PullSecret.Laws.{Provides}
use rancher_operator.Common.{
  ℕ, leb, ◌==◌, length, ◌≡◌, Bool, true, false, ◌&&◌, ◌||◌, Option, none, some, [], ◌∷◌, Error,
  Result, ok, err, is_not_found, if◌then◌else◌,
}
use rancher_operator.Common.Text.{Text, Bytes, codes, text_eq, has_prefix}
use rancher_operator.Api.Meta.{NamespacedName, Secret}
use rancher_operator.Runtime.{
  Env, Event, Log, Clientset, Configuration, Chart, Fields, InstallRequest, UpgradeRequest, Release,
  Releaser, release_v1, created_namespace, created_remote_secret, updated_remote_secret, installed,
  upgraded,
}
use rancher_operator.Helm.Installer.{is_release_not_found}

-- A release as it was last installed or upgraded.
pub record Deployment : Type 0 where
  pub chart : Chart
  pub values : Fields

-- Releases are found by their namespace and name. The Secrets are those of the one name that the
-- operator gives its own, in any namespace; Helm's records of releases and the objects of a chart have
-- other names, and are no part of the state.
pub record Cluster : Type 0 where
  pub namespaces : Text → Bool
  pub secrets : NamespacedName → Option Secret
  pub releases : NamespacedName → Option Deployment

abbrev pub name_eq : NamespacedName → NamespacedName → Bool
name_eq m n = text_eq m.namespace n.namespace && text_eq m.name n.name

-- `f`, with `v` at the name `n`.
abbrev pub put {ℓ} :
    {V : Type ℓ} → NamespacedName → V → (NamespacedName → Option V) → NamespacedName → Option V
put n v f m = if name_eq m n then some v else f m

abbrev pub add : Text → (Text → Bool) → Text → Bool
add n f m = text_eq m n || f m

-- What one call of the operator changes in this state, by its answer. The namespace of a release that
-- is installed is there already, by `release_installed` below.
abbrev pub changed_by : Event → Cluster → Cluster
changed_by (created_namespace c n (ok _)) cluster = record cluster {
  namespaces = add n cluster.namespaces;
}
changed_by (created_remote_secret c n s (ok _)) cluster = record cluster {
  secrets = put n s cluster.secrets;
}
changed_by (updated_remote_secret c n s (ok _)) cluster = record cluster {
  secrets = put n s cluster.secrets;
}
changed_by (installed config request (ok _)) cluster = record cluster {
  releases =
      put (record { namespace = config.namespace; name = request.release_name })
        (record { chart = request.chart; values = request.values }) cluster.releases;
}
changed_by (upgraded config request (ok _)) cluster = record cluster {
  releases =
      put (record { namespace = config.namespace; name = request.release_name })
        (record { chart = request.chart; values = request.values }) cluster.releases;
}
changed_by _ cluster = cluster

-- The cluster behind the calls of a log, newest first.
abbrev pub behind : Cluster → Log → Cluster
behind initial [] = initial
behind initial (e ∷ log) = changed_by e (behind initial log)

-- What Helm's driver "secrets" puts in front of the name of a release, in the Secret that records it.
abbrev pub helm_secret_prefix : Text
helm_secret_prefix = codes "sh.helm.release.v1."

abbrev is_alphanumeric : ℕ → Bool
is_alphanumeric c = (leb b'a' c && leb c b'z') || (leb b'0' c && leb c b'9')

abbrev ends_label : Text → Bool
ends_label [] = false
ends_label (c ∷ []) = is_alphanumeric c
ends_label (c ∷ d ∷ s) = (is_alphanumeric c || c == b'-') && ends_label (d ∷ s)

-- A label of RFC 1123, which names a namespace, and may name a Secret. With 53 bytes at most it may
-- name a release too.
abbrev pub is_label : ℕ → Text → Bool
is_label most [] = false
is_label most (c ∷ s) = is_alphanumeric c && (ends_label (c ∷ s) && leb (length (c ∷ s)) most)

-- A Secret that the operator may want: it has the type and the data of an image-pull Secret, so that the
-- API server finds it valid.
abbrev pub IsValid : Secret → Type 0
IsValid s =
    (registry_host username password : Text) × (desired : Bytes) × (dockerconfigjson registry_host
        username password
      ≡ ok desired)
    × Provides desired s

-- The answers are those of one cluster, whose namespaces, releases and Secrets of the name `own`
-- nobody else changes meanwhile, and which takes every valid write that its state allows: a namespace
-- or a Secret that is missing is created, and a Secret that is there is updated, but its type is
-- immutable. A release that is there can be upgraded, and one that is not can be installed, with the
-- charts and values that Helm `brings` about there. `own` is no name of a Secret in which Helm
-- records a release.
pub record Serves (env : Env) (own : Text) (initial : Cluster) : Type 0 where
  pub brings : Chart → Fields → Bool
  pub own_label : is_label 63 own ≡ true
  pub own_name : has_prefix own helm_secret_prefix ≡ false
  pub namespace_found :
      (log : Log) (c : Clientset) (n : Text)
      → (behind initial log).namespaces n ≡ true
      → env.get_namespace log c n ≡ ok tt
  pub namespace_missing :
      (log : Log) (c : Clientset) (n : Text)
      → is_label 63 n ≡ true
      → (behind initial log).namespaces n ≡ false
      → (e : Error) × (env.get_namespace log c n ≡ err e) × (is_not_found e ≡ true)
  pub namespace_created :
      (log : Log) (c : Clientset) (n : Text)
      → is_label 63 n ≡ true
      → (behind initial log).namespaces n ≡ false
      → env.create_namespace log c n ≡ ok tt
  pub secret_found :
      (log : Log) (c : Clientset) (n : NamespacedName) (s : Secret)
      → n.name ≡ own
      → (behind initial log).secrets n ≡ some s
      → env.get_remote_secret log c n ≡ ok s
  pub secret_missing :
      (log : Log) (c : Clientset) (n : NamespacedName)
      → n.name ≡ own
      → (behind initial log).namespaces n.namespace ≡ true
      → (behind initial log).secrets n ≡ none
      → (e : Error) × (env.get_remote_secret log c n ≡ err e) × (is_not_found e ≡ true)
  pub secret_created :
      (log : Log) (c : Clientset) (n : NamespacedName) (s : Secret)
      → n.name ≡ own
      → IsValid s
      → (behind initial log).namespaces n.namespace ≡ true
      → (behind initial log).secrets n ≡ none
      → env.create_remote_secret log c n s ≡ ok tt
  pub secret_updated :
      (log : Log) (c : Clientset) (n : NamespacedName) (s old : Secret)
      → n.name ≡ own
      → IsValid s
      → (behind initial log).secrets n ≡ some old
      → text_eq s.type old.type ≡ true
      → env.update_remote_secret log c n s ≡ ok tt
  pub secret_type_kept :
      (log : Log) (c : Clientset) (n : NamespacedName) (s old : Secret)
      → n.name ≡ own
      → (behind initial log).secrets n ≡ some old
      → text_eq s.type old.type ≡ false
      → (e : Error) × (env.update_remote_secret log c n s ≡ err e)
  pub release_found :
      (log : Log) (config : Configuration) (name : Text) (d : Deployment)
      → (behind initial log).releases (record { namespace = config.namespace; name = name })
        ≡ some d
      → (r : Releaser) × (env.get_release log config name ≡ ok r)
  pub release_missing :
      (log : Log) (config : Configuration) (name : Text)
      → is_label 53 name ≡ true
      → (behind initial log).releases (record { namespace = config.namespace; name = name }) ≡ none
      → (e : Error) × (env.get_release log config name ≡ err e) × (is_release_not_found e ≡ true)
  pub release_installed :
      (log : Log) (config : Configuration) (request : InstallRequest)
      → is_label 53 request.release_name ≡ true
      → brings request.chart request.values ≡ true
      → (behind initial log).namespaces request.namespace ≡ true
      → (behind initial log).releases
          (record { namespace = config.namespace; name = request.release_name })
        ≡ none
      → (r : Option Release) × (env.install log config request ≡ ok (release_v1 r))
  pub release_upgraded :
      (log : Log) (config : Configuration) (request : UpgradeRequest) (d : Deployment)
      → brings request.chart request.values ≡ true
      → (behind initial log).releases
          (record { namespace = config.namespace; name = request.release_name })
        ≡ some d
      → (r : Option Release) × (env.upgrade log config request ≡ ok (release_v1 r))
