-- ===== src/Controller/Permissions.antt =====
-- What the `+kubebuilder:rbac` markers above the reconcilers let the operator do on the management
-- cluster, and what its calls need. controller-gen joins the markers of all files into one role,
-- config/rbac/role.yaml, which so allows what each of the lists below allows.
pub mod Laws
pub mod Targets
pub mod Prerequisites
use rancher_operator.Common.{Bool, true, false, ◌&&◌, ◌||◌, List, [], ◌∷◌}
use rancher_operator.Common.Text.{Text, codes, text_eq}
use rancher_operator.Runtime.{
  Event, Log, got_target_cluster, got_cluster_prerequisites, got_secret,
  updated_target_cluster_status, updated_cluster_prerequisites_status,
}

-- One marker.
pub record Rule : Type 0 where
  pub group : Text
  pub resource : Text
  pub verbs : List Text

abbrev pub own_group : Text
own_group = codes "core.rancher-operator.io"

abbrev pub reading : List Text
reading = codes "get" ∷ codes "list" ∷ codes "watch" ∷ []

abbrev pub changing : List Text
changing = codes "get" ∷ codes "update" ∷ codes "patch" ∷ []

abbrev pub every_verb : List Text
every_verb =
    codes "get"
    ∷ codes "list"
    ∷ codes "watch"
    ∷ codes "create"
    ∷ codes "update"
    ∷ codes "patch"
    ∷ codes "delete"
    ∷ []

-- The markers above `TargetClusterReconciler.Reconcile`.
unfoldable pub target_cluster_rules : List Rule
target_cluster_rules =
    record { group = own_group; resource = codes "targetclusters"; verbs = every_verb }
    ∷ record { group = own_group; resource = codes "targetclusters/status"; verbs = changing }
    ∷ record {
      group = own_group;
      resource = codes "targetclusters/finalizers";
      verbs = codes "update" ∷ [];
    }
    ∷ record { group = []; resource = codes "secrets"; verbs = reading }
    ∷ []

-- The markers above `ClusterPrerequisitesReconciler.Reconcile`.
unfoldable pub cluster_prerequisites_rules : List Rule
cluster_prerequisites_rules =
    record { group = own_group; resource = codes "clusterprerequisites"; verbs = every_verb }
    ∷ record { group = own_group; resource = codes "clusterprerequisites/status"; verbs = changing }
    ∷ record {
      group = own_group;
      resource = codes "clusterprerequisites/finalizers";
      verbs = codes "update" ∷ [];
    }
    ∷ record { group = own_group; resource = codes "targetclusters"; verbs = reading }
    ∷ []

unfoldable pub has_verb : List Text → Text → Bool
unfolding text_eq
has_verb [] verb = false
has_verb (v ∷ vs) verb = text_eq v verb || has_verb vs verb

-- One verb on one resource.
unfoldable pub allows : List Rule → Text → Text → Text → Bool
unfolding text_eq has_verb
allows [] group resource verb = false
allows (r ∷ rules) group resource verb =
    (text_eq r.group group && (text_eq r.resource resource && has_verb r.verbs verb))
    || allows rules group resource verb

-- A read goes through the cache of the manager's client, which lists and watches the resource.
abbrev pub allows_read : List Rule → Text → Text → Bool
allows_read rules group resource =
    allows rules group resource (codes "get")
    && (allows rules group resource (codes "list") && allows rules group resource (codes "watch"))

-- What the role must allow for a call: a read, or an update of a status. Calls to anything else than
-- the management cluster need nothing of it.
unfoldable pub covers : List Rule → Event → Bool
unfolding allows
covers rules (got_target_cluster name r) = allows_read rules own_group (codes "targetclusters")
covers rules (got_cluster_prerequisites name r) =
    allows_read rules own_group (codes "clusterprerequisites")
covers rules (got_secret name r) = allows_read rules [] (codes "secrets")
covers rules (updated_target_cluster_status tc r) =
    allows rules own_group (codes "targetclusters/status") (codes "update")
covers rules (updated_cluster_prerequisites_status cp r) =
    allows rules own_group (codes "clusterprerequisites/status") (codes "update")
covers rules e = true

-- Every call of a log.
abbrev pub covers_all : List Rule → Log → Bool
covers_all rules [] = true
covers_all rules (e ∷ log) = covers rules e && covers_all rules log
