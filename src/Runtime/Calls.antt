-- ===== src/Runtime/Calls.antt =====
-- Every call that the operator makes to the outside, with the answer that it got.
use rancher_operator.Common.{ℕ, List, Result}
use rancher_operator.Common.Text.{Text}
use rancher_operator.Api.Meta.{NamespacedName, Secret}
use rancher_operator.Api.TargetCluster.{TargetCluster}
use rancher_operator.Api.ClusterPrerequisites.{ClusterPrerequisites}
use rancher_operator.Runtime.Types.{
  Clientset, Configuration, InstallRequest, PullResult, Releaser, Response, UpgradeRequest,
}

pub data Event : Type 0 where
  -- the management cluster, through `client.Client`
  got_target_cluster : NamespacedName → Result TargetCluster → Event
  got_cluster_prerequisites : NamespacedName → Result ClusterPrerequisites → Event
  got_secret : NamespacedName → Result Secret → Event
  updated_target_cluster_status : TargetCluster → Result (Unit {0}) → Event
  updated_cluster_prerequisites_status : ClusterPrerequisites → Result (Unit {0}) → Event
  -- the target cluster, through a clientset
  got_server_version : Clientset → Result Text → Event
  listed_nodes : Clientset → Result (List Text) → Event
  got_namespace : Clientset → Text → Result (Unit {0}) → Event
  created_namespace : Clientset → Text → Result (Unit {0}) → Event
  got_remote_secret : Clientset → NamespacedName → Result Secret → Event
  created_remote_secret : Clientset → NamespacedName → Secret → Result (Unit {0}) → Event
  updated_remote_secret : Clientset → NamespacedName → Secret → Result (Unit {0}) → Event
  -- the chart registry: host, user name and password; reference
  logged_in : Text → Text → Text → Result (Unit {0}) → Event
  pulled : Text → Result PullResult → Event
  -- chart repositories: the URL, and the time limit of the request
  fetched : Text → ℕ → Result Response → Event
  -- Helm on the target cluster
  got_release : Configuration → Text → Result Releaser → Event
  installed : Configuration → InstallRequest → Result Releaser → Event
  upgraded : Configuration → UpgradeRequest → Result Releaser → Event

-- Newest first.
abbrev pub Log : Type 0
Log = List Event
