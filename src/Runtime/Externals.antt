-- ===== src/Runtime/Externals.antt =====
-- The code that the operator calls and does not hold: Kubernetes' client libraries, Helm, the
-- registry client, and `strconv.Quote`, whose answer at a non-ASCII text rests on Unicode's tables.
use rancher_operator.Common.{ℕ, Bool, List, Result}
use rancher_operator.Common.Text.{Text, Bytes}
use rancher_operator.Api.Meta.{Condition, NamespacedName, Secret}
use rancher_operator.Api.TargetCluster.{TargetCluster}
use rancher_operator.Api.ClusterPrerequisites.{ClusterPrerequisites}
use rancher_operator.Runtime.Types.{
  RestConfig, DiscoveryClient, Clientset, ClientConfig, Configuration, InstallRequest, LoadedChart,
  PullResult, Releaser, UpgradeRequest, Url, IndexFile, ChartVersion, Response,
}
use rancher_operator.Runtime.Calls.{Log}

-- A field that takes a `Log` may answer differently each time: the other clients of a cluster act
-- between two calls, and the clock runs.
pub record Env : Type 0 where
  pub quote : Text → Text
  pub set_status_condition : Log → List Condition → Condition → List Condition
  pub get_target_cluster : Log → NamespacedName → Result TargetCluster
  pub get_cluster_prerequisites : Log → NamespacedName → Result ClusterPrerequisites
  pub get_secret : Log → NamespacedName → Result Secret
  pub update_target_cluster_status : Log → TargetCluster → Result (Unit {0})
  pub update_cluster_prerequisites_status : Log → ClusterPrerequisites → Result (Unit {0})
  pub rest_config_from_kubeconfig : Bytes → Result RestConfig
  pub new_client_config_from_bytes : Bytes → Result ClientConfig
  pub client_config : ClientConfig → Result RestConfig
  pub new_discovery_client : RestConfig → Result DiscoveryClient
  pub new_clientset : RestConfig → Result Clientset
  pub server_version : Log → Clientset → Result Text
  pub list_nodes : Log → Clientset → Result (List Text)
  pub get_namespace : Log → Clientset → Text → Result (Unit {0})
  pub create_namespace : Log → Clientset → Text → Result (Unit {0})
  pub get_remote_secret : Log → Clientset → NamespacedName → Result Secret
  pub create_remote_secret : Log → Clientset → NamespacedName → Secret → Result (Unit {0})
  pub update_remote_secret : Log → Clientset → NamespacedName → Secret → Result (Unit {0})
  pub new_registry_client : Result (Unit {0})
  pub login : Log → Text → Text → Text → Result (Unit {0})
  pub pull : Log → Text → Result PullResult
  pub parse_url : Text → Result Url
  pub is_abs : Url → Bool
  pub join_path : Url → Text → Url
  pub resolve_reference : Url → Url → Url
  pub new_get_request : Text → Result (Unit {0})
  pub fetch : Log → Text → ℕ → Result Response
  pub unmarshal_index : Bytes → Result IndexFile
  pub index_get : IndexFile → Text → Text → Result ChartVersion
  pub load_archive : Bytes → Result LoadedChart
  pub init_configuration : Result ClientConfig → Text → Result Configuration
  pub get_release : Log → Configuration → Text → Result Releaser
  pub install : Log → Configuration → InstallRequest → Result Releaser
  pub upgrade : Log → Configuration → UpgradeRequest → Result Releaser
