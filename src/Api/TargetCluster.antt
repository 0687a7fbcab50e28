-- ===== src/Api/TargetCluster.antt =====
-- api/v1alpha1/targetcluster_types.go
use rancher_operator.Common.{ℕ, ℤ, Bool, Option, List}
use rancher_operator.Common.Text.{Text, codes}
use rancher_operator.Api.Meta.{ObjectMeta, Condition}

-- A Go string; the constants name the values in use.
abbrev pub TargetClusterType : Type 0
TargetClusterType = Text

abbrev pub target_cluster_type_byo : TargetClusterType
target_cluster_type_byo = codes "byo"

pub record KubeconfigSecretRef : Type 0 where
  pub name : Text
  pub key : Text

pub record ByoSpec : Type 0 where
  pub kubeconfig_secret_ref : KubeconfigSecretRef

pub record TargetClusterSpec : Type 0 where
  pub type : TargetClusterType
  pub byo : Option ByoSpec

pub record TargetClusterStatus : Type 0 where
  pub ready : Bool
  pub kubernetes_version : Text
  pub node_count : ℤ
  pub observed_generation : ℕ
  pub conditions : List Condition

pub record TargetCluster : Type 0 where
  pub meta : ObjectMeta
  pub spec : TargetClusterSpec
  pub status : TargetClusterStatus

pub record TargetClusterList : Type 0 where
  pub items : List TargetCluster
