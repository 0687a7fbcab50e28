-- ===== src/Api/ClusterPrerequisites.antt =====
-- api/v1alpha1/clusterprerequisites_types.go
use rancher_operator.Common.{ℕ, Bool, Option, List}
use rancher_operator.Common.Text.{Text, codes}
use rancher_operator.Api.Meta.{ObjectMeta, Condition, LocalObjectReference}

abbrev pub IngressType : Type 0
IngressType = Text

abbrev pub ingress_type_traefik : IngressType
ingress_type_traefik = codes "traefik"

abbrev pub LoadBalancerType : Type 0
LoadBalancerType = Text

abbrev pub load_balancer_type_cloud : LoadBalancerType
load_balancer_type_cloud = codes "cloud"

abbrev pub load_balancer_type_metallb : LoadBalancerType
load_balancer_type_metallb = codes "metallb"

abbrev pub load_balancer_type_none : LoadBalancerType
load_balancer_type_none = codes "none"

abbrev pub IngressBundledMode : Type 0
IngressBundledMode = Text

abbrev pub ingress_bundled_mode_auto : IngressBundledMode
ingress_bundled_mode_auto = codes "auto"

abbrev pub ingress_bundled_mode_use : IngressBundledMode
ingress_bundled_mode_use = codes "use"

abbrev pub ingress_bundled_mode_install : IngressBundledMode
ingress_bundled_mode_install = codes "install"

pub record CertManagerComponent : Type 0 where
  pub enabled : Bool
  pub version : Text

pub record IngressComponent : Type 0 where
  pub enabled : Bool
  pub type : IngressType
  pub use_bundled : IngressBundledMode
  pub version : Text

pub record MetalLbConfig : Type 0 where
  pub address_pool : Text
  pub version : Text

pub record LoadBalancerComponent : Type 0 where
  pub type : LoadBalancerType
  pub metallb : Option MetalLbConfig

pub record ClusterPrerequisitesSpec : Type 0 where
  pub target_cluster_ref : LocalObjectReference
  pub application_collection_credentials_secret_ref : Option LocalObjectReference
  pub cert_manager : Option CertManagerComponent
  pub ingress : Option IngressComponent
  pub load_balancer : Option LoadBalancerComponent

pub record ComponentStatus : Type 0 where
  pub ready : Bool
  pub skipped : Bool
  pub installed_version : Text
  pub message : Text

pub record ComponentStatuses : Type 0 where
  pub cert_manager : ComponentStatus
  pub ingress : ComponentStatus
  pub load_balancer : ComponentStatus

pub record ClusterPrerequisitesStatus : Type 0 where
  pub ready : Bool
  pub components : ComponentStatuses
  pub observed_generation : ℕ
  pub conditions : List Condition

pub record ClusterPrerequisites : Type 0 where
  pub meta : ObjectMeta
  pub spec : ClusterPrerequisitesSpec
  pub status : ClusterPrerequisitesStatus

pub record ClusterPrerequisitesList : Type 0 where
  pub items : List ClusterPrerequisites
