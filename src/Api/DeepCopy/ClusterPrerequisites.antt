-- ===== src/Api/DeepCopy/ClusterPrerequisites.antt =====
-- The deep copies of the types of api/v1alpha1/clusterprerequisites_types.go.
pub mod Copies
use rancher_operator.Common.{ℕ, Bool, ◌++◌}
use rancher_operator.Common.Text.{Text}
use rancher_operator.Api.Meta.{LocalObjectReference}
use rancher_operator.Api.ClusterPrerequisites.{
  CertManagerComponent, IngressComponent, LoadBalancerType, MetalLbConfig, ComponentStatus,
  ComponentStatuses,
}
use rancher_operator.Api.DeepCopy.{
  Ptr, Slice, Object, Alloc, return, ◌>>=◌, copy_pointer, copy_slice, as_object, Layout, flat,
  pointer, slice, Apimachinery, TypeMeta,
}

abbrev pub local_object_reference_into : LocalObjectReference → Alloc LocalObjectReference
local_object_reference_into given = return given

abbrev pub copy_local_object_reference : Ptr LocalObjectReference → Alloc (Ptr LocalObjectReference)
copy_local_object_reference = copy_pointer local_object_reference_into

abbrev pub cert_manager_component_into : CertManagerComponent → Alloc CertManagerComponent
cert_manager_component_into given = return given

abbrev pub copy_cert_manager_component : Ptr CertManagerComponent → Alloc (Ptr CertManagerComponent)
copy_cert_manager_component = copy_pointer cert_manager_component_into

abbrev pub ingress_component_into : IngressComponent → Alloc IngressComponent
ingress_component_into given = return given

abbrev pub copy_ingress_component : Ptr IngressComponent → Alloc (Ptr IngressComponent)
copy_ingress_component = copy_pointer ingress_component_into

abbrev pub metallb_config_into : MetalLbConfig → Alloc MetalLbConfig
metallb_config_into given = return given

abbrev pub copy_metallb_config : Ptr MetalLbConfig → Alloc (Ptr MetalLbConfig)
copy_metallb_config = copy_pointer metallb_config_into

abbrev pub component_status_into : ComponentStatus → Alloc ComponentStatus
component_status_into given = return given

abbrev pub copy_component_status : Ptr ComponentStatus → Alloc (Ptr ComponentStatus)
copy_component_status = copy_pointer component_status_into

abbrev pub component_statuses_into : ComponentStatuses → Alloc ComponentStatuses
component_statuses_into given =
    let out = given in
    return (record out {
      cert_manager = given.cert_manager;
      ingress = given.ingress;
      load_balancer = given.load_balancer;
    })

abbrev pub copy_component_statuses : Ptr ComponentStatuses → Alloc (Ptr ComponentStatuses)
copy_component_statuses = copy_pointer component_statuses_into

pub record StoredLoadBalancerComponent : Type 0 where
  pub type : LoadBalancerType
  pub metallb : Ptr MetalLbConfig

abbrev pub load_balancer_layout : Layout StoredLoadBalancerComponent
load_balancer_layout = record {
  addresses = λ b. (pointer flat).addresses b.metallb;
  erase = λ b. record b { metallb = (pointer flat).erase b.metallb };
}

abbrev pub load_balancer_component_into :
    StoredLoadBalancerComponent → Alloc StoredLoadBalancerComponent
load_balancer_component_into given = do
  metallb ← copy_pointer return given.metallb
  return (record given { metallb = metallb })

abbrev pub copy_load_balancer_component :
    Ptr StoredLoadBalancerComponent → Alloc (Ptr StoredLoadBalancerComponent)
copy_load_balancer_component = copy_pointer load_balancer_component_into

pub record StoredClusterPrerequisitesSpec : Type 0 where
  pub target_cluster_ref : LocalObjectReference
  pub application_collection_credentials_secret_ref : Ptr LocalObjectReference
  pub cert_manager : Ptr CertManagerComponent
  pub ingress : Ptr IngressComponent
  pub load_balancer : Ptr StoredLoadBalancerComponent

abbrev pub spec_layout : Layout StoredClusterPrerequisitesSpec
spec_layout = record {
  addresses = λ s.
      (pointer flat).addresses s.application_collection_credentials_secret_ref
      ++ ((pointer flat).addresses s.cert_manager
          ++ ((pointer flat).addresses s.ingress
              ++ (pointer load_balancer_layout).addresses s.load_balancer));
  erase = λ s. record {
    target_cluster_ref = s.target_cluster_ref;
    application_collection_credentials_secret_ref =
        (pointer flat).erase s.application_collection_credentials_secret_ref;
    cert_manager = (pointer flat).erase s.cert_manager;
    ingress = (pointer flat).erase s.ingress;
    load_balancer = (pointer load_balancer_layout).erase s.load_balancer;
  };
}

abbrev pub cluster_prerequisites_spec_into :
    StoredClusterPrerequisitesSpec → Alloc StoredClusterPrerequisitesSpec
cluster_prerequisites_spec_into given = do
  credentials ← copy_pointer return given.application_collection_credentials_secret_ref
  cert_manager ← copy_pointer return given.cert_manager
  ingress ← copy_pointer return given.ingress
  load_balancer ← copy_pointer load_balancer_component_into given.load_balancer
  return (record given {
    target_cluster_ref = given.target_cluster_ref;
    application_collection_credentials_secret_ref = credentials;
    cert_manager = cert_manager;
    ingress = ingress;
    load_balancer = load_balancer;
  })

abbrev pub copy_cluster_prerequisites_spec :
    Ptr StoredClusterPrerequisitesSpec → Alloc (Ptr StoredClusterPrerequisitesSpec)
copy_cluster_prerequisites_spec = copy_pointer cluster_prerequisites_spec_into

pub record StoredClusterPrerequisitesStatus (api : Apimachinery) : Type 0 where
  pub ready : Bool
  pub components : ComponentStatuses
  pub observed_generation : ℕ
  pub conditions : Slice api.Condition

pub record StoredClusterPrerequisites (api : Apimachinery) : Type 0 where
  pub type_meta : TypeMeta
  pub meta : api.ObjectMeta
  pub spec : StoredClusterPrerequisitesSpec
  pub status : StoredClusterPrerequisitesStatus api

pub record StoredClusterPrerequisitesList (api : Apimachinery) : Type 0 where
  pub type_meta : TypeMeta
  pub meta : api.ListMeta
  pub items : Slice (StoredClusterPrerequisites api)

module _ (api : Apimachinery) where
  abbrev pub status_layout : Layout (StoredClusterPrerequisitesStatus api)
  status_layout = record {
    addresses = λ s. (slice api.condition).addresses s.conditions;
    erase = λ s. record s { conditions = (slice api.condition).erase s.conditions };
  }

  abbrev pub cluster_prerequisites_status_into :
      StoredClusterPrerequisitesStatus api → Alloc (StoredClusterPrerequisitesStatus api)
  cluster_prerequisites_status_into given = do
    conditions ← copy_slice api.condition_into given.conditions
    return (record given { components = given.components; conditions = conditions })

  abbrev pub copy_cluster_prerequisites_status :
      Ptr (StoredClusterPrerequisitesStatus api)
      → Alloc (Ptr (StoredClusterPrerequisitesStatus api))
  copy_cluster_prerequisites_status = copy_pointer cluster_prerequisites_status_into

  abbrev pub cluster_prerequisites_layout : Layout (StoredClusterPrerequisites api)
  cluster_prerequisites_layout = record {
    addresses = λ x.
        api.object_meta.addresses x.meta
        ++ (spec_layout.addresses x.spec ++ status_layout.addresses x.status);
    erase = λ x. record {
      type_meta = x.type_meta;
      meta = api.object_meta.erase x.meta;
      spec = spec_layout.erase x.spec;
      status = status_layout.erase x.status;
    };
  }

  abbrev pub cluster_prerequisites_into :
      StoredClusterPrerequisites api → Alloc (StoredClusterPrerequisites api)
  cluster_prerequisites_into given = do
    meta ← api.object_meta_into given.meta
    spec ← cluster_prerequisites_spec_into given.spec
    status ← cluster_prerequisites_status_into given.status
    return (record given { type_meta = given.type_meta; meta = meta; spec = spec; status = status })

  abbrev pub copy_cluster_prerequisites :
      Ptr (StoredClusterPrerequisites api) → Alloc (Ptr (StoredClusterPrerequisites api))
  copy_cluster_prerequisites = copy_pointer cluster_prerequisites_into

  abbrev pub copy_cluster_prerequisites_object :
      Ptr (StoredClusterPrerequisites api) → Alloc (Object (StoredClusterPrerequisites api))
  copy_cluster_prerequisites_object given = do c ← copy_cluster_prerequisites given; as_object c

  abbrev pub list_layout : Layout (StoredClusterPrerequisitesList api)
  list_layout = record {
    addresses = λ l.
        api.list_meta.addresses l.meta ++ (slice cluster_prerequisites_layout).addresses l.items;
    erase = λ l. record {
      type_meta = l.type_meta;
      meta = api.list_meta.erase l.meta;
      items = (slice cluster_prerequisites_layout).erase l.items;
    };
  }

  abbrev pub cluster_prerequisites_list_into :
      StoredClusterPrerequisitesList api → Alloc (StoredClusterPrerequisitesList api)
  cluster_prerequisites_list_into given = do
    meta ← api.list_meta_into given.meta
    items ← copy_slice cluster_prerequisites_into given.items
    return (record given { type_meta = given.type_meta; meta = meta; items = items })

  abbrev pub copy_cluster_prerequisites_list :
      Ptr (StoredClusterPrerequisitesList api) → Alloc (Ptr (StoredClusterPrerequisitesList api))
  copy_cluster_prerequisites_list = copy_pointer cluster_prerequisites_list_into

  abbrev pub copy_cluster_prerequisites_list_object :
      Ptr (StoredClusterPrerequisitesList api) → Alloc (Object (StoredClusterPrerequisitesList api))
  copy_cluster_prerequisites_list_object given = do
    c ← copy_cluster_prerequisites_list given
    as_object c
