-- ===== src/Api/DeepCopy/TargetCluster.antt =====
-- The deep copies of the types of api/v1alpha1/targetcluster_types.go.
pub mod Copies
use rancher_operator.Common.{ℕ, ℤ, Bool, ◌++◌}
use rancher_operator.Common.Text.{Text}
use rancher_operator.Api.TargetCluster.{TargetClusterType, KubeconfigSecretRef, ByoSpec}
use rancher_operator.Api.DeepCopy.{
  Ptr, Slice, Object, Alloc, return, ◌>>=◌, copy_pointer, copy_slice, as_object, Layout, flat,
  pointer, slice, Apimachinery, TypeMeta,
}

abbrev pub kubeconfig_secret_ref_into : KubeconfigSecretRef → Alloc KubeconfigSecretRef
kubeconfig_secret_ref_into given = return given

abbrev pub copy_kubeconfig_secret_ref : Ptr KubeconfigSecretRef → Alloc (Ptr KubeconfigSecretRef)
copy_kubeconfig_secret_ref = copy_pointer kubeconfig_secret_ref_into

abbrev pub byo_spec_into : ByoSpec → Alloc ByoSpec
byo_spec_into given =
    let out = given in return (record out { kubeconfig_secret_ref = given.kubeconfig_secret_ref })

abbrev pub copy_byo_spec : Ptr ByoSpec → Alloc (Ptr ByoSpec)
copy_byo_spec = copy_pointer byo_spec_into

pub record StoredTargetClusterSpec : Type 0 where
  pub type : TargetClusterType
  pub byo : Ptr ByoSpec

abbrev pub spec_layout : Layout StoredTargetClusterSpec
spec_layout = record {
  addresses = λ s. (pointer flat).addresses s.byo;
  erase = λ s. record s { byo = (pointer flat).erase s.byo };
}

abbrev pub target_cluster_spec_into : StoredTargetClusterSpec → Alloc StoredTargetClusterSpec
target_cluster_spec_into given = do
  byo ← copy_pointer return given.byo
  return (record given { byo = byo })

abbrev pub copy_target_cluster_spec :
    Ptr StoredTargetClusterSpec → Alloc (Ptr StoredTargetClusterSpec)
copy_target_cluster_spec = copy_pointer target_cluster_spec_into

pub record StoredTargetClusterStatus (api : Apimachinery) : Type 0 where
  pub ready : Bool
  pub kubernetes_version : Text
  pub node_count : ℤ
  pub observed_generation : ℕ
  pub conditions : Slice api.Condition

pub record StoredTargetCluster (api : Apimachinery) : Type 0 where
  pub type_meta : TypeMeta
  pub meta : api.ObjectMeta
  pub spec : StoredTargetClusterSpec
  pub status : StoredTargetClusterStatus api

pub record StoredTargetClusterList (api : Apimachinery) : Type 0 where
  pub type_meta : TypeMeta
  pub meta : api.ListMeta
  pub items : Slice (StoredTargetCluster api)

module _ (api : Apimachinery) where
  abbrev pub status_layout : Layout (StoredTargetClusterStatus api)
  status_layout = record {
    addresses = λ s. (slice api.condition).addresses s.conditions;
    erase = λ s. record s { conditions = (slice api.condition).erase s.conditions };
  }

  abbrev pub target_cluster_status_into :
      StoredTargetClusterStatus api → Alloc (StoredTargetClusterStatus api)
  target_cluster_status_into given = do
    conditions ← copy_slice api.condition_into given.conditions
    return (record given { conditions = conditions })

  abbrev pub copy_target_cluster_status :
      Ptr (StoredTargetClusterStatus api) → Alloc (Ptr (StoredTargetClusterStatus api))
  copy_target_cluster_status = copy_pointer target_cluster_status_into

  abbrev pub target_cluster_layout : Layout (StoredTargetCluster api)
  target_cluster_layout = record {
    addresses = λ tc.
        api.object_meta.addresses tc.meta
        ++ (spec_layout.addresses tc.spec ++ status_layout.addresses tc.status);
    erase = λ tc. record {
      type_meta = tc.type_meta;
      meta = api.object_meta.erase tc.meta;
      spec = spec_layout.erase tc.spec;
      status = status_layout.erase tc.status;
    };
  }

  abbrev pub target_cluster_into : StoredTargetCluster api → Alloc (StoredTargetCluster api)
  target_cluster_into given = do
    meta ← api.object_meta_into given.meta
    spec ← target_cluster_spec_into given.spec
    status ← target_cluster_status_into given.status
    return (record given { type_meta = given.type_meta; meta = meta; spec = spec; status = status })

  abbrev pub copy_target_cluster :
      Ptr (StoredTargetCluster api) → Alloc (Ptr (StoredTargetCluster api))
  copy_target_cluster = copy_pointer target_cluster_into

  abbrev pub copy_target_cluster_object :
      Ptr (StoredTargetCluster api) → Alloc (Object (StoredTargetCluster api))
  copy_target_cluster_object given = do c ← copy_target_cluster given; as_object c

  abbrev pub list_layout : Layout (StoredTargetClusterList api)
  list_layout = record {
    addresses =
        λ l. api.list_meta.addresses l.meta ++ (slice target_cluster_layout).addresses l.items;
    erase = λ l. record {
      type_meta = l.type_meta;
      meta = api.list_meta.erase l.meta;
      items = (slice target_cluster_layout).erase l.items;
    };
  }

  abbrev pub target_cluster_list_into :
      StoredTargetClusterList api → Alloc (StoredTargetClusterList api)
  target_cluster_list_into given = do
    meta ← api.list_meta_into given.meta
    items ← copy_slice target_cluster_into given.items
    return (record given { type_meta = given.type_meta; meta = meta; items = items })

  abbrev pub copy_target_cluster_list :
      Ptr (StoredTargetClusterList api) → Alloc (Ptr (StoredTargetClusterList api))
  copy_target_cluster_list = copy_pointer target_cluster_list_into

  abbrev pub copy_target_cluster_list_object :
      Ptr (StoredTargetClusterList api) → Alloc (Object (StoredTargetClusterList api))
  copy_target_cluster_list_object given = do c ← copy_target_cluster_list given; as_object c
